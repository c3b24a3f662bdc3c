-- ===== src/Inline/Passes.antt =====
-- The tests of `test_regular_file` of inline-data.c pass on a volume that keeps small files in their
-- inodes.
use ocfs2_test.Common.{
  ℕ, suc, ◌-◌, ◌*◌, ◌≤◌, ◌≡◌, refl, Bool, true, false, leb, arith, Result, ok, ◌>>=◌,
}
use ocfs2_test.Kernel.{Kernel}
use ocfs2_test.Inline.{Sizes, State, truncate_pattern, extend_pattern, prep_file, verify_pattern_fd}
use ocfs2_test.Inline.Inode.{Volume, File, Inlines, Reserves, Succeeds}
use ocfs2_test.Inline.Agrees.{Ends, Ends-bind, Ends-then}
use ocfs2_test.Inline.Verify.{Ends-check_inlined}
use ocfs2_test.Inline.Changes.{Ends-succeeds, Ends-prep_file}
use ocfs2_test.Inline.Rounds.{IsSizes, Good, verified, truncate_verified, extend_verified}
use ocfs2_test.Inline.Loops.{
  Sized, Ends-rewrite_loop, Ends-reduce_loop, Ends-extend_loop, Ends-double_write_loop,
  Ends-mmap_read_loop, Ends-reserve_loop, Ends-punch_loop,
}
use ocfs2_test.Inline.Regular.{
  basic_pattern, rewrite_portion, reduce_size, extend_file, extreme, double_write, synced,
  mmap_reads, reserve_space, punch_hole, check_inlined,
}

module _ (k : Kernel) (v : Volume k) (o : Sizes) (stream : ℕ → ℕ) (view : k.Disk → File)
    (inlines : Inlines k v o.max_inline_size view) (sizes : IsSizes o) where
  open o use {max_inline_size}

  abbrev pub Kept : ℕ → Bool → State k → Type 0
  Kept = Good k v o stream view inlines sizes

  abbrev pub Full : State k → Type 0
  Full = Kept max_inline_size true

  pub checked :
      (n : ℕ) (b : Bool) (s : State k)
      → Kept n b s
      → Ends (Kept n b) (check_inlined k v o stream b s)
  checked n b s h = Ends-check_inlined k v o max_inline_size view inlines stream n b false s h

  pub all_verified :
      (n : ℕ) (b : Bool) (s : State k)
      → Kept n b s
      → Ends
          (Kept n b)
          (verify_pattern_fd k v o false n s >>= λ s1. check_inlined k v o stream b s1)
  all_verified n b s h = Ends-bind (verified k v o stream view inlines sizes n b s h) (checked n b)

  pub prepared : (s : State k) → Ends Full (prep_file k v o stream max_inline_size s)
  prepared s =
      Ends-prep_file k v o max_inline_size view inlines stream max_inline_size s (omega arith)

  -- A loop and the look at the inode behind it.
  then_checked :
      {r : Result (State k)}
      → Ends Full r
      → Ends Full (r >>= λ s1. check_inlined k v o stream true s1)
  then_checked h = Ends-bind h (checked max_inline_size true)

  then_checked-Sized :
      (most : ℕ) (r : Result (ℕ × State k))
      → Ends (Sized k v o stream view inlines sizes most) r
      → Ends
          (Sized k v o stream view inlines sizes most)
          (r >>= λ (n, s1). check_inlined k v o stream true s1 >>= λ s2. ok (n, s2))
  then_checked-Sized most r h =
      Ends-bind h
        (λ (n, s1) hn. Ends-bind (checked n true s1 hn.1) (λ s2 h2. ((n, s2), refl, (hn.0, h2))))

  pub Ends-basic_pattern : (s : State k) → Ends Full (basic_pattern k v o stream s)
  unfolding basic_pattern
  Ends-basic_pattern s = Ends-bind (prepared s) (λ s1 h1.
      Ends-bind (checked max_inline_size true s1 h1)
        (verified k v o stream view inlines sizes max_inline_size true))

  pub Ends-rewrite_portion : (s : State k) → Full s → Ends Full (rewrite_portion k v o stream s)
  unfolding rewrite_portion
  Ends-rewrite_portion s h =
      then_checked
        (Ends-rewrite_loop k v o stream view inlines sizes max_inline_size 0 s (omega arith) h)

  pub Ends-reduce_size :
      (s : State k)
      → Full s
      → Ends (Sized k v o stream view inlines sizes 1) (reduce_size k v o stream s)
  unfolding reduce_size
  Ends-reduce_size s h = then_checked-Sized 1 _ (
      Ends-reduce_loop k v o stream view inlines sizes max_inline_size 0 max_inline_size s
        (omega arith) (omega arith) (omega arith) (omega arith) h)

  pub Ends-extend_file :
      (old : ℕ) (s : State k)
      → old ≤ 1
      → Kept old true s
      → Ends
          (Sized k v o stream view inlines sizes max_inline_size)
          (extend_file k v o stream old s)
  unfolding extend_file
  Ends-extend_file old s one h = then_checked-Sized max_inline_size _ (
      Ends-extend_loop k v o stream view inlines sizes (max_inline_size - 1) 2 old s
        (omega (arith, sizes.some_inline)) (omega (arith, one))
        (omega (arith, one, sizes.some_inline)) h)

  pub Ends-extreme :
      (old : ℕ) (s : State k)
      → old ≤ max_inline_size
      → Kept old true s
      → Ends Full (extreme k v o stream old s)
  unfolding extreme
  Ends-extreme old s small h =
      let fits : leb max_inline_size max_inline_size ≡ true = ground arith in
      Ends-then (truncate_pattern k v o old 0 s) (verify_pattern_fd k v o false 0)
        (truncate_verified k v o stream view inlines sizes old 0 s (omega arith) small h)
        (λ s2 h2.
          Ends-then (extend_pattern k v o 0 max_inline_size s2)
            (verify_pattern_fd k v o false max_inline_size)
            (rw fits at (
              extend_verified k v o stream view inlines sizes 0 max_inline_size s2 (omega arith)
                (omega (arith, sizes.in_pattern)) h2))
            (checked max_inline_size true))

  pub Ends-double_write : (s : State k) → Ends Full (double_write k v o stream s)
  unfolding double_write
  Ends-double_write s =
      let e : suc (max_inline_size - 1) ≡ max_inline_size = omega (arith, sizes.some_inline) in
      then_checked (
        rw e at (
          Ends-double_write_loop k v o stream view inlines sizes (max_inline_size - 1) 1 s
            (omega arith) (omega (arith, sizes.some_inline))))

  pub Ends-synced :
      (call : k.Disk → Bool × k.Disk) (s : State k)
      → ((d : k.Disk) → Succeeds view (call d) (view d))
      → Ends Full (synced k v o stream call s)
  unfolding synced
  Ends-synced call s same = Ends-bind (prepared s) (λ s1 h1.
      Ends-bind
        (Ends-succeeds k v o max_inline_size view inlines max_inline_size s1.drawn true false
          s1.pattern (call s1.disk) (view s1.disk) (same s1.disk) h1)
        (all_verified max_inline_size true))

  pub Ends-mmap_reads : (s : State k) → Ends Full (mmap_reads k v o stream s)
  unfolding mmap_reads
  Ends-mmap_reads s = Ends-bind (prepared s) (λ s1 h1.
      then_checked (Ends-mmap_read_loop k v o stream view inlines sizes max_inline_size 1 s1 h1))

  pub Ends-reserve_space :
      Reserves k v max_inline_size view
      → (s : State k) → Full s
      → Ends Full (reserve_space k v o stream s)
  unfolding reserve_space
  Ends-reserve_space reserves s h = then_checked (
      Ends-reserve_loop k v o stream view inlines sizes reserves max_inline_size 0 s (omega arith)
        h)

  pub Ends-punch_hole :
      Reserves k v max_inline_size view
      → (f : ℕ) (s : State k) → max_inline_size ≤ 11 * f
      → Full s
      → Ends Full (punch_hole k v o stream (suc f) s)
  unfolding punch_hole
  Ends-punch_hole reserves f s enough h =
      then_checked
        (Ends-punch_loop k v o stream view inlines sizes reserves f 0 s (omega (arith, enough)) h)
