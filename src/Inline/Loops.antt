-- ===== src/Inline/Loops.antt =====
-- The loops of `test_regular_file` of inline-data.c: every round succeeds.
use ocfs2_test.Common.{
  ℕ, zero, suc, ◌+◌, ◌-◌, ◌*◌, ◌≤◌, ◌≡◌, refl, Bool, true, false, leb, ltb, arith, Bool-cases, inl,
  inr,
}
use ocfs2_test.Kernel.{Kernel}
use ocfs2_test.Inline.{
  verify_pattern_fd, Sizes, State, fill_pattern, truncate_pattern, extend_pattern, write_at,
}
use ocfs2_test.Inline.Inode.{Volume, File, Inlines, Reserves}
use ocfs2_test.Inline.Agrees.{Ends, Ends-bind, Ends-then}
use ocfs2_test.Inline.Verify.{verify_pattern_mmap_accepts}
use ocfs2_test.Inline.Changes.{
  Replied, Ends-try_reserve, Ends-try_punch_hole, Ends-prep_file_no_fill,
}
use ocfs2_test.Inline.Regular.{
  drawing, rewrite_loop, reduce_loop, extend_loop, double_write_loop, mmap_read_loop,
  verify_unless_enotty, reserve_loop, punch_loop,
}
use ocfs2_test.Inline.Rounds.{
  IsSizes, Good, drawing-bounds, drawing-Good, verified, write_verified, truncate_verified,
  extend_verified,
}

module _ (k : Kernel) (v : Volume k) (o : Sizes) (stream : ℕ → ℕ) (view : k.Disk → File)
    (inlines : Inlines k v o.max_inline_size view) (sizes : IsSizes o) where
  open o use {max_inline_size}

  abbrev Held : ℕ → Bool → State k → Type 0
  Held = Good k v o stream view inlines sizes

  pub Ends-rewrite_loop :
      (n j : ℕ) (s : State k)
      → j + n ≡ max_inline_size
      → Held max_inline_size true s
      → Ends (Held max_inline_size true) (rewrite_loop k v o stream n j s)
  unfolding rewrite_loop
  Ends-rewrite_loop zero j s e h = (s, refl, h)
  Ends-rewrite_loop (suc n) j s e h =
      let (count, s1) = drawing k v o stream 1 (max_inline_size - j) s in
      let (low, high) =
        drawing-bounds k v o stream view inlines sizes (max_inline_size - j) s (omega (arith, e))
          (omega (arith, sizes.in_pattern)) in
      Ends-then (write_at k v o count j s1) (verify_pattern_fd k v o false max_inline_size)
        (write_verified k v o stream view inlines sizes count j max_inline_size max_inline_size s1
          (omega (arith, e)) (omega (arith, high, e)) (omega (arith, high, e))
          (drawing-Good k v o stream view inlines sizes 1 (max_inline_size - j) max_inline_size true
            s h))
        (λ s2 h2. Ends-rewrite_loop n (j + 1) s2 (omega (arith, e)) h2)

  -- The last size and the file of that size.
  abbrev pub Sized : ℕ → ℕ × State k → Type 0
  Sized most r = (r.0 ≤ most) × Held r.0 true r.1

  pub Ends-reduce_loop :
      (n j old : ℕ) (s : State k)
      → j + n ≡ max_inline_size
      → n ≤ old
      → old ≤ max_inline_size
      → old ≤ n + 1
      → Held old true s
      → Ends (Sized 1) (reduce_loop k v o stream n j old s)
  unfolding reduce_loop
  Ends-reduce_loop zero j old s e low small one h = ((old, s), refl, (omega (arith, one), h))
  Ends-reduce_loop (suc n) j old s e low small one h =
      let new = max_inline_size - j in
      Ends-then (truncate_pattern k v o old new s) (verify_pattern_fd k v o false new)
        (truncate_verified k v o stream view inlines sizes old new s (omega (arith, e, low)) small
          h)
        (λ s2 h2.
          Ends-reduce_loop n (j + 1) new s2 (omega (arith, e)) (omega (arith, e)) (omega (arith, e))
            (omega (arith, e)) h2)

  pub Ends-extend_loop :
      (n j old : ℕ) (s : State k)
      → j + n ≤ max_inline_size + 1
      → old ≤ j
      → old ≤ max_inline_size
      → Held old true s
      → Ends (Sized max_inline_size) (extend_loop k v o stream n j old s)
  unfolding extend_loop
  Ends-extend_loop zero j old s e low small h = ((old, s), refl, (small, h))
  Ends-extend_loop (suc n) j old s e low small h =
      let fits : leb j max_inline_size ≡ true = ground (arith, e) in
      Ends-then (extend_pattern k v o old j s) (verify_pattern_fd k v o false j)
        (extend_verified k v o stream view inlines sizes old j s low
          (omega (arith, e, sizes.in_pattern)) h)
        (λ s2 h2.
          Ends-extend_loop n (j + 1) j s2 (omega (arith, e)) (omega arith) (omega (arith, e))
            (rw fits at h2))

  double_write_loop-suc :
      {Q : State k → Type 0} (n j : ℕ) (s : State k)
      → 1 ≤ j
      → j ≤ max_inline_size
      → ((s' : State k) → Held j true s' → Ends Q (double_write_loop k v o stream n (j + 1) s'))
      → Ends Q (double_write_loop k v o stream (suc n) j s)
  unfolding double_write_loop
  double_write_loop-suc n j s low small rest =
      let s0 = fill_pattern k v o stream j s in
      let (init_count, s1) = drawing k v o stream 1 j s0 in
      let (low1, high1) =
        drawing-bounds k v o stream view inlines sizes j s0 low
          (omega (arith, small, sizes.in_pattern)) in
      Ends-bind
        (Ends-prep_file_no_fill k v o max_inline_size view inlines init_count s1
          (omega (arith, high1, small)))
        (λ s2 h2.
          let (offset, s3) = drawing k v o stream 1 init_count s2 in
          let (low2, high2) =
            drawing-bounds k v o stream view inlines sizes init_count s2 low1
              (omega (arith, high1, small, sizes.in_pattern)) in
          Ends-then (write_at k v o (j - offset) offset s3) (verify_pattern_fd k v o false j)
            (write_verified k v o stream view inlines sizes (j - offset) offset init_count j s3
              high2 (omega (arith, high1, high2)) (omega (arith, high1, high2, small))
              (drawing-Good k v o stream view inlines sizes 1 init_count init_count true s2 h2))
            rest)

  pub Ends-double_write_loop :
      (n j : ℕ) (s : State k)
      → 1 ≤ j
      → j + n ≡ max_inline_size
      → Ends (Held max_inline_size true) (double_write_loop k v o stream (suc n) j s)
  unfolding double_write_loop
  Ends-double_write_loop zero j s low e =
      let last : j ≡ max_inline_size = omega (arith, e) in
      double_write_loop-suc 0 j s low (omega (arith, e)) (λ s' h. (s', refl, rw last at h))
  Ends-double_write_loop (suc n) j s low e =
      double_write_loop-suc (suc n) j s low (omega (arith, e))
        (λ s' h. Ends-double_write_loop n (j + 1) s' (omega arith) (omega (arith, e)))

  pub Ends-mmap_read_loop :
      (n j : ℕ) (s : State k)
      → Held max_inline_size true s
      → Ends (Held max_inline_size true) (mmap_read_loop k v o stream n j s)
  unfolding mmap_read_loop
  Ends-mmap_read_loop zero j s h = (s, refl, h)
  Ends-mmap_read_loop (suc n) j s h =
      rw (verify_pattern_mmap_accepts k v o max_inline_size view inlines j s sizes.some_page)
        (Ends-mmap_read_loop n (j + 1) s h)

  -- The verification after an ioctl that is there.
  Replied-verified :
      (n : ℕ) (b : Bool) (r : Bool × State k)
      → Replied k v o max_inline_size view inlines n b false r
      → Ends (Held n b) (verify_unless_enotty k v o stream n r)
  unfolding verify_unless_enotty
  Replied-verified n b (true, s) h = verified k v o stream view inlines sizes n b s h.1
  Replied-verified n b (false, s) h = cc

  pub Ends-reserve_loop :
      Reserves k v max_inline_size view
      → (n j : ℕ) (s : State k) → j + n ≡ max_inline_size
      → Held max_inline_size true s
      → Ends (Held max_inline_size true) (reserve_loop k v o stream n j s)
  unfolding reserve_loop
  Ends-reserve_loop reserves zero j s e h = (s, refl, h)
  Ends-reserve_loop reserves (suc n) j s e h =
      let (count, s1) = drawing k v o stream 1 (max_inline_size - j) s in
      let (low, high) =
        drawing-bounds k v o stream view inlines sizes (max_inline_size - j) s (omega (arith, e))
          (omega (arith, sizes.in_pattern)) in
      let fits : leb (j + count) max_inline_size ≡ true = ground (arith, high, e) in
      Ends-bind
        (rw fits at (
          Ends-try_reserve k v o max_inline_size view inlines reserves j count max_inline_size true
            false s1
            (drawing-Good k v o stream view inlines sizes 1 (max_inline_size - j) max_inline_size
              true s h)))
        (λ r hr.
          Ends-bind (Replied-verified max_inline_size true r hr)
            (λ s2 h2. Ends-reserve_loop reserves n (j + 1) s2 (omega (arith, e)) h2))

  pub Ends-punch_loop :
      Reserves k v max_inline_size view
      → (f offset : ℕ) (s : State k) → max_inline_size ≤ offset + 11 * f
      → Held max_inline_size true s
      → Ends (Held max_inline_size true) (punch_loop k v o stream (suc f) offset s)
  unfolding punch_loop
  Ends-punch_loop reserves zero offset s enough h =
      let past : ltb offset max_inline_size ≡ false = ground (arith, enough) in rw past (s, refl, h)
  Ends-punch_loop reserves (suc f) offset s enough h =
      elim (Bool-cases (ltb offset max_inline_size)) [
        | inl e ↦
            (let (count, s1) = drawing k v o stream 1 (max_inline_size - offset) s in
              let (low, high) =
                drawing-bounds k v o stream view inlines sizes (max_inline_size - offset) s
                  (ground (arith, e)) (omega (arith, sizes.in_pattern)) in
              rw e (
                Ends-bind
                  (Ends-try_punch_hole k v o max_inline_size view inlines reserves offset count
                    max_inline_size true false s1
                    (drawing-Good k v o stream view inlines sizes 1 (max_inline_size - offset)
                      max_inline_size true s h))
                  (λ r hr. Ends-bind (Replied-verified max_inline_size true r hr) (λ s2 h2.
                    Ends-punch_loop reserves f (offset + count + 10) s2 (omega (arith, enough, low))
                      h2))))
        | inr e ↦ rw e (s, refl, h)
      ]
