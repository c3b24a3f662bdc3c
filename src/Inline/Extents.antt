-- ===== src/Inline/Extents.antt =====
-- The tests of `test_regular_file` of inline-data.c that force the data out of the inode, or go round
-- the cache.
use ocfs2_test.Common.{
  ℕ, ◌+◌, ◌-◌, ◌*◌, ◌≡◌, refl, Bool, true, false, leb, max, arith, ok, failed, ◌>>=◌,
}
use ocfs2_test.Kernel.{Kernel}
use ocfs2_test.Inline.{
  try_reserve, replied, Sizes, State, pattern_sz, fill_pattern, prep_file, extend_pattern,
  verify_pattern_fd,
}
use ocfs2_test.Inline.Inode.{Volume, File, Inlines, Reserves, reopened, enotty, resvsp}
use ocfs2_test.Inline.Agrees.{Same, Ends, Ends-bind, Ends-then}
use ocfs2_test.Inline.Verify.{Agrees, Ends-verify_direct, Ends-check_inlined, check_inlined_failed}
use ocfs2_test.Inline.Changes.{
  Ends-succeeds, Ends-extend_pattern, Ends-prep_file_no_fill, Ends-prep_direct, Ends-write_at,
  Ends-mmap_write_at, Ends-try_reserve, Replied,
}
use ocfs2_test.Inline.Rounds.{IsSizes, verified, extend_verified}
use ocfs2_test.Inline.Regular.{
  large_write, mmap_write, large_extend, extend_unless_enotty, large_reservation, direct_read,
  direct_write, check_inlined,
}
use ocfs2_test.Inline.Passes.{Kept, checked, all_verified, prepared}

module _ (k : Kernel) (v : Volume k) (o : Sizes) (stream : ℕ → ℕ) (view : k.Disk → File)
    (inlines : Inlines k v o.max_inline_size view) (sizes : IsSizes o) where
  open o use {max_inline_size}

  abbrev Agreeing : ℕ → Bool → State k → Type 0
  Agreeing = Kept k v o stream view inlines sizes

  -- Once the data have left the inode.
  pub Ends-large_write :
      (s : State k) → Ends (Agreeing pattern_sz false) (large_write k v o stream s)
  unfolding large_write
  Ends-large_write s =
      let off = max_inline_size in
      let count = pattern_sz - max_inline_size in
      let all : max max_inline_size (off + count) ≡ pattern_sz =
        omega (arith, sizes.in_pattern, sizes.some_inline) in
      let whole : off + count ≡ pattern_sz = omega (arith, sizes.in_pattern) in
      let past : leb pattern_sz max_inline_size ≡ false =
        ground (arith, sizes.in_pattern, sizes.some_inline) in
      Ends-bind
        (Ends-prep_file_no_fill k v o max_inline_size view inlines max_inline_size
          (fill_pattern k v o stream pattern_sz s) (omega arith))
        (λ s1 h1.
          Ends-bind
            (rw (all, whole, past) at
              (Ends-write_at k v o max_inline_size view inlines count off max_inline_size true false
                s1 (omega arith) h1))
            (all_verified k v o stream view inlines sizes pattern_sz false))

  pub Ends-mmap_write :
      (s : State k) → Ends (Agreeing max_inline_size false) (mmap_write k v o stream s)
  unfolding mmap_write fill_pattern
  Ends-mmap_write s = Ends-bind (prepared k v o stream view inlines sizes s) (λ s1 h1.
      Ends-bind
        (Ends-mmap_write_at k v o max_inline_size view inlines max_inline_size true false s1.pattern
          (fill_pattern k v o stream max_inline_size s1) sizes.some_page h1)
        (all_verified k v o stream view inlines sizes max_inline_size false))

  pub Ends-large_extend :
      (s : State k) → Ends (Agreeing (2 * max_inline_size) false) (large_extend k v o stream s)
  unfolding large_extend
  Ends-large_extend s =
      let past : leb (2 * max_inline_size) max_inline_size ≡ false =
        ground (arith, sizes.some_inline) in
      Ends-bind (prepared k v o stream view inlines sizes s) (λ s1 h1.
        Ends-then (extend_pattern k v o max_inline_size (2 * max_inline_size) s1)
          (verify_pattern_fd k v o false (2 * max_inline_size))
          (rw past at (
            extend_verified k v o stream view inlines sizes max_inline_size (2 * max_inline_size) s1
              (omega arith) (omega (arith, sizes.in_pattern)) h1))
          (checked k v o stream view inlines sizes (2 * max_inline_size) false))

  -- The part that a volume with the ioctl runs.
  extended :
      (r : Bool × State k)
      → Replied k v o max_inline_size view inlines max_inline_size false false r
      → Ends (Agreeing pattern_sz false) (extend_unless_enotty k v o stream r)
  unfolding extend_unless_enotty
  extended (true, s) h =
      Ends-bind
        (Ends-extend_pattern k v o max_inline_size view inlines max_inline_size pattern_sz false
          false s (omega (arith, sizes.in_pattern)) (omega arith) h.1)
        (verified k v o stream view inlines sizes pattern_sz false)
  extended (false, s) h = cc

  pub Ends-large_reservation :
      Reserves k v max_inline_size view
      → (s : State k) → Ends (Agreeing pattern_sz false) (large_reservation k v o stream s)
  unfolding large_reservation
  Ends-large_reservation reserves s =
      let past : leb (0 + pattern_sz) max_inline_size ≡ false =
        ground (arith, sizes.in_pattern, sizes.some_inline) in
      Ends-bind (prepared k v o stream view inlines sizes s) (λ s1 h1.
        Ends-bind
          (rw past at (
            Ends-try_reserve k v o max_inline_size view inlines reserves 0 pattern_sz
              max_inline_size true false s1 h1))
          (λ r hr.
            Ends-bind (extended r hr) (checked k v o stream view inlines sizes pattern_sz false)))

  -- What `O_DIRECT` leaves.
  abbrev Direct : Bool → State k → Type 0
  Direct b = Agrees k v o max_inline_size view inlines max_inline_size b true

  verified-Direct :
      (b : Bool) (s : State k)
      → Direct b s
      → Ends
          (Direct b)
          (verify_pattern_fd k v o true max_inline_size s >>= λ s1. check_inlined k v o stream b s1)
  verified-Direct b s h =
      Ends-bind
        (Ends-verify_direct k v o max_inline_size view inlines max_inline_size b true s
          sizes.in_block h)
        (Ends-check_inlined k v o max_inline_size view inlines stream max_inline_size b true)

  Same-reopened :
      (pattern : ℕ → ℕ) (n : ℕ) (b t : Bool) (f : File)
      → Same pattern n b t f
      → Same pattern n b true (reopened f)
  Same-reopened pattern n b t f h = record {
    size_is = h.size_is;
    same = h.same;
    inlined_is = h.inlined_is;
    direct_is = refl;
  }

  pub Ends-direct_read : (s : State k) → Ends (Direct true) (direct_read k v o stream s)
  unfolding direct_read
  Ends-direct_read s = Ends-bind (prepared k v o stream view inlines sizes s) (λ s1 h1.
      Ends-bind
        (Ends-succeeds k v o max_inline_size view inlines max_inline_size s1.drawn true true
          s1.pattern (v.open_direct s1.disk) (reopened (view s1.disk))
          (inlines.open_inlines s1.disk)
          (Same-reopened s1.pattern max_inline_size true false (view s1.disk) h1))
        (verified-Direct true))

  pub Ends-direct_write : (s : State k) → Ends (Direct false) (direct_write k v o stream s)
  unfolding direct_write
  Ends-direct_write s =
      Ends-bind
        (Ends-prep_direct k v o max_inline_size view inlines max_inline_size
          (fill_pattern k v o stream max_inline_size s) sizes.in_block)
        (verified-Direct false)

  try_reserve_enotty :
      (offset count : ℕ) (s : State k)
      → v.ioctl resvsp offset count s.disk ≡ (enotty, s.disk)
      → try_reserve k v o offset count s ≡ ok (false, s)
  unfolding try_reserve replied
  try_reserve_enotty offset count s none = rw none refl

  -- On a volume that keeps small files in their inodes, but whose kernel has no ioctl for reservations,
  -- the file of the test of the large reservation is prepared and the reservation is passed over. The
  -- data are then still in the inode, with the size and the bytes of the pattern, and so the test fails.
  pub large_reservation_enotty :
      (s : State k)
      → ((offset len : ℕ) (d : k.Disk) → v.ioctl resvsp offset len d ≡ (enotty, d))
      → (s1 : State k) × (prep_file k v o stream max_inline_size s ≡ ok s1)
        × (try_reserve k v o 0 pattern_sz s1 ≡ ok (false, s1))
        × Same s1.pattern max_inline_size true false (view s1.disk)
        × (large_reservation k v o stream s ≡ failed)
  unfolding large_reservation extend_unless_enotty
  large_reservation_enotty s none =
      let (s1, e, h1) = prepared k v o stream view inlines sizes s in
      let passed_over = try_reserve_enotty 0 pattern_sz s1 (none 0 pattern_sz s1.disk) in
      (
        s1,
        e,
        passed_over,
        h1,
        rw (e, passed_over)
            (check_inlined_failed k v o max_inline_size view inlines stream max_inline_size false s1
              h1),
      )
