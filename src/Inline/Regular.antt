-- ===== src/Inline/Regular.antt =====
-- programs/inline-data/inline-data.c: the tests of `test_regular_file`, one after the other.
use ocfs2_test.Common.{
  ℕ, zero, suc, ◌+◌, ◌-◌, ◌*◌, Bool, true, false, ltb, if◌then◌else◌, Result, ok, out_of_fuel,
  ◌>>=◌,
}
use ocfs2_test.Kernel.{Kernel}
use ocfs2_test.Inline.Inode.{Volume}
use ocfs2_test.Inline.{
  Sizes, State, pattern_sz, get_rand, fill_pattern, succeeds, truncate_pattern, extend_pattern,
  try_reserve, try_punch_hole, write_at, mmap_write_at, prep_file_no_fill, prep_file,
  verify_pattern_fd, verify_pattern_mmap, is_file_inlined, should_inlined_or_not,
}

module _ (k : Kernel) (v : Volume k) (o : Sizes) (stream : ℕ → ℕ) where
  open o use {max_inline_size}

  -- A draw of `get_rand`, and the state after it.
  unfoldable pub drawing : ℕ → ℕ → State k → ℕ × State k
  drawing lo hi s =
      let (r, drawn) = get_rand stream lo hi s.drawn in
      (r, record { pattern = s.pattern; disk = s.disk; drawn = drawn })

  -- The end of each test.
  unfoldable pub check_inlined : Bool → State k → Result (State k)
  check_inlined should_inlined s = is_file_inlined k v o s >>= λ (is_inlined, s1).
      should_inlined_or_not k v o is_inlined should_inlined s1

  unfoldable pub basic_pattern : State k → Result (State k)
  basic_pattern s = prep_file k v o stream max_inline_size s >>= λ s1.
      check_inlined true s1 >>= λ s2. verify_pattern_fd k v o false max_inline_size s2

  -- Each loop with `n` rounds left.
  unfoldable pub rewrite_loop : ℕ → ℕ → State k → Result (State k)
  rewrite_loop zero j s = ok s
  rewrite_loop (suc n) j s =
      let (count, s1) = drawing 1 (max_inline_size - j) s in
      write_at k v o count j s1 >>= λ s2.
      verify_pattern_fd k v o false max_inline_size s2 >>= λ s3. rewrite_loop n (j + 1) s3

  unfoldable pub rewrite_portion : State k → Result (State k)
  rewrite_portion s = rewrite_loop max_inline_size 0 s >>= λ s1. check_inlined true s1

  -- With the `new_size` of the round before, and the last `new_size`.
  unfoldable pub reduce_loop : ℕ → ℕ → ℕ → State k → Result (ℕ × State k)
  reduce_loop zero j old_size s = ok (old_size, s)
  reduce_loop (suc n) j old_size s =
      let new_size = max_inline_size - j in
      truncate_pattern k v o old_size new_size s >>= λ s1.
      verify_pattern_fd k v o false new_size s1 >>= λ s2. reduce_loop n (j + 1) new_size s2

  unfoldable pub reduce_size : State k → Result (ℕ × State k)
  reduce_size s = reduce_loop max_inline_size 0 max_inline_size s >>= λ (new_size, s1).
      check_inlined true s1 >>= λ s2. ok (new_size, s2)

  unfoldable pub extend_loop : ℕ → ℕ → ℕ → State k → Result (ℕ × State k)
  extend_loop zero j old_size s = ok (old_size, s)
  extend_loop (suc n) j old_size s = extend_pattern k v o old_size j s >>= λ s1.
      verify_pattern_fd k v o false j s1 >>= λ s2. extend_loop n (j + 1) j s2

  unfoldable pub extend_file : ℕ → State k → Result (ℕ × State k)
  extend_file old_size s = extend_loop (max_inline_size - 1) 2 old_size s >>= λ (new_size, s1).
      check_inlined true s1 >>= λ s2. ok (new_size, s2)

  unfoldable pub extreme : ℕ → State k → Result (State k)
  extreme old_size s = truncate_pattern k v o old_size 0 s >>= λ s1.
      verify_pattern_fd k v o false 0 s1 >>= λ s2.
      extend_pattern k v o 0 max_inline_size s2 >>= λ s3.
      verify_pattern_fd k v o false max_inline_size s3 >>= λ s4. check_inlined true s4

  unfoldable pub double_write_loop : ℕ → ℕ → State k → Result (State k)
  double_write_loop zero j s = ok s
  double_write_loop (suc n) j s =
      let (init_count, s1) = drawing 1 j (fill_pattern k v o stream j s) in
      prep_file_no_fill k v o init_count false s1 >>= λ s2.
      (let (offset, s3) = drawing 1 init_count s2 in
        write_at k v o (j - offset) offset s3 >>= λ s4.
        verify_pattern_fd k v o false j s4 >>= λ s5. double_write_loop n (j + 1) s5)

  unfoldable pub double_write : State k → Result (State k)
  double_write s = double_write_loop max_inline_size 1 s >>= λ s1. check_inlined true s1

  -- The tests of `fsync` and of `fdatasync`.
  unfoldable pub synced : (k.Disk → Bool × k.Disk) → State k → Result (State k)
  synced call s = prep_file k v o stream max_inline_size s >>= λ s1.
      succeeds k v o s1.pattern s1.drawn (call s1.disk) >>= λ s2.
      verify_pattern_fd k v o false max_inline_size s2 >>= λ s3. check_inlined true s3

  unfoldable pub mmap_read_loop : ℕ → ℕ → State k → Result (State k)
  mmap_read_loop zero j s = ok s
  mmap_read_loop (suc n) j s = verify_pattern_mmap k v o j s >>= λ s1. mmap_read_loop n (j + 1) s1

  unfoldable pub mmap_reads : State k → Result (State k)
  mmap_reads s = prep_file k v o stream max_inline_size s >>= λ s1.
      mmap_read_loop max_inline_size 1 s1 >>= λ s2. check_inlined true s2

  -- `if (ret != ENOTTY)`: the pattern is verified when the ioctl is there.
  unfoldable pub verify_unless_enotty : ℕ → Bool × State k → Result (State k)
  verify_unless_enotty size (true, s) = verify_pattern_fd k v o false size s
  verify_unless_enotty size (false, s) = ok s

  unfoldable pub reserve_loop : ℕ → ℕ → State k → Result (State k)
  reserve_loop zero j s = ok s
  reserve_loop (suc n) j s =
      let (count, s1) = drawing 1 (max_inline_size - j) s in
      try_reserve k v o j count s1 >>= λ r.
      verify_unless_enotty max_inline_size r >>= λ s2. reserve_loop n (j + 1) s2

  unfoldable pub reserve_space : State k → Result (State k)
  reserve_space s = reserve_loop max_inline_size 0 s >>= λ s1. check_inlined true s1

  -- `hole_gap` is 10.
  unfoldable pub punch_loop : ℕ → ℕ → State k → Result (State k)
  punch_loop zero offset s = out_of_fuel
  punch_loop (suc f) offset s =
      let (count, s1) = drawing 1 (max_inline_size - offset) s in
      let round = try_punch_hole k v o offset count s1 >>= λ r.
      verify_unless_enotty max_inline_size r >>= λ s2. punch_loop f (offset + count + 10) s2 in
      if ltb offset max_inline_size then round else ok s

  unfoldable pub punch_hole : ℕ → State k → Result (State k)
  punch_hole f s = punch_loop f 0 s >>= λ s1. check_inlined true s1

  unfoldable pub large_write : State k → Result (State k)
  large_write s =
      prep_file_no_fill k v o max_inline_size false (fill_pattern k v o stream pattern_sz s)
      >>= λ s1. write_at k v o (pattern_sz - max_inline_size) max_inline_size s1 >>= λ s2.
          verify_pattern_fd k v o false pattern_sz s2 >>= λ s3. check_inlined false s3

  unfoldable pub mmap_write : State k → Result (State k)
  mmap_write s = prep_file k v o stream max_inline_size s >>= λ s1.
      mmap_write_at k v o max_inline_size 0 (fill_pattern k v o stream max_inline_size s1) >>= λ s2.
      verify_pattern_fd k v o false max_inline_size s2 >>= λ s3. check_inlined false s3

  unfoldable pub large_extend : State k → Result (State k)
  large_extend s = prep_file k v o stream max_inline_size s >>= λ s1.
      extend_pattern k v o max_inline_size (2 * max_inline_size) s1 >>= λ s2.
      verify_pattern_fd k v o false (2 * max_inline_size) s2 >>= λ s3. check_inlined false s3

  -- The file is extended unless the answer was `ENOTTY`.
  unfoldable pub extend_unless_enotty : Bool × State k → Result (State k)
  extend_unless_enotty (true, s) = extend_pattern k v o max_inline_size pattern_sz s >>= λ s1.
      verify_pattern_fd k v o false pattern_sz s1
  extend_unless_enotty (false, s) = ok s

  unfoldable pub large_reservation : State k → Result (State k)
  large_reservation s = prep_file k v o stream max_inline_size s >>= λ s1.
      try_reserve k v o 0 pattern_sz s1 >>= λ r.
      extend_unless_enotty r >>= λ s2. check_inlined false s2

  unfoldable pub direct_read : State k → Result (State k)
  direct_read s = prep_file k v o stream max_inline_size s >>= λ s1.
      succeeds k v o s1.pattern s1.drawn (v.open_direct s1.disk) >>= λ s2.
      verify_pattern_fd k v o true max_inline_size s2 >>= λ s3. check_inlined true s3

  unfoldable pub direct_write : State k → Result (State k)
  direct_write s =
      prep_file_no_fill k v o max_inline_size true (fill_pattern k v o stream max_inline_size s)
      >>= λ s1. verify_pattern_fd k v o true max_inline_size s1 >>= λ s2. check_inlined false s2

  -- `test_regular_file`, up to the tests of several processes and files; `f` bounds the rounds of
  -- the test that punches holes.
  unfoldable pub test_regular_file : ℕ → State k → Result (State k)
  test_regular_file f s = basic_pattern s >>= λ s1. rewrite_portion s1 >>= λ s2.
      reduce_size s2 >>= λ (size3, s3). extend_file size3 s3 >>= λ (size4, s4).
      extreme size4 s4 >>= λ s5. double_write s5 >>= λ s6. synced v.fsync s6 >>= λ s7.
      synced v.fdatasync s7 >>= λ s8. mmap_reads s8 >>= λ s9. reserve_space s9 >>= λ s10.
      punch_hole f s10 >>= λ s11. large_write s11 >>= λ s12. mmap_write s12 >>= λ s13.
      large_extend s13 >>= λ s14.
      large_reservation s14 >>= λ s15. direct_read s15 >>= λ s16. direct_write s16
