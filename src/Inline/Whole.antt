-- ===== src/Inline/Whole.antt =====
-- `test_regular_file` of inline-data.c as a whole.
use ocfs2_test.Common.{ℕ, suc, ◌*◌, ◌≤◌, false, true}
use ocfs2_test.Kernel.{Kernel}
use ocfs2_test.Inline.{Sizes, State}
use ocfs2_test.Inline.Inode.{Volume, File, Inlines, Reserves}
use ocfs2_test.Inline.Agrees.{Ends, Ends-bind}
use ocfs2_test.Inline.Verify.{Agrees}
use ocfs2_test.Inline.Rounds.{IsSizes}
use ocfs2_test.Inline.Regular.{test_regular_file}
use ocfs2_test.Inline.Passes.{
  Ends-basic_pattern, Ends-rewrite_portion, Ends-reduce_size, Ends-extend_file, Ends-extreme,
  Ends-double_write, Ends-synced, Ends-mmap_reads, Ends-reserve_space, Ends-punch_hole,
}
use ocfs2_test.Inline.Extents.{
  Ends-large_write, Ends-mmap_write, Ends-large_extend, Ends-large_reservation, Ends-direct_read,
  Ends-direct_write,
}

module _ (k : Kernel) (v : Volume k) (o : Sizes) (stream : ℕ → ℕ) (view : k.Disk → File)
    (inlines : Inlines k v o.max_inline_size view) (sizes : IsSizes o) where
  -- On a volume that keeps files of up to `max_inline_size` bytes in their inodes, with the ioctls of
  -- space reservation, the tests of `test_regular_file` on one file and in one process succeed,
  -- whatever the random numbers are, if `max_inline_size` is not 0, at most a block and at most half
  -- of `PATTERN_SZ`. The test that punches holes needs a round for 11 bytes, and one more. The file
  -- agrees with the pattern at the end, and the direct write has moved it out of its inode.
  pub test_regular_file_lem :
      Reserves k v o.max_inline_size view
      → (f : ℕ) (s : State k) → o.max_inline_size ≤ 11 * f
      → Ends
          (Agrees k v o o.max_inline_size view inlines o.max_inline_size false true)
          (test_regular_file k v o stream (suc f) s)
  unfolding test_regular_file
  test_regular_file_lem reserves f s enough =
      Ends-bind (Ends-basic_pattern k v o stream view inlines sizes s) (λ s1 h1.
        Ends-bind (Ends-rewrite_portion k v o stream view inlines sizes s1 h1) (λ s2 h2.
          Ends-bind (Ends-reduce_size k v o stream view inlines sizes s2 h2) (λ (n3, s3) h3.
            Ends-bind (Ends-extend_file k v o stream view inlines sizes n3 s3 h3.0 h3.1)
              (λ (n4, s4) h4.
                Ends-bind (Ends-extreme k v o stream view inlines sizes n4 s4 h4.0 h4.1) (λ s5 h5.
                  Ends-bind (Ends-double_write k v o stream view inlines sizes s5) (λ s6 h6.
                    Ends-bind
                      (Ends-synced k v o stream view inlines sizes v.fsync s6 inlines.fsync_inlines)
                      (λ s7 h7.
                        Ends-bind
                          (Ends-synced k v o stream view inlines sizes v.fdatasync s7
                            inlines.fdatasync_inlines)
                          (λ s8 h8.
                            Ends-bind (Ends-mmap_reads k v o stream view inlines sizes s8) (λ s9 h9.
                              Ends-bind
                                (Ends-reserve_space k v o stream view inlines sizes reserves s9 h9)
                                (λ s10 h10.
                                  Ends-bind
                                    (Ends-punch_hole k v o stream view inlines sizes reserves f s10
                                      enough h10)
                                    (λ s11 h11.
                                      Ends-bind
                                        (Ends-large_write k v o stream view inlines sizes s11)
                                        (λ s12 h12.
                                          Ends-bind
                                            (Ends-mmap_write k v o stream view inlines sizes s12)
                                            (λ s13 h13.
                                              Ends-bind
                                                (Ends-large_extend k v o stream view inlines sizes
                                                  s13)
                                                (λ s14 h14.
                                                  Ends-bind
                                                    (Ends-large_reservation k v o stream view
                                                      inlines sizes reserves s14)
                                                    (λ s15 h15.
                                                      Ends-bind
                                                        (Ends-direct_read k v o stream view inlines
                                                          sizes s15)
                                                        (λ s16 h16.
                                                          Ends-direct_write k v o stream view
                                                            inlines sizes s16))))))))))))))))
