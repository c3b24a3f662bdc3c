-- ===== src/Inline.antt =====
-- programs/inline-data/inline-data-utils.c: the pattern in memory that a file with inline data must
-- agree with, and the operations that change both.
pub mod Inode
pub mod Regular
pub mod Agrees
pub mod Verify
pub mod Changes
pub mod Rounds
pub mod Loops
pub mod Passes
pub mod Extents
pub mod Whole
pub mod Children
pub mod Family
pub mod OwnFile
mod Tests
use ocfs2_test.Common.{
  ℕ, zero, suc, ◌+◌, ◌%◌, Bool, true, false, ◌&&◌, not, none, some, leb, ltb, ◌==◌, if◌then◌else◌,
  get_or, length, add64, sub64, Result, ok, failed, out_of_fuel, ◌>>=◌,
}
use ocfs2_test.Kernel.{Kernel, Read, error, bytes, Written, wrote, slice}
use ocfs2_test.Inline.Inode.{
  Volume, Name, work_place, dirent, Request, resvsp, unresvsp, Reply, done, enotty, errno,
}

-- `max_inline_size`, `blocksize` and `page_size`.
pub record Sizes : Type 0 where
  pub max_inline_size : ℕ
  pub blocksize : ℕ
  pub page_size : ℕ

abbrev pub pattern_sz : ℕ
pattern_sz = 8192

-- `pattern`, the file, and the calls of `rand()` so far.
pub record State (k : Kernel) : Type 0 where
  pub pattern : ℕ → ℕ
  pub disk : k.Disk
  pub drawn : ℕ

-- `get_rand`, in `unsigned long`, and the calls of `rand()` after it.
unfoldable pub get_rand : (ℕ → ℕ) → ℕ → ℕ → ℕ → ℕ × ℕ
get_rand stream lo hi i =
    if lo == 0 && hi == 0 then (0, i) else (add64 lo (stream i % add64 (sub64 hi lo) 1), i + 1)

-- `memset` of `n` bytes of the pattern to zero, and an assignment to one.
abbrev pub clear : ℕ → ℕ → (ℕ → ℕ) → ℕ → ℕ
clear off n pattern p = if leb off p && ltb p (off + n) then 0 else pattern p

abbrev pub assign : ℕ → ℕ → (ℕ → ℕ) → ℕ → ℕ
assign i c pattern p = if p == i then c else pattern p

-- The loop of `fill_pattern` from byte `i` on, with `n` bytes left; `rand_char` is part of it.
unfoldable pub fill_from : (ℕ → ℕ) → ℕ → ℕ → (ℕ → ℕ) → ℕ → (ℕ → ℕ) × ℕ
fill_from stream zero i pattern drawn = (pattern, drawn)
fill_from stream (suc n) i pattern drawn =
    let (c, later) = get_rand stream 0 25 drawn in
    fill_from stream n (i + 1) (assign i (b'A' + c) pattern) later

-- `verify_pattern` from byte `i` on, with `n` bytes left.
unfoldable pub verify_pattern : ℕ → ℕ → (ℕ → ℕ) → (ℕ → ℕ) → Bool
verify_pattern zero i buf pattern = true
verify_pattern (suc n) i buf pattern =
    let rest = verify_pattern n (i + 1) buf pattern in
    if not (buf i == pattern i) then false else rest

-- The loop that rounds the length of a mapping up to whole pages.
unfoldable pub mapping_size : ℕ → ℕ → ℕ → ℕ → Result ℕ
mapping_size zero page_size size mmap_size = out_of_fuel
mapping_size (suc f) page_size size mmap_size =
    let rest = mapping_size f page_size size (mmap_size + page_size) in
    if ltb mmap_size size then rest else ok mmap_size

module _ (k : Kernel) (v : Volume k) (o : Sizes) where
  open k use {Disk, pwrite, pread, ftruncate, mmap_set}
  open v use {create, mmap, mapped, ioctl, sync, root_blkno, lookup, read_inode}
  open o use {max_inline_size, blocksize, page_size}

  -- `fill_pattern`
  unfoldable pub fill_pattern : (ℕ → ℕ) → ℕ → State k → State k
  fill_pattern stream size s =
      let (pattern, drawn) = fill_from stream size 0 (clear 0 pattern_sz s.pattern) s.drawn in
      record { pattern = pattern; disk = s.disk; drawn = drawn }

  -- The file after a call that returns 0, with the pattern given.
  unfoldable pub succeeds : (ℕ → ℕ) → ℕ → Bool × Disk → Result (State k)
  succeeds pattern drawn (true, d) = ok (record { pattern = pattern; disk = d; drawn = drawn })
  succeeds pattern drawn (false, d) = failed

  -- `truncate_pattern` and `extend_pattern`; the difference is the `size_t` that `memset` takes.
  unfoldable pub truncate_pattern : ℕ → ℕ → State k → Result (State k)
  truncate_pattern old_size new_size s =
      succeeds (clear new_size (sub64 old_size new_size) s.pattern) s.drawn
        (ftruncate new_size s.disk)

  unfoldable pub extend_pattern : ℕ → ℕ → State k → Result (State k)
  extend_pattern old_size new_size s =
      succeeds (clear old_size (sub64 new_size old_size) s.pattern) s.drawn
        (ftruncate new_size s.disk)

  -- What `try_reserve` and `try_punch_hole` come to: 0 is `true`, `ENOTTY` is `false`.
  unfoldable pub replied : (ℕ → ℕ) → ℕ → Reply × Disk → Result (Bool × State k)
  replied pattern drawn (done, d) = ok (true, record { pattern = pattern; disk = d; drawn = drawn })
  replied pattern drawn (enotty, d) =
      ok (false, record { pattern = pattern; disk = d; drawn = drawn })
  replied pattern drawn (errno, d) = failed

  unfoldable pub try_reserve : ℕ → ℕ → State k → Result (Bool × State k)
  try_reserve offset count s = replied s.pattern s.drawn (ioctl resvsp offset count s.disk)

  unfoldable pub try_punch_hole : ℕ → ℕ → State k → Result (Bool × State k)
  try_punch_hole offset count s =
      replied (clear offset count s.pattern) s.drawn (ioctl unresvsp offset count s.disk)

  -- `write_at` of `count` bytes of the pattern from `offset` on, to the same place of the file.
  unfoldable pub wrote_all : (ℕ → ℕ) → ℕ → ℕ → Written × Disk → Result (State k)
  wrote_all pattern drawn count (error, d) = failed
  wrote_all pattern drawn count (wrote n, d) =
      if n == count then ok (record { pattern = pattern; disk = d; drawn = drawn }) else failed

  unfoldable pub write_at : ℕ → ℕ → State k → Result (State k)
  write_at count offset s =
      wrote_all s.pattern s.drawn count (pwrite (slice s.pattern offset count) offset s.disk)

  -- `mmap_write_at` of the pattern.
  unfoldable pub mmap_write_at : ℕ → ℕ → State k → Result (State k)
  mmap_write_at count offset s =
      mapping_size (suc (count + offset)) page_size (count + offset) page_size >>= λ mmap_size.
      (if mmap mmap_size s.disk
        then ok (record {
          pattern = s.pattern;
          disk = mmap_set (slice s.pattern 0 count) offset s.disk;
          drawn = s.drawn;
        })
        else failed)

  -- `prep_file_no_fill` and `prep_file`
  unfoldable pub prep_file_no_fill : ℕ → Bool → State k → Result (State k)
  prep_file_no_fill size open_direct s =
      let count = if open_direct then blocksize else size in
      succeeds s.pattern s.drawn (create open_direct s.disk) >>= λ s1. write_at count 0 s1 >>= λ s2.
      (if ltb size count then succeeds s2.pattern s2.drawn (ftruncate size s2.disk) else ok s2)

  unfoldable pub prep_file : (ℕ → ℕ) → ℕ → State k → Result (State k)
  prep_file stream size s = prep_file_no_fill size false (fill_pattern stream size s)

  -- `__verify_pattern_fd`; `ret` must be `size`, so that nothing older is left of `read_buf`.
  unfoldable pub verify_read : ℕ → State k → Read → Result (State k)
  verify_read size s error = failed
  verify_read size s (bytes bs) =
      if not (length bs == size)
      then failed
      else if verify_pattern size 0 (λ i. get_or bs i 0) s.pattern
      then ok s
      else failed

  unfoldable pub verify_pattern_fd : Bool → ℕ → State k → Result (State k)
  verify_pattern_fd direct_read size s =
      verify_read size s (pread (if direct_read then blocksize else size) 0 s.disk)

  -- `verify_pattern_mmap`: the result of `verify_pattern` is not used.
  unfoldable pub verify_pattern_mmap : ℕ → State k → Result (State k)
  verify_pattern_mmap size s = mapping_size (suc size) page_size size page_size >>= λ mmap_size.
      (if mmap mmap_size s.disk
        then (let ret = verify_pattern size 0 (mapped s.disk) s.pattern in ok s)
        else failed)

  -- `is_file_inlined`: an error, or whether the flag of inline data is set, with the file after
  -- `sync`.
  unfoldable pub is_file_inlined : State k → Result (Bool × State k)
  is_file_inlined s =
      let d = sync s.disk in
      elim (lookup root_blkno work_place d) [
        | none ↦ failed
        | some workplace_blk_no ↦ elim (lookup workplace_blk_no dirent d) [
          | none ↦ failed
          | some testfile_blk_no ↦ elim (read_inode testfile_blk_no d) [
            | none ↦ failed
            | some inline_data_fl ↦
                ok (inline_data_fl, record { pattern = s.pattern; disk = d; drawn = s.drawn })
          ]
        ]
      ]

  -- `should_inlined_or_not`
  unfoldable pub should_inlined_or_not : Bool → Bool → State k → Result (State k)
  should_inlined_or_not is_inlined should_inlined s =
      if should_inlined
      then (if not is_inlined then failed else ok s)
      else (if is_inlined then failed else ok s)
