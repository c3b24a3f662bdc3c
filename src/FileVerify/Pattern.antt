-- ===== src/FileVerify/Pattern.antt =====
-- programs/libocfs2test/file_verify.c: the pattern of one chunk. Memory is a function from addresses
-- to bytes, and `pattern` is at 0.
pub mod Layout
pub mod Laws
use ocfs2_test.Common.{same_bytes}
use ocfs2_test.Common.{
  ℕ, suc, ◌+◌, ◌-◌, ◌*◌, ◌%◌, ◌^◌, Bool, true, false, ◌&&◌, ◌||◌, List, [], ◌∷◌, ◌==◌, get_or,
  replicate,
}
use ocfs2_test.Kernel.{slice, splice}
use ocfs2_test.FileVerify.{WriteRecord}
use ocfs2_test.FileVerify.Bytes.{to_le, of_le}
use ocfs2_test.FileVerify.Crc.{crc32_checksum}

-- `chunksize - offset * 2` for the offset 20, an `unsigned long`.
abbrev pub body_size : WriteRecord → ℕ
body_size wu = (wu.chunksize + 2 ^ 64 - 40) % 2 ^ 64

-- The memory after the `memset` of the characters: the number and the time are in front of them.
unfoldable pub filled : (ℕ → ℕ) → WriteRecord → ℕ → ℕ
filled pattern wu =
    let p0 = splice pattern 0 (replicate wu.chunksize 0) in
    let p1 = splice p0 0 (to_le 8 wu.chunk_no) in
    let p2 = splice p1 8 (to_le 8 wu.timestamp) in splice p2 20 (replicate (body_size wu) wu.char)

-- The `checksum` of `fill_chunk_pattern`; `pattern + 20` is `align` bytes before a multiple of 4.
unfoldable pub checksum_of : ℕ → (ℕ → ℕ) → WriteRecord → ℕ
checksum_of align pattern wu =
    crc32_checksum align (2 ^ 32 - 1) (slice (filled pattern wu) 20 (body_size wu)) % 2 ^ 32

-- `fill_chunk_pattern`: the memory, and `*wu`.
unfoldable pub fill_chunk_pattern : ℕ → (ℕ → ℕ) → WriteRecord → (ℕ → ℕ) × WriteRecord
fill_chunk_pattern align pattern wu =
    let checksum = checksum_of align pattern wu in
    let offset = (wu.chunksize + 2 ^ 64 - 20) % 2 ^ 64 in
    let p4 = splice (filled pattern wu) offset (to_le 4 checksum) in
    let p5 = splice p4 (offset + 4) (to_le 8 wu.timestamp) in
    let p6 = splice p5 (offset + 4 + 8) (to_le 8 wu.chunk_no) in
    (splice p6 16 (to_le 4 checksum), record wu { checksum = checksum })

-- `dump_pattern`: the number, the time and the checksum are read at both ends, and those at the back
-- stay.
unfoldable pub dump_pattern : (ℕ → ℕ) → ℕ → WriteRecord
dump_pattern pattern chunksize =
    let offset = (chunksize + 2 ^ 64 - 20) % 2 ^ 64 in
    record {
      chunksize = chunksize;
      checksum = of_le (slice pattern offset 4);
      timestamp = of_le (slice pattern (offset + 4) 8);
      chunk_no = of_le (slice pattern (offset + 4 + 8) 8);
      char = pattern 20;
    }

-- `verify_chunk_pattern`, with what `malloc` gave in `tmp`.
unfoldable pub verify_chunk_pattern : ℕ → (ℕ → ℕ) → (ℕ → ℕ) → WriteRecord → Bool
verify_chunk_pattern align tmp pattern wu =
    same_bytes (slice pattern 0 wu.chunksize)
      (slice (fill_chunk_pattern align tmp wu).0 0 wu.chunksize)

-- In `verify_file`: a chunk that the log has, and one that it has not.
unfoldable pub verify_logged : ℕ → (ℕ → ℕ) → (ℕ → ℕ) → (ℕ → ℕ) → WriteRecord → Bool
verify_logged align tmp tmp' chunk expected =
    let wu = dump_pattern chunk expected.chunksize in
    verify_chunk_pattern align tmp' (fill_chunk_pattern align tmp wu).0 expected

unfoldable pub verify_unlogged : ℕ → (ℕ → ℕ) → WriteRecord → ℕ → Bool
verify_unlogged align tmp wu i =
    let ewu = (fill_chunk_pattern align tmp wu).1 in
    wu.timestamp == 0 || (wu.chunk_no == i && wu.checksum == ewu.checksum)
