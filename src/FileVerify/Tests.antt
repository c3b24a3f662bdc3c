-- ===== src/FileVerify/Tests.antt =====
-- A disk that moves seven bytes at a time, and the theorems about file_verify.c at concrete inputs.
use ocfs2_test.Common.{
  ℕ, ◌-◌, ◌^◌, ◌≡◌, ◌↔◌, refl, true, [], ◌∷◌, length, min, take, out_of_fuel, arith, replicate,
}
use ocfs2_test.FileVerify.SlowDisk
use ocfs2_test.FileVerify.SlowDisk.{zeroes}
use ocfs2_test.Kernel.{Kernel, bytes, wrote, slice, splice}
use ocfs2_test.FileVerify.{WriteRecord}
use ocfs2_test.FileVerify.Pattern.{fill_chunk_pattern, dump_pattern, verify_logged}
use ocfs2_test.FileVerify.Pattern.Layout.{IsSound}
use ocfs2_test.FileVerify.Pattern.Laws.{verify_logged_iff, verify_logged_blind}
use ocfs2_test.FileVerify.Crc.{crc32_checksum, crc_words, crc_bytes, crc_word, do_crc}
use ocfs2_test.FileVerify.Crc.Laws.{crc32_checksum_lem}
use ocfs2_test.FileVerify.Table.{crc32table_le}
use ocfs2_test.FileVerify.Transfer.{read_at}
use ocfs2_test.FileVerify.Transfer.Laws.{Moves, read_at_stuck}

-- The check value of CRC-32 for "123456789", which is the complement of this.
crc_check :
    crc32_checksum 0 (2 ^ 32 - 1) (49 ∷ 50 ∷ 51 ∷ 52 ∷ 53 ∷ 54 ∷ 55 ∷ 56 ∷ 57 ∷ []) ≡ 0x340BC6D9
unfolding crc32_checksum crc_words crc_bytes crc_word do_crc crc32table_le
crc_check = refl

abbrev slow : ℕ → Kernel
slow size = record {
  Disk = ℕ → ℕ;
  pwrite = λ buf off d. (wrote (min 7 (length buf)), splice d off (take (min 7 (length buf)) buf));
  pread = λ count off d. bytes (slice d off (min (min 7 count) (size - off)));
  mmap_set = λ buf off d. splice d off buf;
  io_setup = λ n d. (true, d);
  io_submit = λ cb d. (true, d);
  io_destroy = λ d. (true, d);
  io_getevents = λ lo hi d. (wrote hi, d);
  resvsp = λ off len d. (true, d);
  unresvsp = λ off len d. (true, d);
  ftruncate = λ n d. (true, d);
  fsync = λ d. d;
}

slow-Moves : (size : ℕ) → Moves (slow size) (λ d. d) size
unfolding slice
slow-Moves size = record {
  pread_some = λ count off d pos inside.
      (let e : min (min 7 count) (size - off) ≡ min 7 count = omega arith in
        (min 7 count, omega arith, omega arith, rw e refl));
  pread_past =
      λ count off d past. (let e : min (min 7 count) (size - off) ≡ 0 = omega arith in rw e refl);
  pwrite_some = λ buf off d pos. (
    min 7 (length buf),
    splice d off (take (min 7 (length buf)) buf),
    omega arith,
    omega arith,
    refl,
    λ p. refl,
  );
}

abbrev third : WriteRecord
third = record { chunk_no = 2; timestamp = 77; chunksize = 48; checksum = 0; char = b'Q' }

third-IsSound : IsSound third
third-IsSound = record {
  room = omega arith;
  size_fits = omega arith;
  no_fits = omega arith;
  time_fits = omega arith;
}

abbrev lone : WriteRecord
lone = record { chunk_no = 0; timestamp = 77; chunksize = 48; checksum = 0; char = b'Q' }

-- A chunk of the number 7.
abbrev sevens : ℕ → ℕ
sevens p = 7

verify_logged_iff_example : (verify_logged 0 zeroes sevens sevens third ≡ true) ↔ (
    ((dump_pattern sevens 48).chunk_no ≡ 2)
    × ((dump_pattern sevens 48).timestamp ≡ 77)
    × ((dump_pattern sevens 48).char ≡ b'Q'))
verify_logged_iff_example =
    verify_logged_iff 0 zeroes sevens sevens third third-IsSound (λ i. omega arith)

verify_logged_blind_example :
    verify_logged 0 zeroes zeroes sevens third
    ≡ verify_logged 0 zeroes zeroes (splice sevens 21 (replicate 11 b'x')) third
verify_logged_blind_example =
    verify_logged_blind 0 zeroes zeroes sevens (splice sevens 21 (replicate 11 b'x')) third
      third-IsSound refl (λ i a b. ground arith)

read_at_stuck_example : read_at (slow 100) 1000 20 101 100 sevens ≡ out_of_fuel
read_at_stuck_example =
    read_at_stuck (slow 100) (λ d. d) 100 (slow-Moves 100) 1000 20 101 sevens (omega arith)
      (omega arith)

crc32_checksum_lem_example :
    crc32_checksum 1 (2 ^ 32 - 1) (200 ∷ 1 ∷ 2 ∷ 3 ∷ 255 ∷ 7 ∷ [])
    ≡ crc_bytes (2 ^ 32 - 1) (200 ∷ 1 ∷ 2 ∷ 3 ∷ 255 ∷ 7 ∷ [])
crc32_checksum_lem_example =
    crc32_checksum_lem 1 (2 ^ 32 - 1) (200 ∷ 1 ∷ 2 ∷ 3 ∷ 255 ∷ 7 ∷ [])
      (omega arith, (omega arith, (omega arith, (omega arith, (omega arith, (omega arith, tt))))))

-- A file of one chunk.
abbrev one_chunk : ℕ → ℕ
one_chunk = (fill_chunk_pattern 0 sevens lone).0
