-- ===== src/FileVerify/Prepare.antt =====
-- programs/libocfs2test/file_verify.c: the write units that the tests draw, the file that they start
-- from, and the log.
use ocfs2_test.Common.{
  ℕ, zero, suc, ◌+◌, ◌*◌, ◌%◌, ◌^◌, ◌&&◌, List, [], ◌∷◌, ◌++◌, Option, none, some, ltb, ◌==◌,
  if◌then◌else◌, add64, sub64, to_u32, Result, ok, failed, aborted, out_of_fuel,
}
use ocfs2_test.Kernel.{Kernel}
use ocfs2_test.FileVerify.{WriteRecord}
use ocfs2_test.FileVerify.Pattern.{fill_chunk_pattern}
use ocfs2_test.FileVerify.Transfer.{do_write_chunk}

-- `get_rand_ul`: the value, for the `r`-th call of `rand()`.
unfoldable pub get_rand_ul : (ℕ → ℕ) → ℕ → ℕ → ℕ → ℕ
get_rand_ul stream r lo hi =
    if lo == 0 && hi == 0 then 0 else add64 lo (stream r % add64 (sub64 hi lo) 1)

unfoldable pub rand_char : (ℕ → ℕ) → ℕ → ℕ
rand_char stream r = b'A' + get_rand_ul stream r 0 25

-- `get_time_microseconds`, where `clock t` is what the `t`-th `gettimeofday` gives: seconds and
-- microseconds.
unfoldable pub get_time_microseconds : (ℕ → ℕ × ℕ) → ℕ → ℕ
get_time_microseconds clock t = add64 ((clock t).0 * 1000000 % 2 ^ 64) (clock t).1

-- `prep_rand_dest_write_unit`: `*wu`. It calls `rand()` once and `gettimeofday` once.
unfoldable pub prep_rand_dest_write_unit :
    (ℕ → ℕ) → (ℕ → ℕ × ℕ) → ℕ → (ℕ → ℕ) → ℕ → ℕ → ℕ → ℕ → WriteRecord
prep_rand_dest_write_unit stream clock align tmp r t chunk_no chunksize =
    (fill_chunk_pattern align tmp (record {
      chunk_no = chunk_no;
      timestamp = get_time_microseconds clock t;
      chunksize = to_u32 chunksize;
      checksum = 0;
      char = rand_char stream r;
    })).1

-- `log_write`: a line at the end of the log.
unfoldable pub log_write : WriteRecord → List WriteRecord → List WriteRecord
log_write wu log = log ++ (wu ∷ [])

-- The loop of `prep_orig_file_in_chunks`, at `offset`; each round takes one unit of fuel. A write that
-- fails ends it, and it returns 0 all the same: `none`.
module _ (k : Kernel) (f align : ℕ) (tmp stream : ℕ → ℕ) (clock : ℕ → ℕ × ℕ) where
  unfoldable pub prep_chunks : ℕ → ℕ → ℕ → ℕ → ℕ → ℕ → ℕ → k.Disk → Result (Option k.Disk)
  prep_chunks zero filesize chunksize offset chunk_no r t d = out_of_fuel
  prep_chunks (suc g) filesize chunksize offset chunk_no r t d =
      let wu = prep_rand_dest_write_unit stream clock align tmp r t chunk_no chunksize in
      let rest : k.Disk → Result (Option k.Disk) = λ d'.
        prep_chunks g filesize chunksize (add64 offset chunksize) (suc chunk_no) (suc r) (suc t)
          d' in
      if ltb offset filesize
      then elim (do_write_chunk k f align tmp wu d) [
        | ok d' ↦ rest d'
        | failed ↦ ok none
        | aborted ↦ aborted
        | out_of_fuel ↦ out_of_fuel
      ]
      else ok (some d)

  -- `prep_orig_file_in_chunks` of an open file.
  unfoldable pub prep_orig_file_in_chunks : ℕ → ℕ → ℕ → ℕ → ℕ → k.Disk → Result (Option k.Disk)
  prep_orig_file_in_chunks g filesize chunksize r t d = prep_chunks g filesize chunksize 0 0 r t d
