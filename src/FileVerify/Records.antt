-- ===== src/FileVerify/Records.antt =====
-- programs/libocfs2test/file_verify.c: `verify_file` reads the log of the writes and compares the
-- file with it, chunk by chunk.
pub mod Laws
use ocfs2_test.Common.{
  ℕ, zero, suc, ◌+◌, ◌*◌, List, [], ◌∷◌, Option, none, some, leb, ltb, ◌==◌, if◌then◌else◌,
  get_elem?, set, Result, ok, failed, aborted, ◌>>=◌,
}
use ocfs2_test.Kernel.{Kernel}
use ocfs2_test.FileVerify.{WriteRecord}
use ocfs2_test.FileVerify.Pattern.{fill_chunk_pattern, verify_chunk_pattern, verify_unlogged}
use ocfs2_test.FileVerify.Transfer.{do_read_chunk}

-- What one `fscanf` of the log gives: the four columns, or fewer.
pub data Line : Type 0 where
  columns : WriteRecord → Line
  bad : Line

-- `memset(wus, 0, t_bytes)` and the loop that numbers the records, from `i` on.
unfoldable pub blank_records : ℕ → ℕ → ℕ → List WriteRecord
blank_records chunksize i zero = []
blank_records chunksize i (suc n) =
    record { chunk_no = i; timestamp = 0; chunksize = chunksize; checksum = 0; char = 0 }
    ∷ blank_records chunksize (suc i) n

-- `wu.wu_chunksize = chunksize`: the line of the log has no chunk size.
abbrev pub with_chunksize : ℕ → WriteRecord → WriteRecord
with_chunksize chunksize wu = record wu { chunksize = chunksize }

-- One round of the loop over the log. `wus` has `num_chunks` records; where the index is out of the
-- array the C program touches memory behind it, and the model stops.
unfoldable pub read_record : ℕ → ℕ → List WriteRecord → WriteRecord → Result (List WriteRecord)
read_record chunksize num_chunks wus wu =
    if ltb num_chunks wu.chunk_no then failed else (elim (get_elem? wus wu.chunk_no) [
      | none ↦ aborted
      | some old ↦ ok (
          if leb old.timestamp wu.timestamp
          then set wus wu.chunk_no (with_chunksize chunksize wu)
          else wus)
    ])

-- `while (!feof(logfile))`
unfoldable pub read_records : ℕ → ℕ → List WriteRecord → List Line → Result (List WriteRecord)
read_records chunksize num_chunks wus [] = ok wus
read_records chunksize num_chunks wus (bad ∷ rest) = failed
read_records chunksize num_chunks wus (columns wu ∷ rest) =
    read_record chunksize num_chunks wus wu >>= λ wus'. read_records chunksize num_chunks wus' rest

module _ (k : Kernel) where
  -- The loop from `verify_body` on, with the records from the `i`-th on. `f` bounds the `pread`s for
  -- one chunk; `tmp` and `tmp'` are what `malloc` gave.
  unfoldable pub verify_body :
      ℕ → ℕ → (ℕ → ℕ) → (ℕ → ℕ) → ℕ → ℕ → k.Disk → ℕ → List WriteRecord → Result (Unit {0})
  verify_body f align tmp tmp' chunksize i_size d i [] = ok tt
  verify_body f align tmp tmp' chunksize i_size d i (expected ∷ wus) =
      let rest = verify_body f align tmp tmp' chunksize i_size d (suc i) wus in
      if leb i_size (i * chunksize)
      then ok tt
      else (do_read_chunk k f tmp i chunksize i_size d >>= λ (ret, wu).
          (if expected.timestamp == 0
            then (if verify_unlogged align tmp wu i then rest else failed)
            else if ltb ret chunksize
            then failed
            else if verify_chunk_pattern align tmp' (fill_chunk_pattern align tmp wu).0 expected
            then rest
            else failed))
