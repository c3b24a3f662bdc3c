-- ===== src/FileVerify/Verify.antt =====
-- programs/libocfs2test/file_verify.c: `verify_file` as a whole.
pub mod Held
pub mod Laws
pub mod Log
use ocfs2_test.Common.{ℕ, ◌/◌, List, [], ◌∷◌, map, Result, ◌>>=◌}
use ocfs2_test.Kernel.{Kernel}
use ocfs2_test.FileVerify.{WriteRecord}
use ocfs2_test.FileVerify.Records.{Line, columns, bad, blank_records, read_records, verify_body}

-- `is_remote`: the records come from a log file, or from other nodes, as many as the file has chunks.
pub data Source : Type 0 where
  logfile : List Line → Source
  remote_wus : List WriteRecord → Source

-- What the `fscanf`s find in a file with the lines of `log_write` for these records: `feof` is false
-- before the first one, so an empty file too is read.
unfoldable pub lines_of : List WriteRecord → List Line
lines_of [] = bad ∷ []
lines_of (wu ∷ wus) = map columns (wu ∷ wus)

module _ (k : Kernel) where
  -- `verify_file`, of a file whose size is `i_size` throughout.
  unfoldable pub verify_file :
      ℕ → ℕ → (ℕ → ℕ) → (ℕ → ℕ) → Source → ℕ → ℕ → ℕ → k.Disk → Result (Unit {0})
  verify_file f align tmp tmp' (logfile lines) filesize chunksize i_size d =
      let num_chunks = filesize / chunksize in
      read_records chunksize num_chunks (blank_records chunksize 0 num_chunks) lines >>= λ wus.
      verify_body k f align tmp tmp' chunksize i_size d 0 wus
  verify_file f align tmp tmp' (remote_wus wus) filesize chunksize i_size d =
      verify_body k f align tmp tmp' chunksize i_size d 0 wus
