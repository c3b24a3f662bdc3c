-- ===== src/FileVerify.antt =====
-- programs/libocfs2test/file_verify.c: files in chunks, each with a checked pattern, the log of the
-- chunks that were written, and the comparison of the file with the log.
pub mod Table
pub mod Bytes
pub mod Xor
pub mod Crc
pub mod Pattern
pub mod Transfer
pub mod Records
pub mod Prepare
pub mod Store
pub mod Places
pub mod Units
pub mod Prepared
pub mod Rewrites
pub mod SlowDisk
pub mod Verify
mod Tests
use ocfs2_test.Common.{ℕ}

-- `struct write_unit`: an `unsigned long`, an `unsigned long long`, an `unsigned int`, a `uint32_t`
-- and a `char`.
pub record WriteRecord : Type 0 where
  pub chunk_no : ℕ
  pub timestamp : ℕ
  pub chunksize : ℕ
  pub checksum : ℕ
  pub char : ℕ
