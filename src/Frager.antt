-- ===== src/Frager.antt =====
-- programs/defrag-test/frager.c: a file is written chunk by chunk, in order or in a random order, and
-- each write is logged for programs/defrag-test/verify_file.c.
pub mod Order
pub mod Units
pub mod Places
pub mod Run
pub mod Checked
pub mod Verified
pub mod Overrun
mod Tests
use ocfs2_test.Common.{ℕ, suc, ◌/◌, Bool, List, [], ◌∷◌, add64, sub64, Result, ok, ◌>>=◌}
use ocfs2_test.Kernel.{Kernel}
use ocfs2_test.FileVerify.{WriteRecord}
use ocfs2_test.FileVerify.Prepare.{prep_rand_dest_write_unit, log_write}
use ocfs2_test.FileVerify.Transfer.{do_write_chunk}
use ocfs2_test.Frager.Order.{write_order}

unfoldable pub num_chunks_of : ℕ → ℕ → ℕ
num_chunks_of file_size chunk_size = sub64 (add64 file_size chunk_size) 1 / chunk_size

module _ (k : Kernel) (f align : ℕ) (tmp stream : ℕ → ℕ) (clock : ℕ → ℕ × ℕ) where
  -- The loop of `append_write_file` over `write_order_map`: the file and the log after it.
  unfoldable pub write_chunks :
      ℕ → List ℕ → ℕ → ℕ → k.Disk → List WriteRecord → Result (k.Disk × List WriteRecord)
  write_chunks chunk_size [] r t d log = ok (d, log)
  write_chunks chunk_size (chunk_no ∷ order) r t d log =
      let wu = prep_rand_dest_write_unit stream clock align tmp r t chunk_no chunk_size in
      do_write_chunk k f align tmp wu d >>= λ d'.
      write_chunks chunk_size order (suc r) (suc t) d' (log_write wu log)

  -- `append_write_file`, on a file that is open, with `draws` draws for each chunk in random mode. The
  -- log file is empty at first.
  unfoldable pub append_write_file :
      ℕ → Bool → ℕ → ℕ → ℕ → ℕ → k.Disk → Result (k.Disk × List WriteRecord)
  append_write_file draws is_random file_size chunk_size r t d =
      write_order stream draws is_random (num_chunks_of file_size chunk_size) r >>= λ (order, r').
      write_chunks chunk_size order r' t d []
