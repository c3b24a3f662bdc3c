-- ===== src/FileVerify/Transfer/Chunk.antt =====
-- `do_write_chunk` and then `do_read_chunk` of file_verify.c.
use ocfs2_test.Kernel.{Kernel}
