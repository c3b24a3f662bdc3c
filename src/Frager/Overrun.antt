-- ===== src/Frager/Overrun.antt =====
-- frager.c and then verify_file.c, for a file size that is not a multiple of the chunk size.
use ocfs2_test.Kernel.{Kernel}
