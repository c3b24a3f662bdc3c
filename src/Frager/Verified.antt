-- ===== src/Frager/Verified.antt =====
-- frager.c and then verify_file.c: what the check of the file that was written comes to.
use ocfs2_test.Kernel.{Kernel}
