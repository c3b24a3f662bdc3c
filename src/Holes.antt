-- ===== src/Holes.antt =====
-- programs/fill_verify_holes: the write unit that fill_holes, punch_holes and verify_holes share
-- (fill_holes.h), and the modules for the three programs.
pub mod Tree
pub mod Extent
pub mod Verify
pub mod Replay
pub mod Check
pub mod Draw
pub mod Fill
pub mod Punch
mod Models
mod Tests
pub use ocfs2_test.Common.{add64, sub64, to_u32}
use ocfs2_test.Common.{ℕ, ◌-◌, ◌+◌, ◌^◌, ◌*◌, ◌%◌}

-- `MAX_WRITE_SIZE`
abbrev pub max_write_size : ℕ
max_write_size = 32768

-- `RAND_CHAR_START`
abbrev pub rand_char_start : ℕ
rand_char_start = b'A'

-- `MAGIC_HOLE_CHAR`
abbrev pub magic_hole_char : ℕ
magic_hole_char = rand_char_start - 1

-- `struct fh_write_unit`: a `char`, a `uint64_t` and a `uint32_t`.
pub record WriteUnit : Type 0 where
  pub char : ℕ
  pub offset : ℕ
  pub len : ℕ
