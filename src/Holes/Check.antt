-- ===== src/Holes/Check.antt =====
-- programs/fill_verify_holes/verify_holes.c: the file is compared with the extents.
pub mod Laws
pub mod Run
pub mod Accept
use ocfs2_test.Common.{
  ℕ, zero, suc, ◌+◌, ◌-◌, ◌≡◌, Bool, true, false, ◌&&◌, not, List, [], ◌∷◌, ltb, ◌==◌,
  if◌then◌else◌, length, min, Result, ok, failed, ◌>>=◌,
}
unfoldable pub use ocfs2_test.Kernel.{slice}
pub use ocfs2_test.Kernel.{Reads}
use ocfs2_test.Kernel.{Read, error, bytes}
use ocfs2_test.Holes.{WriteUnit, max_write_size, add64}
use ocfs2_test.Holes.Tree.{inorder, RbTree}
use ocfs2_test.Holes.Verify.{State}
use ocfs2_test.Holes.Replay.{Scan, init_tree, read_log}

-- What `vh_check_chunk` returns: 0, or the reason for another value.
pub data Verdict : Type 0 where
  good read_error premature_end short_read mismatch stuck : Verdict

-- `for (i = 0; i < count; i++) if (buf[i] != wu->w_char) …`
unfoldable pub all_chars : ℕ → List ℕ → Bool
all_chars c [] = true
all_chars c (b ∷ bs) = b == c && all_chars c bs

-- `pread(fd, buf, count, off)` of the test file is a parameter.
module _ (pread : ℕ → ℕ → Read) where
  -- The `while (len)` loop of `vh_check_chunk`.
  unfoldable pub check_from : ℕ → ℕ → ℕ → ℕ → Verdict
  check_from zero char off len = stuck
  check_from (suc f) char off len =
      let count = if ltb max_write_size len then max_write_size else len in
      let next = check_from f char (add64 off count) (len - count) in
      if len == 0 then good else (elim (pread count off) [
        | error ↦ read_error
        | bytes bs ↦
            if length bs == 0
            then premature_end
            else if not (length bs == count)
            then short_read
            else if all_chars char bs
            then next
            else mismatch
      ])

  -- `vh_check_chunk`; every round takes a byte at least.
  unfoldable pub check_chunk : WriteUnit → Verdict
  check_chunk w = check_from (w.len + 1) w.char w.offset w.len

  -- `vh_check_file`, over the nodes in the order of `rb_first` and `rb_next`.
  unfoldable pub check_file : List WriteUnit → Result (Unit {0})
  check_file [] = ok tt
  check_file (x ∷ xs) = elim (check_chunk x) [ good ↦ check_file xs | _ ↦ failed ]

  -- `main` after the options: `size` is what `vh_get_i_size` gave, `log` the lines of the log.
  unfoldable pub run : RbTree → ℕ → List Scan → Result (Unit {0})
  run rb size log =
      init_tree rb size >>= λ s. read_log rb s log >>= λ s'. check_file (inorder s'.chunk_root)
