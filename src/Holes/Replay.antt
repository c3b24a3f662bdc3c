-- ===== src/Holes/Replay.antt =====
-- programs/fill_verify_holes/verify_holes.c: the tree at the start, and the reading of the log.
pub mod Laws
use ocfs2_test.Common.{
  ℕ, Option, some, List, [], ◌∷◌, ◌==◌, if◌then◌else◌, Result, ok, failed, ◌>>=◌,
}
use ocfs2_test.Holes.{WriteUnit, magic_hole_char, to_u32}
use ocfs2_test.Holes.Extent.{covers}
use ocfs2_test.Holes.Tree.{Tree, empty, RbTree}
use ocfs2_test.Holes.Verify.{State, insert_chunk}

-- What one `fscanf` of a log line gives: the three fields, or fewer. The end of the list is `EOF`.
pub data Scan : Type 0 where
  fields : WriteUnit → Scan
  malformed : Scan

-- `chunk_root = RB_ROOT` and `recurse_level = 0`
abbrev pub blank : State
blank = record { chunk_root = empty; recurse_level = 0 }

-- `if (wu->w_char == MAGIC_HOLE_CHAR) wu->w_char = '\0';`
unfoldable pub clear_hole : WriteUnit → WriteUnit
clear_hole w = if w.char == magic_hole_char then record w { char = 0 } else w

module _ (rb : RbTree) where
  -- `vh_init_tree`: `w_len` is 32 bits wide.
  unfoldable pub init_tree : ℕ → Result State
  init_tree file_size =
      insert_chunk rb blank (record { char = 0; offset = 0; len = to_u32 file_size })

  -- `vh_read_log`
  unfoldable pub read_log : State → List Scan → Result State
  read_log s [] = ok s
  read_log s (malformed ∷ rest) = failed
  read_log s (fields w ∷ rest) = insert_chunk rb s (clear_hole w) >>= λ s'. read_log s' rest

-- The writes of a log in order, each over what was there before.
unfoldable pub overlay : List WriteUnit → ℕ → Option ℕ → Option ℕ
overlay [] p d = d
overlay (w ∷ ws) p d = overlay ws p (if covers w p then some (clear_hole w).char else d)
