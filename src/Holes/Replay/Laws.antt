-- ===== src/Holes/Replay/Laws.antt =====
-- The tree that `vh_init_tree` and `vh_read_log` build, byte by byte.
use ocfs2_test.Common.{
  ℕ, ◌<◌, ◌≡◌, refl, ◌∙◌, none, some, List, [], ◌∷◌, map, ltb, if◌then◌else◌, ok, All, arith,
}
use ocfs2_test.Holes.{WriteUnit, to_u32}
use ocfs2_test.Holes.Extent.{covers, byte_at, IsExtent, IsSorted}
use ocfs2_test.Holes.Tree.{inorder, RbTree}
use ocfs2_test.Holes.Verify.{State}
use ocfs2_test.Holes.Verify.Insert.{insert_chunk_lem}
use ocfs2_test.Holes.Replay.{fields, blank, clear_hole, init_tree, read_log, overlay}

clear_hole-IsExtent : (w : WriteUnit) → IsExtent w → IsExtent (clear_hole w)
unfolding clear_hole
clear_hole-IsExtent w v = ground arith

covers-clear_hole : (w : WriteUnit) (p : ℕ) → covers (clear_hole w) p ≡ covers w p
unfolding clear_hole
covers-clear_hole w p = ground arith

-- A state between two calls of `vh_insert_chunk`.
pub record IsReady (s : State) : Type 0 where
  pub level : s.recurse_level ≡ 0
  pub sorted : IsSorted (inorder s.chunk_root)

module _ (rb : RbTree) where
  -- `vh_init_tree` covers with zeroes as many bytes as the low 32 bits of the size say.
  pub init_tree_lem :
      (size : ℕ)
      → 0 < to_u32 size
      → (s : State) × (init_tree rb size ≡ ok s)
        × IsReady s
        × ((p : ℕ)
            → byte_at (inorder s.chunk_root) p ≡ (if ltb p (to_u32 size) then some 0 else none))
  unfolding init_tree byte_at
  init_tree_lem size pos =
      let whole : WriteUnit = record { char = 0; offset = 0; len = to_u32 size } in
      let (s, e, i) = insert_chunk_lem rb blank whole (omega arith) tt refl in
      (s, e, record { level = i.level; sorted = i.sorted }, λ p. i.bytes p ∙ ground arith)

  -- After `vh_read_log` each byte is that of the last write that covers it, and a byte that no write
  -- covers is as before. A hole that was punched counts as zeroes.
  pub read_log_lem :
      (ws : List WriteUnit) (s : State)
      → All IsExtent ws
      → IsReady s
      → (s' : State) × (read_log rb s (map fields ws) ≡ ok s')
        × IsReady s'
        × ((p : ℕ)
            → byte_at (inorder s'.chunk_root) p ≡ overlay ws p (byte_at (inorder s.chunk_root) p))
  unfolding read_log overlay
  read_log_lem [] s v r = (s, refl, r, λ p. refl)
  read_log_lem (w ∷ ws) s v r =
      let (s1, e1, i) =
        insert_chunk_lem rb s (clear_hole w) (clear_hole-IsExtent w v.0) r.sorted r.level in
      let (s2, e2, r2, bytes) =
        read_log_lem ws s1 v.1 (record { level = i.level; sorted = i.sorted }) in
      (s2, rw e1 e2, r2, λ p. rw (bytes p, i.bytes p, covers-clear_hole w p) refl)
