-- ===== src/Holes/Verify/Insert.antt =====
-- `vh_insert_chunk` as a whole, from the entry with `recurse_level` 0.
use ocfs2_test.Common.{
  ℕ, zero, suc, ◌+◌, ◌-◌, ◌≤◌, ◌≡◌, refl, ◌∙◌, true, some, ◌∷◌, ◌++◌, arith, if◌then◌else◌, ok,
  length,
}
use ocfs2_test.Holes.{WriteUnit, add64}
use ocfs2_test.Holes.Extent.{end_of, covers, byte_at, IsExtent, IsSorted}
use ocfs2_test.Holes.Extent.Laws.{IsSorted-middle, overlaps, overlap_count, overlap_count-le}
use ocfs2_test.Holes.Tree.{Tree, Context, root, inorder, before, after, RbTree}
use ocfs2_test.Holes.Verify.{
  Overlap, encompasses, splits, straddles_left, straddles_right, goes_left, goes_right, Stop, slot,
  hit, descend, State, cut_before, cut_after, restart, insert_chunk,
}
use ocfs2_test.Holes.Verify.Search.{Found, descend_lem}
use ocfs2_test.Holes.Verify.Place.{
  Placed, Placed-IsSorted, Placed-byte_at, overlap-IsHit, Bounds, overlap-Bounds,
}
use ocfs2_test.Holes.Verify.Part.{
  enter_first, cut_before-IsPart, cut_after-IsPart, cut_before_bounds, cut_after_bounds,
}
use ocfs2_test.Holes.Verify.Passes.{
  Stops, gone, restart-encompasses, restart-straddles_left, restart-straddles_right, restart-splits,
}
use ocfs2_test.Holes.Verify.Shrink.{Shrunk, gone-Shrunk, put_back, put_back_both}

-- `chunk` has overwritten the bytes that it covers, and no others.
pub record Inserted (chunk : WriteUnit) (s s' : State) : Type 0 where
  pub level : s'.recurse_level ≡ 0
  pub sorted : IsSorted (inorder s'.chunk_root)
  pub bytes :
      (p : ℕ)
      → byte_at (inorder s'.chunk_root) p
        ≡ (if covers chunk p then some chunk.char else byte_at (inorder s.chunk_root) p)

Shrunk-Inserted :
    (chunk : WriteUnit) (s s' s'' : State)
    → Shrunk chunk s s'
    → Inserted chunk s' s''
    → Inserted chunk s s''
Shrunk-Inserted chunk s s' s'' h i = record {
  level = i.level;
  sorted = i.sorted;
  bytes = λ p. ground (arith, i.bytes p, h.outside p);
}

module _ (rb : RbTree) where
  abbrev Completes : ℕ → State → WriteUnit → Type 0
  Completes f s chunk = (s' : State) × (restart rb f s chunk ≡ ok s') × Inserted chunk s s'

  go_on :
      (f : ℕ) (s s' : State) (chunk : WriteUnit)
      → restart rb (suc f) s chunk ≡ restart rb f s' chunk
      → Shrunk chunk s s'
      → Completes f s' chunk
      → Completes (suc f) s chunk
  go_on f s s' chunk e h (s'', e', i) = (s'', e ∙ e', Shrunk-Inserted chunk s s' s'' h i)

  -- One pass of the loop, given what the next one does.
  module _ (f : ℕ) (s : State) (chunk : WriteUnit) (v : IsExtent chunk)
      (sorted : IsSorted (inorder s.chunk_root)) (lev : s.recurse_level ≡ 1)
      (next : (s' : State) → Shrunk chunk s s' → Completes (suc f) s' chunk) where
    slot-Completes :
        (c : Context)
        → descend chunk.offset (add64 chunk.offset chunk.len) s.chunk_root root ≡ slot c
        → Found chunk.offset (end_of chunk) (inorder s.chunk_root) (slot c)
        → Completes (suc (suc f)) s chunk
    unfolding restart
    slot-Completes c e found = (
      record { chunk_root = rb.insert_color c chunk; recurse_level = s.recurse_level - 1 },
      rw (e, restart),
      record {
        level = omega arith;
        sorted = Placed-IsSorted at v sorted;
        bytes = Placed-byte_at at;
      },
    )
      where
        at : Placed chunk (inorder s.chunk_root) (inorder (rb.insert_color c chunk))
        at = record {
          left = before c;
          right = after c;
          whole = found.0;
          placed = rb.inorder-insert_color c chunk;
          left_before = found.1;
          right_after = found.2;
        }

    module _ (c : Context) (l : Tree) (x : WriteUnit) (r : Tree)
        (whole : (before c ++ inorder l) ++ (x ∷ (inorder r ++ after c))
          ≡ inorder s.chunk_root) where
      x-IsExtent : IsExtent x
      x-IsExtent =
          (IsSorted-middle (before c ++ inorder l) x (inorder r ++ after c) (rw whole sorted)).1

      abbrev Within : Overlap → Type 0
      Within o = Bounds o chunk.offset (end_of chunk) x.offset (end_of x)

      abbrev end : ℕ
      end = add64 chunk.offset chunk.len

      module _ (shares : overlaps chunk x ≡ true) where
        pass-encompasses :
            Within encompasses
            → Stops rb (suc f) s chunk c l x r encompasses
            → Completes (suc (suc f)) s chunk
        pass-encompasses b e =
            let h =
              gone-Shrunk rb s chunk c l x r sorted v whole shares (omega (arith, x-IsExtent)) b.0
                b.1 in
            go_on (suc f) s (gone rb (suc f) s chunk c l x r) chunk
              (restart-encompasses rb (suc f) s chunk c l x r e) h (next _ h)

        pass-straddles_left :
            Within straddles_left
            → Stops rb (suc f) s chunk c l x r straddles_left
            → Completes (suc (suc f)) s chunk
        pass-straddles_left b e =
            let at = cut_after_bounds end x x-IsExtent (omega arith) (omega arith) in
            let (s1, s2, e1, e2, h) =
              put_back rb s chunk c l x r sorted v whole shares f (cut_after end x) lev
                (cut_after-IsPart end x x-IsExtent (omega arith) (omega arith)) (ground arith)
                (λ p out. ground arith) in
            go_on (suc f) s s2 chunk
              (restart-straddles_left rb (suc f) s chunk c l x r s1 s2 e e1 e2) h (next s2 h)

        pass-straddles_right :
            Within straddles_right
            → Stops rb (suc f) s chunk c l x r straddles_right
            → Completes (suc (suc f)) s chunk
        pass-straddles_right b e =
            let off = chunk.offset in
            let at = cut_before_bounds off x x-IsExtent (omega arith) (omega arith) in
            let (s1, s2, e1, e2, h) =
              put_back rb s chunk c l x r sorted v whole shares f (cut_before off x) lev
                (cut_before-IsPart off x x-IsExtent (omega arith) (omega arith)) (ground arith)
                (λ p out. ground arith) in
            go_on (suc f) s s2 chunk
              (restart-straddles_right rb (suc f) s chunk c l x r s1 s2 e e1 e2) h (next s2 h)

        pass-splits :
            Within splits
            → Stops rb (suc f) s chunk c l x r splits
            → Completes (suc (suc f)) s chunk
        pass-splits b e =
            let off = chunk.offset in
            let at = cut_before_bounds off x x-IsExtent (omega arith) (omega arith) in
            let at' = cut_after_bounds end x x-IsExtent (omega arith) (omega arith) in
            let (s1, s2, s3, s4, e1, e2, e3, e4, h) =
              put_back_both rb s chunk c l x r sorted v whole shares f (cut_before off x)
                (cut_after end x) lev
                (cut_before-IsPart off x x-IsExtent (omega arith) (omega arith))
                (cut_after-IsPart end x x-IsExtent (omega arith) (omega arith)) (ground arith)
                (ground arith) (ground arith) (λ p out. ground arith) in
            go_on (suc f) s s4 chunk
              (restart-splits rb (suc f) s chunk c l x r s1 s2 s3 s4 e e1 e2 e3 e4) h (next s4 h)

    pass-hit :
        (o : Overlap) (c : Context) (l : Tree) (x : WriteUnit) (r : Tree)
        → Stops rb (suc f) s chunk c l x r o
        → Found chunk.offset (end_of chunk) (inorder s.chunk_root) (hit o c l x r)
        → Completes (suc (suc f)) s chunk
    pass-hit encompasses c l x r e found =
        let xv = x-IsExtent c l x r found.0 in
        pass-encompasses c l x r found.0 (overlap-IsHit chunk x encompasses v xv found.1 tt)
          (overlap-Bounds encompasses _ _ _ _ (omega arith) (omega arith) found.1) e
    pass-hit splits c l x r e found =
        let xv = x-IsExtent c l x r found.0 in
        pass-splits c l x r found.0 (overlap-IsHit chunk x splits v xv found.1 tt)
          (overlap-Bounds splits _ _ _ _ (omega arith) (omega arith) found.1) e
    pass-hit straddles_left c l x r e found =
        let xv = x-IsExtent c l x r found.0 in
        pass-straddles_left c l x r found.0 (overlap-IsHit chunk x straddles_left v xv found.1 tt)
          (overlap-Bounds straddles_left _ _ _ _ (omega arith) (omega arith) found.1) e
    pass-hit straddles_right c l x r e found =
        let xv = x-IsExtent c l x r found.0 in
        pass-straddles_right c l x r found.0 (overlap-IsHit chunk x straddles_right v xv found.1 tt)
          (overlap-Bounds straddles_right _ _ _ _ (omega arith) (omega arith) found.1) e
    pass-hit goes_left c l x r e found = absurd found.2
    pass-hit goes_right c l x r e found = absurd found.2

    pass :
        (st : Stop)
        → descend chunk.offset (add64 chunk.offset chunk.len) s.chunk_root root ≡ st
        → Found chunk.offset (end_of chunk) (inorder s.chunk_root) st
        → Completes (suc (suc f)) s chunk
    pass (slot c) e found = slot-Completes c e found
    pass (hit o c l x r) e found = pass-hit o c l x r e found

  -- With fuel for each overlap `vh_insert_chunk` completes.
  restart-Completes :
      (f : ℕ) (s : State) (chunk : WriteUnit)
      → IsExtent chunk
      → IsSorted (inorder s.chunk_root)
      → s.recurse_level ≡ 1
      → overlap_count chunk (inorder s.chunk_root) + 2 ≤ f
      → Completes f s chunk
  restart-Completes zero s chunk v sorted lev fuel = absurd (omega arith)
  restart-Completes (suc zero) s chunk v sorted lev fuel = absurd (omega arith)
  restart-Completes (suc (suc f)) s chunk v sorted lev fuel =
      pass f s chunk v sorted lev
        (λ s' h.
          restart-Completes (suc f) s' chunk v h.sorted (omega (arith, h.level))
            (omega (arith, h.fewer)))
        (descend chunk.offset (add64 chunk.offset chunk.len) s.chunk_root root) refl
        (rw end_lem (descend_lem chunk.offset (end_of chunk) s.chunk_root (omega arith) sorted))
    where
      end_lem : add64 chunk.offset chunk.len ≡ end_of chunk
      end_lem = omega arith

  -- Started at `recurse_level` 0 on a sorted tree, `vh_insert_chunk` returns: it neither aborts nor
  -- exceeds the fuel. Afterwards the level is 0 and the tree is sorted, the bytes of the chunk are
  -- its character and all other bytes are as before.
  pub insert_chunk_lem :
      (s : State) (chunk : WriteUnit)
      → IsExtent chunk
      → IsSorted (inorder s.chunk_root)
      → s.recurse_level ≡ 0
      → (s' : State) × (insert_chunk rb s chunk ≡ ok s') × Inserted chunk s s'
  unfolding insert_chunk
  insert_chunk_lem s chunk v sorted lev =
      let (s', e, i) =
        restart-Completes (length (inorder s.chunk_root) + 3) (record s { recurse_level = 1 }) chunk
          v sorted refl (omega (arith, overlap_count-le chunk (inorder s.chunk_root))) in
      (s', rw (enter_first s lev) e, record { level = i.level; sorted = i.sorted; bytes = i.bytes })
