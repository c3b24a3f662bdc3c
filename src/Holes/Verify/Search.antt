-- ===== src/Holes/Verify/Search.antt =====
-- `vh_insert_chunk`, the search: where the descent from the root stops.
use ocfs2_test.Common.{
  ℕ, ◌≤◌, ◌<◌, ◌≡◌, refl, ap, List, [], ◌∷◌, ◌++◌, All, All-append, All-append_right, All-map,
  append_assoc, append-nil, arith,
}
use ocfs2_test.Holes.{WriteUnit, add64}
use ocfs2_test.Holes.Extent.{end_of, IsExtent, Precedes, IsSorted}
use ocfs2_test.Holes.Extent.Laws.{IsSorted-middle}
use ocfs2_test.Holes.Tree.{
  Tree, empty, node, Context, root, in_left, in_right, inorder, before, after,
}
use ocfs2_test.Holes.Verify.{
  Overlap, encompasses, splits, straddles_left, straddles_right, goes_left, goes_right, overlap,
  Stop, slot, hit, descend,
}

abbrev pub EndsBy : ℕ → WriteUnit → Type 0
EndsBy off b = end_of b ≤ off

abbrev pub StartsFrom : ℕ → WriteUnit → Type 0
StartsFrom end a = end ≤ a.offset

-- The branches in which the loop has found an extent to change.
abbrev pub IsHit : Overlap → Type 0
IsHit goes_left = ⊥
IsHit goes_right = ⊥
IsHit _ = Unit

-- Where a search for `[off, end)` may stop in a tree that holds the extents `all`.
abbrev pub Found : ℕ → ℕ → List WriteUnit → Stop → Type 0
Found off end all (slot c) =
    (before c ++ after c ≡ all) × All (EndsBy off) (before c) × All (StartsFrom end) (after c)
Found off end all (hit o c l x r) =
    ((before c ++ inorder l) ++ (x ∷ (inorder r ++ after c)) ≡ all)
    × (overlap off end x.offset (end_of x) ≡ o)
    × IsHit o

overlap-goes_left :
    (off end t u : ℕ) → off < end → t < u → overlap off end t u ≡ goes_left → end ≤ t
unfolding overlap
overlap-goes_left off end t u h k e = ground arith

overlap-goes_right :
    (off end t u : ℕ) → off < end → t < u → overlap off end t u ≡ goes_right → u ≤ off
unfolding overlap
overlap-goes_right off end t u h k e = ground arith

-- One node of the search, for a decided branch.
branch : ℕ → ℕ → Overlap → Tree → WriteUnit → Tree → Context → Stop
branch off end goes_left l x r c = descend off end l (in_left c x r)
branch off end goes_right l x r c = descend off end r (in_right l x c)
branch off end o l x r c = hit o c l x r

descend-branch :
    (off end : ℕ) (l : Tree) (x : WriteUnit) (r : Tree) (c : Context) (o : Overlap)
    → overlap off end x.offset (add64 x.offset x.len) ≡ o
    → descend off end (node l x r) c ≡ branch off end o l x r c
unfolding descend branch
descend-branch off end l x r c encompasses e = rw (e, descend)
descend-branch off end l x r c o e = rw (e, descend)

module _ (off end : ℕ) (nonempty : off < end) (all : List WriteUnit) (sorted : IsSorted all) where
  -- The search keeps what lies outside the subtree on its side of the chunk.
  record Descends (t : Tree) (c : Context) : Type 0 where
    whole : before c ++ (inorder t ++ after c) ≡ all
    left_done : All (EndsBy off) (before c)
    right_done : All (StartsFrom end) (after c)

  node-flat :
      (l : Tree) (x : WriteUnit) (r : Tree) (c : Context)
      → Descends (node l x r) c
      → before c ++ (inorder l ++ (x ∷ (inorder r ++ after c))) ≡ all
  node-flat l x r c d = simp append_assoc at d.whole

  node-whole :
      (l : Tree) (x : WriteUnit) (r : Tree) (c : Context)
      → Descends (node l x r) c
      → (before c ++ inorder l) ++ (x ∷ (inorder r ++ after c)) ≡ all
  node-whole l x r c d = simp append_assoc (node-flat l x r c d)

  -- What the neighbours of a node of the search are.
  node-middle :
      (l : Tree) (x : WriteUnit) (r : Tree) (c : Context)
      → Descends (node l x r) c
      → All (λ b. Precedes b x) (before c ++ inorder l)
        × IsExtent x
        × All (Precedes x) (inorder r ++ after c)
  node-middle l x r c d =
      IsSorted-middle (before c ++ inorder l) x (inorder r ++ after c)
        (rw (node-whole l x r c d) sorted)

  Descends-left :
      (l : Tree) (x : WriteUnit) (r : Tree) (c : Context)
      → Descends (node l x r) c
      → end ≤ x.offset
      → Descends l (in_left c x r)
  Descends-left l x r c d le = record {
    whole = node-flat l x r c d;
    left_done = d.left_done;
    right_done = (
      le,
      All-map (Precedes x) (StartsFrom end) (λ a h. omega (arith, m.1)) (inorder r ++ after c) m.2,
    );
  }
    where
      m :
          All (λ b. Precedes b x) (before c ++ inorder l)
          × IsExtent x
          × All (Precedes x) (inorder r ++ after c)
      m = node-middle l x r c d

  Descends-right :
      (l : Tree) (x : WriteUnit) (r : Tree) (c : Context)
      → Descends (node l x r) c
      → end_of x ≤ off
      → Descends r (in_right l x c)
  Descends-right l x r c d le = record {
    whole = simp append_assoc (node-flat l x r c d);
    left_done = All-append (EndsBy off) (before c) (inorder l ++ (x ∷ [])) d.left_done (
        All-append (EndsBy off) (inorder l) (x ∷ [])
          (All-map (λ b. Precedes b x) (EndsBy off) (λ a h. omega (arith, m.1)) (inorder l)
            (All-append_right (λ b. Precedes b x) (before c) (inorder l) m.0))
          (le, tt));
    right_done = d.right_done;
  }
    where
      m :
          All (λ b. Precedes b x) (before c ++ inorder l)
          × IsExtent x
          × All (Precedes x) (inorder r ++ after c)
      m = node-middle l x r c d

  branch-Found :
      (l : Tree) (x : WriteUnit) (r : Tree) (c : Context)
      → Descends (node l x r) c
      → (Descends l (in_left c x r) → Found off end all (descend off end l (in_left c x r)))
      → (Descends r (in_right l x c) → Found off end all (descend off end r (in_right l x c)))
      → (o : Overlap) → overlap off end x.offset (end_of x) ≡ o
      → Found off end all (branch off end o l x r c)
  unfolding branch
  branch-Found l x r c d left right goes_left e = left (
      Descends-left l x r c d
        (overlap-goes_left off end _ _ nonempty (omega (arith, node-middle l x r c d)) e))
  branch-Found l x r c d left right goes_right e = right (
      Descends-right l x r c d
        (overlap-goes_right off end _ _ nonempty (omega (arith, node-middle l x r c d)) e))
  branch-Found l x r c d left right encompasses e = (node-whole l x r c d, e, tt)
  branch-Found l x r c d left right splits e = (node-whole l x r c d, e, tt)
  branch-Found l x r c d left right straddles_left e = (node-whole l x r c d, e, tt)
  branch-Found l x r c d left right straddles_right e = (node-whole l x r c d, e, tt)

  add64-end_of : (x : WriteUnit) → IsExtent x → add64 x.offset x.len ≡ end_of x
  add64-end_of x v = omega arith

  descend-Found : (t : Tree) (c : Context) → Descends t c → Found off end all (descend off end t c)
  unfolding descend
  descend-Found empty c d = (d.whole, d.left_done, d.right_done)
  descend-Found (node l x r) c d =
      rw
        (descend-branch off end l x r c (overlap off end x.offset (end_of x))
          (ap (overlap off end x.offset) (add64-end_of x (node-middle l x r c d).1)))
        (branch-Found l x r c d (descend-Found l (in_left c x r)) (descend-Found r (in_right l x c))
          (overlap off end x.offset (end_of x)) refl)

-- The search of `vh_insert_chunk` stops where the chunk fits, or at an extent that it overlaps.
pub descend_lem :
    (off end : ℕ) (t : Tree)
    → off < end
    → IsSorted (inorder t)
    → Found off end (inorder t) (descend off end t root)
descend_lem off end t h s =
    descend-Found off end h (inorder t) s t root
      (record { whole = append-nil (inorder t); left_done = tt; right_done = tt })
