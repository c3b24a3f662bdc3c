-- ===== src/Holes/Verify/Inner.antt =====
-- `vh_insert_chunk`: an inner call, which finds its region clear.
use ocfs2_test.Common.{ℕ, suc, ◌-◌, ◌<◌, ◌≡◌, refl, ◌++◌, arith, ok}
use ocfs2_test.Holes.{WriteUnit, add64}
use ocfs2_test.Holes.Extent.{end_of, IsExtent, IsSorted}
use ocfs2_test.Holes.Extent.Laws.{IsSorted-middle, overlap_count, overlap_count-middle}
use ocfs2_test.Holes.Tree.{root, inorder, before, after, RbTree}
use ocfs2_test.Holes.Verify.{Stop, slot, hit, descend, State, restart}
use ocfs2_test.Holes.Verify.Search.{Found, descend_lem}
use ocfs2_test.Holes.Verify.Place.{Placed, overlap-IsHit}

module _ (rb : RbTree) where
  -- What an inner call does: the extent is put in its place, and the level goes back by one.
  pub record Done (x : WriteUnit) (s s' : State) : Type 0 where
    pub level : s'.recurse_level ≡ s.recurse_level - 1
    pub at : Placed x (inorder s.chunk_root) (inorder s'.chunk_root)

  restart-slot :
      (f : ℕ) (s : State) (x : WriteUnit) (st : Stop)
      → IsExtent x
      → overlap_count x (inorder s.chunk_root) ≡ 0
      → IsSorted (inorder s.chunk_root)
      → descend x.offset (add64 x.offset x.len) s.chunk_root root ≡ st
      → Found x.offset (end_of x) (inorder s.chunk_root) st
      → (s' : State) × (restart rb (suc f) s x ≡ ok s') × Done x s s'
  unfolding restart
  restart-slot f s x (slot c) v clear sorted e found = (
    record { chunk_root = rb.insert_color c x; recurse_level = s.recurse_level - 1 },
    rw (e, restart),
    record {
      level = refl;
      at = record {
        left = before c;
        right = after c;
        whole = found.0;
        placed = rb.inorder-insert_color c x;
        left_before = found.1;
        right_after = found.2;
      };
    },
  )
  restart-slot f s x (hit o c l y r) v clear sorted e found = absurd (omega (arith, some_overlap))
    where
      around : IsExtent y
      around =
          (IsSorted-middle (before c ++ inorder l) y (inorder r ++ after c) (rw found.0 sorted)).1

      some_overlap : 0 < overlap_count x (inorder s.chunk_root)
      some_overlap =
          rw
            (
              ← found.0,
              overlap_count-middle x (before c ++ inorder l) y (inorder r ++ after c),
              overlap-IsHit x y o v around found.1 found.2,
            )
            (omega arith)

  -- Into a region that is clear the insertion needs one search only.
  pub restart-clear :
      (f : ℕ) (s : State) (x : WriteUnit)
      → IsExtent x
      → overlap_count x (inorder s.chunk_root) ≡ 0
      → IsSorted (inorder s.chunk_root)
      → (s' : State) × (restart rb (suc f) s x ≡ ok s') × Done x s s'
  restart-clear f s x v clear sorted =
      restart-slot f s x (descend x.offset (add64 x.offset x.len) s.chunk_root root) v clear sorted
        refl (rw (end_lem) (descend_lem x.offset (end_of x) s.chunk_root (omega arith) sorted))
    where
      end_lem : add64 x.offset x.len ≡ end_of x
      end_lem = omega arith
