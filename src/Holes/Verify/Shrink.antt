-- ===== src/Holes/Verify/Shrink.antt =====
-- `vh_insert_chunk`: the branches on an overlapping extent, one by one.
use ocfs2_test.Common.{
  ℕ, suc, ◌+◌, ◌≤◌, ◌<◌, ◌≡◌, refl, sym, true, false, some, List, ◌∷◌, ◌++◌, ◌||◌, append_assoc,
  arith, if◌then◌else◌, ok,
}
use ocfs2_test.Holes.{WriteUnit}
use ocfs2_test.Holes.Extent.{end_of, covers, byte_at, IsExtent, IsSorted}
use ocfs2_test.Holes.Extent.Laws.{
  IsSorted-remove, IsSorted-middle, byte_at-middle, overlaps, overlap_count, overlap_count-middle,
}
use ocfs2_test.Holes.Tree.{Tree, Context, inorder, before, after, RbTree}
use ocfs2_test.Holes.Verify.{State, enter, restart}
use ocfs2_test.Holes.Verify.Place.{Placed-IsSorted, Placed-byte_at, Placed-overlap_count}
use ocfs2_test.Holes.Verify.Part.{IsPart, IsPart-clear, enter_lem}
use ocfs2_test.Holes.Verify.Inner.{restart-clear}

-- What the work on one overlapping extent comes to: one overlap less, and outside the chunk the
-- same bytes.
pub record Shrunk (chunk : WriteUnit) (s s' : State) : Type 0 where
  pub level : s'.recurse_level ≡ s.recurse_level
  pub sorted : IsSorted (inorder s'.chunk_root)
  pub fewer :
      overlap_count chunk (inorder s'.chunk_root) + 1 ≡ overlap_count chunk (inorder s.chunk_root)
  pub outside :
      (p : ℕ)
      → covers chunk p ≡ false
      → byte_at (inorder s'.chunk_root) p ≡ byte_at (inorder s.chunk_root) p

module _ (rb : RbTree) where
  -- The state in which an overlapping extent `x` has been found and erased.
  module _ (s : State) (chunk : WriteUnit) (c : Context) (l : Tree) (x : WriteUnit) (r : Tree)
      (sorted : IsSorted (inorder s.chunk_root)) (v : IsExtent chunk)
      (whole : (before c ++ inorder l) ++ (x ∷ (inorder r ++ after c)) ≡ inorder s.chunk_root)
      (shares : overlaps chunk x ≡ true) where
    rest : List WriteUnit
    rest = (before c ++ inorder l) ++ (inorder r ++ after c)

    abbrev gone : State
    gone = record s { chunk_root = rb.erase c l r }

    inorder-gone : inorder gone.chunk_root ≡ rest
    unfolding rest
    inorder-gone =
        rw rb.inorder-erase (sym (append_assoc (before c) (inorder l) (inorder r ++ after c)))

    whole-IsSorted : IsSorted ((before c ++ inorder l) ++ (x ∷ (inorder r ++ after c)))
    whole-IsSorted = rw whole sorted

    gone-IsSorted : IsSorted (inorder gone.chunk_root)
    unfolding rest
    gone-IsSorted = rw inorder-gone (IsSorted-remove (before c ++ inorder l) x _ whole-IsSorted)

    x-IsExtent : IsExtent x
    x-IsExtent = (IsSorted-middle (before c ++ inorder l) x _ whole-IsSorted).1

    byte_at-gone :
        (p : ℕ)
        → byte_at (inorder s.chunk_root) p
          ≡ (if covers x p then some x.char else byte_at (inorder gone.chunk_root) p)
    unfolding rest
    byte_at-gone p =
        rw (← whole, inorder-gone)
          (byte_at-middle (before c ++ inorder l) x _ p
            (IsSorted-middle (before c ++ inorder l) x _ whole-IsSorted).0)

    overlap_count-gone :
        overlap_count chunk (inorder gone.chunk_root) + 1
        ≡ overlap_count chunk (inorder s.chunk_root)
    unfolding rest
    overlap_count-gone =
        rw
          (
            ← whole,
            inorder-gone,
            overlap_count-middle chunk (before c ++ inorder l) x (inorder r ++ after c),
            shares,
          )
          (omega arith)

    clear : (y : WriteUnit) → IsPart y x → overlap_count y (inorder gone.chunk_root) ≡ 0
    unfolding rest
    clear y part = rw inorder-gone (IsPart-clear y x (before c ++ inorder l) _ part whole-IsSorted)

    -- The whole of `x` lies in the chunk.
    pub gone-Shrunk :
        x.offset < end_of x
        → chunk.offset ≤ x.offset
        → end_of x ≤ end_of chunk
        → Shrunk chunk s gone
    gone-Shrunk ne lo hi = record {
      level = refl;
      sorted = gone-IsSorted;
      fewer = overlap_count-gone;
      outside = λ p out. ground (arith, byte_at-gone p);
    }

    -- One part `y` of `x` is put back, and it meets the chunk nowhere.
    pub put_back :
        (f : ℕ) (y : WriteUnit)
        → s.recurse_level ≡ 1
        → IsPart y x
        → overlaps chunk y ≡ false
        → ((p : ℕ) → covers chunk p ≡ false → covers y p ≡ covers x p)
        → (s1 : State) × (s2 : State) × (enter gone ≡ ok s1)
          × (restart rb (suc f) s1 y ≡ ok s2)
          × Shrunk chunk s s2
    put_back f y lev part apart same =
        let (s2, e, done) =
          restart-clear rb f (record gone { recurse_level = 2 }) y part.extent (clear y part)
            gone-IsSorted in
        (
          record gone { recurse_level = 2 },
          s2,
          enter_lem gone lev,
          e,
          record {
            level = omega (arith, done.level);
            sorted = Placed-IsSorted done.at part.extent gone-IsSorted;
            fewer = rw (Placed-overlap_count done.at chunk, apart) overlap_count-gone;
            outside = λ p out.
                ground (arith, byte_at-gone p, Placed-byte_at done.at p, same p out, part.same);
          },
        )

    -- Two parts `y` and `z` of `x`, before and after the chunk, are put back.
    pub put_back_both :
        (f : ℕ) (y z : WriteUnit)
        → s.recurse_level ≡ 1
        → IsPart y x
        → IsPart z x
        → overlaps chunk y ≡ false
        → overlaps chunk z ≡ false
        → overlaps z y ≡ false
        → ((p : ℕ) → covers chunk p ≡ false → covers x p ≡ (covers y p || covers z p))
        → (s1 s2 s3 s4 : State) × (enter gone ≡ ok s1)
          × (restart rb (suc f) s1 y ≡ ok s2)
          × (enter s2 ≡ ok s3)
          × (restart rb (suc f) s3 z ≡ ok s4)
          × Shrunk chunk s s4
    put_back_both f y z lev py pz ay az ayz same =
        let (s2, e, done) =
          restart-clear rb f (record gone { recurse_level = 2 }) y py.extent (clear y py)
            gone-IsSorted in
        let s2_sorted = Placed-IsSorted done.at py.extent gone-IsSorted in
        let (s4, e', done') =
          restart-clear rb f (record s2 { recurse_level = 2 }) z pz.extent
            (rw (Placed-overlap_count done.at z, ayz) (clear z pz)) s2_sorted in
        (
          record gone { recurse_level = 2 },
          s2,
          record s2 { recurse_level = 2 },
          s4,
          enter_lem gone lev,
          e,
          enter_lem s2 (omega (arith, done.level)),
          e',
          record {
            level = omega (arith, done'.level);
            sorted = Placed-IsSorted done'.at pz.extent s2_sorted;
            fewer =
                rw (Placed-overlap_count done'.at chunk, az, Placed-overlap_count done.at chunk, ay)
                  overlap_count-gone;
            outside = λ p out. ground (
              arith,
              byte_at-gone p,
              Placed-byte_at done.at p,
              Placed-byte_at done'.at p,
              same p out,
              py.same,
              pz.same,
            );
          },
        )
