-- ===== src/Holes/Verify/Part.antt =====
-- `vh_insert_chunk`: the parts of an extent that stay when a chunk overwrites the rest.
use ocfs2_test.Common.{ℕ, ◌≤◌, ◌<◌, ◌≡◌, refl, List, ◌∷◌, ◌++◌, All-map, arith, ok}
use ocfs2_test.Holes.{WriteUnit}
use ocfs2_test.Holes.Extent.{end_of, IsExtent, Precedes, IsSorted}
use ocfs2_test.Holes.Extent.Laws.{IsSorted-middle, overlap_count, overlap_count-between}
use ocfs2_test.Holes.Verify.{State, enter, cut_before, cut_after}

-- A part of an extent.
pub record IsPart (y x : WriteUnit) : Type 0 where
  pub extent : IsExtent y
  pub starts : x.offset ≤ y.offset
  pub ends : end_of y ≤ end_of x
  pub same : y.char ≡ x.char

-- A part of an extent that has been taken out overlaps nothing that is left.
pub IsPart-clear :
    (y x : WriteUnit) (xs ys : List WriteUnit)
    → IsPart y x
    → IsSorted (xs ++ (x ∷ ys))
    → overlap_count y (xs ++ ys) ≡ 0
IsPart-clear y x xs ys part s =
    let m = IsSorted-middle xs x ys s in
    overlap_count-between y xs ys
      (All-map (λ b. Precedes b x) (λ b. Precedes b y) (λ b h. omega (arith, part)) xs m.0)
      (All-map (Precedes x) (Precedes y) (λ b h. omega (arith, part)) ys m.2)

pub enter_lem : (s : State) → s.recurse_level ≡ 1 → enter s ≡ ok (record s { recurse_level = 2 })
unfolding enter
enter_lem s h = ground arith

pub enter_first : (s : State) → s.recurse_level ≡ 0 → enter s ≡ ok (record s { recurse_level = 1 })
unfolding enter
enter_first s h = ground arith

pub cut_before-IsPart :
    (off : ℕ) (x : WriteUnit)
    → IsExtent x
    → x.offset < off
    → off < end_of x
    → IsPart (cut_before off x) x
unfolding cut_before
cut_before-IsPart off x v lo hi = record {
  extent = omega arith;
  starts = omega arith;
  ends = omega arith;
  same = refl;
}

pub cut_after-IsPart :
    (end : ℕ) (x : WriteUnit)
    → IsExtent x
    → x.offset < end
    → end < end_of x
    → IsPart (cut_after end x) x
unfolding cut_after
cut_after-IsPart end x v lo hi = record {
  extent = omega arith;
  starts = omega arith;
  ends = omega arith;
  same = refl;
}

-- Where the two parts stand.
pub cut_before_bounds :
    (off : ℕ) (x : WriteUnit)
    → IsExtent x
    → x.offset < off
    → off < end_of x
    → ((cut_before off x).offset ≡ x.offset) × (end_of (cut_before off x) ≡ off)
unfolding cut_before
cut_before_bounds off x v lo hi = (refl, omega arith)

pub cut_after_bounds :
    (end : ℕ) (x : WriteUnit)
    → IsExtent x
    → x.offset < end
    → end < end_of x
    → ((cut_after end x).offset ≡ end) × (end_of (cut_after end x) ≡ end_of x)
unfolding cut_after
cut_after_bounds end x v lo hi = (refl, omega arith)
