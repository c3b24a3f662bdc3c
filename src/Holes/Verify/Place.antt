-- ===== src/Holes/Verify/Place.antt =====
-- `vh_insert_chunk` of an extent into a region that is clear: one search, no inner call.
use ocfs2_test.Common.{
  ℕ, suc, ◌≤◌, ◌<◌, ◌≡◌, true, some, List, ◌∷◌, ◌++◌, All, arith, if◌then◌else◌,
}
use ocfs2_test.Holes.{WriteUnit}
use ocfs2_test.Holes.Extent.{end_of, covers, byte_at, IsExtent, Precedes, IsSorted}
use ocfs2_test.Holes.Extent.Laws.{
  IsSorted-insert, byte_at-middle, overlaps, overlap_count, overlap_count-middle,
}
use ocfs2_test.Holes.Verify.{
  Overlap, encompasses, splits, straddles_left, straddles_right, goes_left, goes_right, overlap,
}
use ocfs2_test.Holes.Verify.Search.{IsHit}

-- The sequence `cs'` is `cs` with `x` put in its place.
pub record Placed (x : WriteUnit) (cs cs' : List WriteUnit) : Type 0 where
  pub left : List WriteUnit
  pub right : List WriteUnit
  pub whole : left ++ right ≡ cs
  pub placed : cs' ≡ left ++ (x ∷ right)
  pub left_before : All (λ b. Precedes b x) left
  pub right_after : All (Precedes x) right

module _ {x : WriteUnit} {cs cs' : List WriteUnit} (at : Placed x cs cs') where
  open at use {left, right, whole, placed, left_before, right_after}

  pub Placed-IsSorted : IsExtent x → IsSorted cs → IsSorted cs'
  Placed-IsSorted v s =
      rw placed (IsSorted-insert left x right (rw whole s) v left_before right_after)

  pub Placed-byte_at : (p : ℕ) → byte_at cs' p ≡ (if covers x p then some x.char else byte_at cs p)
  Placed-byte_at p = rw (placed, ← whole) (byte_at-middle left x right p left_before)

  pub Placed-overlap_count :
      (c : WriteUnit)
      → overlap_count c cs'
        ≡ (if overlaps c x then suc (overlap_count c cs) else overlap_count c cs)
  Placed-overlap_count c = rw (placed, ← whole) (overlap_count-middle c left x right)

-- A node at which the search stops shares a byte with the chunk.
pub overlap-IsHit :
    (c x : WriteUnit) (o : Overlap)
    → IsExtent c
    → IsExtent x
    → overlap c.offset (end_of c) x.offset (end_of x) ≡ o
    → IsHit o
    → overlaps c x ≡ true
unfolding overlap
overlap-IsHit c x goes_left v w e h = absurd h
overlap-IsHit c x goes_right v w e h = absurd h
overlap-IsHit c x encompasses v w e h = ground arith
overlap-IsHit c x splits v w e h = ground arith
overlap-IsHit c x straddles_left v w e h = ground arith
overlap-IsHit c x straddles_right v w e h = ground arith

-- What the tests of each branch say, for a chunk and an extent that are not empty.
abbrev pub Bounds : Overlap → ℕ → ℕ → ℕ → ℕ → Type 0
Bounds encompasses off end t u = (off ≤ t) × (u ≤ end)
Bounds splits off end t u = (t < off) × (end < u)
Bounds straddles_left off end t u = (off ≤ t) × (t < end) × (end < u)
Bounds straddles_right off end t u = (t < off) × (off < u) × (u ≤ end)
Bounds goes_left off end t u = end ≤ t
Bounds goes_right off end t u = u ≤ off

pub overlap-Bounds :
    (o : Overlap) (off end t u : ℕ)
    → off < end
    → t < u
    → overlap off end t u ≡ o
    → Bounds o off end t u
unfolding overlap
overlap-Bounds encompasses off end t u h k e = ground arith
overlap-Bounds splits off end t u h k e = ground arith
overlap-Bounds straddles_left off end t u h k e = ground arith
overlap-Bounds straddles_right off end t u h k e = ground arith
overlap-Bounds goes_left off end t u h k e = ground arith
overlap-Bounds goes_right off end t u h k e = ground arith
