-- ===== src/Holes/Extent/Laws.antt =====
-- Taking an extent out of a sorted sequence and putting one in.
use ocfs2_test.Common.{
  ℕ, suc, ◌≤◌, ◌≡◌, refl, Bool, ◌&&◌, some, List, [], ◌∷◌, ◌++◌, ltb, if◌then◌else◌, All,
  All-append, All-append_left, All-append_right, arith, length,
}
use ocfs2_test.Holes.{WriteUnit}
use ocfs2_test.Holes.Extent.{end_of, covers, byte_at, IsExtent, Precedes, IsSorted}

pub IsSorted-remove :
    (xs : List WriteUnit) (x : WriteUnit) (ys : List WriteUnit)
    → IsSorted (xs ++ (x ∷ ys))
    → IsSorted (xs ++ ys)
IsSorted-remove [] x ys h = h.2
IsSorted-remove (b ∷ xs) x ys h = (
  h.0,
  All-append (Precedes b) xs ys (All-append_left (Precedes b) xs (x ∷ ys) h.1)
      (All-append_right (Precedes b) xs (x ∷ ys) h.1).1,
  IsSorted-remove xs x ys h.2,
)

pub IsSorted-insert :
    (xs : List WriteUnit) (x : WriteUnit) (ys : List WriteUnit)
    → IsSorted (xs ++ ys)
    → IsExtent x
    → All (λ b. Precedes b x) xs
    → All (Precedes x) ys
    → IsSorted (xs ++ (x ∷ ys))
IsSorted-insert [] x ys h v hb ha = (v, ha, h)
IsSorted-insert (b ∷ xs) x ys h v hb ha = (
  h.0,
  All-append (Precedes b) xs (x ∷ ys) (All-append_left (Precedes b) xs ys h.1)
      (hb.0, All-append_right (Precedes b) xs ys h.1),
  IsSorted-insert xs x ys h.2 v hb.1 ha,
)

-- What surrounds an extent of a sorted sequence.
pub IsSorted-middle :
    (xs : List WriteUnit) (x : WriteUnit) (ys : List WriteUnit)
    → IsSorted (xs ++ (x ∷ ys))
    → All (λ b. Precedes b x) xs × IsExtent x × All (Precedes x) ys
IsSorted-middle [] x ys h = (tt, h.0, h.1)
IsSorted-middle (b ∷ xs) x ys h =
    let rest = IsSorted-middle xs x ys h.2 in
    (((All-append_right (Precedes b) xs (x ∷ ys) h.1).0, rest.0), rest.1, rest.2)

-- The bytes of a sequence, with one extent set apart.
pub byte_at-middle :
    (xs : List WriteUnit) (x : WriteUnit) (ys : List WriteUnit) (p : ℕ)
    → All (λ b. Precedes b x) xs
    → byte_at (xs ++ (x ∷ ys)) p ≡ (if covers x p then some x.char else byte_at (xs ++ ys) p)
unfolding byte_at
byte_at-middle [] x ys p h = refl
byte_at-middle (b ∷ xs) x ys p h = ground (arith, byte_at-middle xs x ys p h.1, h.0)

-- Two extents share a byte.
abbrev pub overlaps : WriteUnit → WriteUnit → Bool
overlaps c x = ltb c.offset (end_of x) && ltb x.offset (end_of c)

pub overlap_count : WriteUnit → List WriteUnit → ℕ
overlap_count c [] = 0
overlap_count c (x ∷ xs) = let n = overlap_count c xs in if overlaps c x then suc n else n

pub overlap_count-middle :
    (c : WriteUnit) (xs : List WriteUnit) (x : WriteUnit) (ys : List WriteUnit)
    → overlap_count c (xs ++ (x ∷ ys))
      ≡ (if overlaps c x then suc (overlap_count c (xs ++ ys)) else overlap_count c (xs ++ ys))
unfolding overlap_count
overlap_count-middle c [] x ys = refl
overlap_count-middle c (b ∷ xs) x ys = ground (arith, overlap_count-middle c xs x ys)

-- An extent that lies between two parts of a sequence overlaps neither.
pub overlap_count-between :
    (x : WriteUnit) (xs ys : List WriteUnit)
    → All (λ b. Precedes b x) xs
    → All (Precedes x) ys
    → overlap_count x (xs ++ ys) ≡ 0
unfolding overlap_count
overlap_count-between x [] [] hb ha = refl
overlap_count-between x [] (y ∷ ys) hb ha =
    ground (arith, overlap_count-between x [] ys tt ha.1, ha.0)
overlap_count-between x (b ∷ xs) ys hb ha =
    ground (arith, overlap_count-between x xs ys hb.1 ha, hb.0)

pub overlap_count-le : (c : WriteUnit) (xs : List WriteUnit) → overlap_count c xs ≤ length xs
unfolding overlap_count
overlap_count-le c [] = omega arith
overlap_count-le c (x ∷ xs) = ground (arith, overlap_count-le c xs)
