-- ===== src/Holes/Extent.antt =====
-- What a sequence of extents says about the bytes of a file.
pub mod Laws
use ocfs2_test.Common.{
  ℕ, ◌+◌, ◌≤◌, ◌<◌, ◌^◌, ◌≡◌, Bool, ◌&&◌, Option, none, some, List, [], ◌∷◌, leb, ltb,
  if◌then◌else◌, All,
}
use ocfs2_test.Holes.{WriteUnit}

abbrev pub end_of : WriteUnit → ℕ
end_of x = x.offset + x.len

-- Position `p` lies in the extent.
abbrev pub covers : WriteUnit → ℕ → Bool
covers x p = leb x.offset p && ltb p (end_of x)

-- The character that the first extent covering `p` carries.
unfoldable pub byte_at : List WriteUnit → ℕ → Option ℕ
byte_at [] p = none
byte_at (x ∷ xs) p = if covers x p then some x.char else byte_at xs p

-- An extent has bytes, and its end is a 64-bit offset.
pub record IsExtent (x : WriteUnit) : Type 0 where
  pub filled : 0 < x.len
  pub len_fits : x.len < 2 ^ 32
  pub end_fits : end_of x < 2 ^ 64

-- `x` ends before `y` starts.
abbrev pub Precedes : WriteUnit → WriteUnit → Type 0
Precedes x y = end_of x ≤ y.offset

-- Extents that do not overlap, in the order of the file.
abbrev pub IsSorted : List WriteUnit → Type 0
IsSorted [] = Unit
IsSorted (x ∷ xs) = IsExtent x × All (Precedes x) xs × IsSorted xs
