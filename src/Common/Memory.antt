-- ===== src/Common/Memory.antt =====
-- Comparison of buffers.
use Prim.Native.Nat.{ℕ}
use mathlib.Core.Path.{◌≡◌, refl}
use mathlib.Core.Bool.{Bool, true, false, ◌&&◌}
use mathlib.Core.List.{List, [], ◌∷◌}
use native.Mathlib.Omega.{arith}
use ocfs2_test.Common.Tests.{◌==◌}

-- `!memcmp` of two buffers.
abbrev pub same_bytes : List ℕ → List ℕ → Bool
same_bytes [] [] = true
same_bytes (a ∷ xs) (b ∷ ys) = a == b && same_bytes xs ys
same_bytes [] (b ∷ ys) = false
same_bytes (a ∷ xs) [] = false

pub same_bytes_refl : (xs : List ℕ) → same_bytes xs xs ≡ true
same_bytes_refl [] = refl
same_bytes_refl (x ∷ xs) = ground (arith, same_bytes_refl xs)

pub same_bytes_sound : (xs ys : List ℕ) → same_bytes xs ys ≡ true → xs ≡ ys
same_bytes_sound [] [] h = refl
same_bytes_sound (x ∷ xs) (y ∷ ys) h =
    let e : x ≡ y = ground (arith, h) in
    let r : same_bytes xs ys ≡ true = ground (arith, h) in rw (e, same_bytes_sound xs ys r) refl
same_bytes_sound [] (y ∷ ys) h = cc
same_bytes_sound (x ∷ xs) [] h = cc
