-- ===== src/FileVerify/Bytes.antt =====
-- The bytes of C integers on a little-endian machine, and memory as a function.
use ocfs2_test.Common.{
  ℕ, zero, suc, ◌+◌, ◌*◌, ◌/◌, ◌%◌, ◌^◌, ◌<◌, ◌≡◌, refl, ap, List, [], ◌∷◌, length, arith,
}

-- The `w` lowest bytes of `n`, lowest first.
abbrev pub to_le : ℕ → ℕ → List ℕ
to_le zero n = []
to_le (suc w) n = n % 256 ∷ to_le w (n / 256)

abbrev pub of_le : List ℕ → ℕ
of_le [] = 0
of_le (b ∷ bs) = b + 256 * of_le bs

pub length-to_le : (w n : ℕ) → length (to_le w n) ≡ w
length-to_le zero n = refl
length-to_le (suc w) n = ap suc (length-to_le w (n / 256))

abbrev rest_of : ℕ → ℕ → ℕ
rest_of zero n = n
rest_of (suc w) n = rest_of w (n / 256)

of_le-to_le : (w n : ℕ) → rest_of w n ≡ 0 → of_le (to_le w n) ≡ n
of_le-to_le zero n h = omega (arith, h)
of_le-to_le (suc w) n h = omega (arith, of_le-to_le w (n / 256) h)

pub of_le-to_le64 : (n : ℕ) → n < 2 ^ 64 → of_le (to_le 8 n) ≡ n
of_le-to_le64 n h = of_le-to_le 8 n (omega arith)

pub of_le-to_le32 : (n : ℕ) → n < 2 ^ 32 → of_le (to_le 4 n) ≡ n
of_le-to_le32 n h = of_le-to_le 4 n (omega arith)
