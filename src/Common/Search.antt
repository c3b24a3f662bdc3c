-- ===== src/Common/Search.antt =====
-- Search below a bound.
use Prim.Native.Nat.{ℕ, zero, suc, ◌<◌}
use mathlib.Core.Path.{◌≡◌}
use mathlib.Core.Logic.{◌⊎◌, inl, inr}
use mathlib.Core.Bool.{Bool, true, false}
use native.Mathlib.Omega.{arith}
use ocfs2_test.Common.Tests.{Bool-cases}

-- A test on the numbers below `n` holds for all of them, or one is found that fails it.
pub all_or_one :
    (n : ℕ) (P : ℕ → Bool) → ((j : ℕ) → j < n → P j ≡ true) ⊎ ((j : ℕ) × (j < n) × (P j ≡ false))
all_or_one zero P = inl (λ j h. absurd (omega arith))
all_or_one (suc n) P = elim (all_or_one n P) [
  | inr (j, low, e) ↦ inr (j, omega arith, e)
  | inl all ↦ elim (Bool-cases (P n)) [
    | inr e ↦ inr (n, omega arith, e)
    | inl e ↦ inl (λ j h. elim (below_or_last j h) [ inl low ↦ all j low | inr last ↦ rw last e ])
  ]
]
  where
    below_or_last : (j : ℕ) → j < suc n → (j < n) ⊎ (j ≡ n)
    below_or_last j h = ground (arith, h)
