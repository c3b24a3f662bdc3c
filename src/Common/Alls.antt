-- ===== src/Common/Alls.antt =====
-- Predicates on every element of a list, across `++`.
use Prim.Native.Nat.{ℕ, zero, suc, ◌+◌}
use mathlib.Core.Path.{◌≡◌, refl, subst}
use mathlib.Core.Logic.{◌≢◌}
use mathlib.Core.Option.{none, some}
use mathlib.Core.List.{List, [], ◌∷◌, ◌++◌}
use native.Mathlib.Omega.{arith}
use ocfs2_test.Common.Lists.{get_elem?}

abbrev pub All {ℓ κ} : {A : Type ℓ} → (A → Type κ) → List A → Type κ
All P [] = Unit
All P (x ∷ xs) = P x × All P xs

module _ {ℓ κ} {A : Type ℓ} (P : A → Type κ) where
  pub All-append : (xs ys : List A) → All P xs → All P ys → All P (xs ++ ys)
  All-append [] ys h k = k
  All-append (x ∷ xs) ys h k = (h.0, All-append xs ys h.1 k)

  pub All-append_left : (xs ys : List A) → All P (xs ++ ys) → All P xs
  All-append_left [] ys h = tt
  All-append_left (x ∷ xs) ys h = (h.0, All-append_left xs ys h.1)

  pub All-append_right : (xs ys : List A) → All P (xs ++ ys) → All P ys
  All-append_right [] ys h = h
  All-append_right (x ∷ xs) ys h = All-append_right xs ys h.1

pub All-map {ℓ κ ι} :
    {A : Type ℓ} (P : A → Type κ) (Q : A → Type ι)
    → ((a : A) → P a → Q a)
    → (xs : List A) → All P xs
    → All Q xs
All-map P Q f [] h = tt
All-map P Q f (x ∷ xs) h = (f x h.0, All-map P Q f xs h.1)

-- A relation between each element and its place, counted from `i`.
abbrev pub AllFrom {ℓ κ} : {A : Type ℓ} → (ℕ → A → Type κ) → ℕ → List A → Type κ
AllFrom P i [] = Unit
AllFrom P i (x ∷ xs) = P i x × AllFrom P (suc i) xs

module _ {ℓ κ} {A : Type ℓ} (P : ℕ → A → Type κ) where
  pub AllFrom-elem :
      (i : ℕ) (xs : List A) (j : ℕ) (x : A) → AllFrom P i xs → get_elem? xs j ≡ some x → P (i + j) x
  AllFrom-elem i [] j x h e = absurd (none-some x e)
    where
      none-some : (x : A) → none ≢ some x
      none-some x e = cc
  AllFrom-elem i (y ∷ ys) zero x h e =
      let at : i ≡ i + 0 = omega arith in subst (λ z. P z x) at (subst (P i) (some-inj y x e) h.0)
    where
      some-inj : (a b : A) → some a ≡ some b → a ≡ b
      some-inj a b e = cc
  AllFrom-elem i (y ∷ ys) (suc j) x h e =
      let at : suc i + j ≡ i + suc j = omega arith in
      subst (λ z. P z x) at (AllFrom-elem (suc i) ys j x h.1 e)

  pub AllFrom-of :
      (i : ℕ) (xs : List A)
      → ((j : ℕ) (x : A) → get_elem? xs j ≡ some x → P (i + j) x)
      → AllFrom P i xs
  AllFrom-of i [] h = tt
  AllFrom-of i (x ∷ xs) h =
      let at : i + 0 ≡ i = omega arith in
      (
        subst (λ z. P z x) at (h 0 x refl),
        AllFrom-of (suc i) xs (λ j y e.
            let next : i + suc j ≡ suc i + j = omega arith in
            subst (λ z. P z y) next (h (suc j) y e)),
      )

  pub AllFrom-elem0 :
      (xs : List A) (j : ℕ) (x : A) → AllFrom P 0 xs → get_elem? xs j ≡ some x → P j x
  AllFrom-elem0 xs j x h e =
      let at : 0 + j ≡ j = omega arith in subst (λ z. P z x) at (AllFrom-elem 0 xs j x h e)

  pub AllFrom-of0 :
      (xs : List A) → ((j : ℕ) (x : A) → get_elem? xs j ≡ some x → P j x) → AllFrom P 0 xs
  AllFrom-of0 xs h =
      AllFrom-of 0 xs (λ j x e. let at : j ≡ 0 + j = omega arith in subst (λ z. P z x) at (h j x e))

module _ {ℓ κ} {A : Type ℓ} (P : A → Type κ) where
  pub All-elem : (xs : List A) (i : ℕ) (x : A) → All P xs → get_elem? xs i ≡ some x → P x
  All-elem [] i x h e = absurd (none-some x e)
    where
      none-some : (x : A) → none ≢ some x
      none-some x e = cc
  All-elem (y ∷ ys) zero x h e = subst P (some-inj y x e) h.0
    where
      some-inj : (a b : A) → some a ≡ some b → a ≡ b
      some-inj a b e = cc
  All-elem (y ∷ ys) (suc i) x h e = All-elem ys i x h.1 e
