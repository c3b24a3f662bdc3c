-- ===== src/Common/Results.antt =====
-- What a C routine comes to: it returns a value, it returns its error code, it aborts the process
-- (`abort`, a failed `assert`), or a loop has used up the fuel of the model.
use mathlib.Core.Path.{◌≡◌, refl}
use mathlib.Core.Logic.{◌≢◌}

pub data Result {ℓ} (A : Type ℓ) : Type ℓ where
  ok : A → Result A
  failed : Result A
  aborted : Result A
  out_of_fuel : Result A

-- `abbrev`, so that `ok a >>= f` computes wherever it stands.
infixl 5 ◌>>=◌ ◌>>◌
abbrev pub ◌>>=◌ {ℓ κ} : {A : Type ℓ} {B : Type κ} → Result A → (A → Result B) → Result B
ok a >>= f = f a
failed >>= f = failed
aborted >>= f = aborted
out_of_fuel >>= f = out_of_fuel

abbrev pub ◌>>◌ {ℓ κ} : {A : Type ℓ} {B : Type κ} → Result A → Result B → Result B
m >> k = m >>= λ _. k

module _ {ℓ κ} {A : Type ℓ} {B : Type κ} where
  pub bind-ok :
      (m : Result A) (f : A → Result B) (b : B)
      → (m >>= f) ≡ ok b
      → (a : A) × (m ≡ ok a) × (f a ≡ ok b)
  bind-ok (ok a) f b e = (a, refl, e)
  bind-ok failed f b e = absurd (failed-ok b e)
    where
      failed-ok : (b : B) → failed ≢ ok b
      failed-ok b e = cc
  bind-ok aborted f b e = absurd (aborted-ok b e)
    where
      aborted-ok : (b : B) → aborted ≢ ok b
      aborted-ok b e = cc
  bind-ok out_of_fuel f b e = absurd (out_of_fuel-ok b e)
    where
      out_of_fuel-ok : (b : B) → out_of_fuel ≢ ok b
      out_of_fuel-ok b e = cc

  pub bind-bind {μ} :
      {C : Type μ} (m : Result A) (f : A → Result C) (g : A → Result B) (h : B → Result C)
      → ((a : A) → f a ≡ (g a >>= h))
      → (m >>= f) ≡ (m >>= g >>= h)
  bind-bind (ok a) f g h e = e a
  bind-bind failed f g h e = refl
  bind-bind aborted f g h e = refl
  bind-bind out_of_fuel f g h e = refl
