-- ===== src/Frager/Order/Count.antt =====
-- Counting the chunk numbers of an order of writes of frager.c.
use ocfs2_test.Common.{
  ℕ, zero, suc, ◌+◌, ◌≤◌, ◌<◌, ◌≡◌, refl, ◌∙◌, ap, List, [], ◌∷◌, All, ◌==◌, if◌then◌else◌, length,
  get_or, set, replicate, arith, Bool-cases, inl, inr, ◌⊎◌,
}
use ocfs2_test.Frager.Order.{in_order}

-- How often a number stands in a list.
unfoldable pub count : ℕ → List ℕ → ℕ
count c [] = 0
count c (x ∷ xs) = (if x == c then 1 else 0) + count c xs

abbrev pub hit : ℕ → ℕ → ℕ
hit x c = if x == c then 1 else 0

pub count-set :
    (c : ℕ) (xs : List ℕ) (i v : ℕ)
    → i < length xs
    → count c (set xs i v) + hit (get_or xs i 0) c ≡ count c xs + hit v c
unfolding count
count-set c [] i v h = absurd (omega arith)
count-set c (x ∷ xs) zero v h = omega arith
count-set c (x ∷ xs) (suc i) v h = omega (arith, count-set c xs i v (omega arith))

pub count-replicate : (c n v : ℕ) → count c (replicate n v) ≡ (if v == c then n else 0)
unfolding count
count-replicate c zero v = ground arith
count-replicate c (suc n) v = ground (arith, count-replicate c n v)

count-in_order_below : (c i m : ℕ) → c < i → count c (in_order i m) ≡ 0
unfolding count in_order
count-in_order_below c i zero h = refl
count-in_order_below c i (suc m) h =
    ground (arith, h, count-in_order_below c (suc i) m (omega arith))

pub count-in_order : (c i m : ℕ) → i ≤ c → c < i + m → count c (in_order i m) ≡ 1
unfolding count in_order
count-in_order c i zero h k = absurd (omega arith)
count-in_order c i (suc m) h k = elim (Bool-cases (i == c)) [
  | inl same ↦
      (let none_later : count c (in_order (suc i) m) ≡ 0 =
          count-in_order_below c (suc i) m (ground (arith, same)) in
        rw (same, none_later) refl)
  | inr apart ↦
      (let later : count c (in_order (suc i) m) ≡ 1 =
          count-in_order c (suc i) m (ground (arith, apart, h)) (omega arith) in
        rw (apart, later) refl)
]

pub count-in_order_above : (c i m : ℕ) → i + m ≤ c → count c (in_order i m) ≡ 0
unfolding count in_order
count-in_order_above c i zero h = refl
count-in_order_above c i (suc m) h =
    ground (arith, h, count-in_order_above c (suc i) m (omega arith))

-- The numbers below `n`, each once.
pub record EachOnce (n : ℕ) (order : List ℕ) : Type 0 where
  pub len : length order ≡ n
  pub once : (c : ℕ) → c < n → count c order ≡ 1
  pub no_other : (c : ℕ) → n ≤ c → count c order ≡ 0

-- A number that is counted stands somewhere.
count-found :
    (c : ℕ) (xs : List ℕ) → 0 < count c xs → (i : ℕ) × (i < length xs) × (get_or xs i 0 ≡ c)
unfolding count
count-found c [] h = absurd (omega arith)
count-found c (x ∷ xs) h = elim (Bool-cases (x == c)) [
  | inl same ↦ (0, omega arith, ground (arith, same))
  | inr apart ↦
      let (i, low, e) = count-found c xs (ground (arith, h, apart)) in (suc i, omega arith, e)
]

pub get_or-set : (xs : List ℕ) (i v j : ℕ) → j < i → get_or (set xs i v) j 0 ≡ get_or xs j 0
get_or-set [] i v j h = refl
get_or-set (x ∷ xs) zero v j h = absurd (omega arith)
get_or-set (x ∷ xs) (suc i) v zero h = refl
get_or-set (x ∷ xs) (suc i) v (suc j) h = get_or-set xs i v j (omega arith)

pub length-in_order : (i m : ℕ) → length (in_order i m) ≡ m
unfolding in_order
length-in_order i zero = refl
length-in_order i (suc m) = ap suc (length-in_order (suc i) m)

pub free_place :
    (xs : List ℕ)
    → get_or xs 0 0 ≡ 0
    → 1 < count 0 xs
    → (j : ℕ) × (suc j < length xs) × (get_or xs (suc j) 0 ≡ 0)
unfolding count
free_place [] e h = absurd (omega arith)
free_place (x ∷ xs) e h =
    let (j, low, there) = count-found 0 xs (ground (arith, e, h)) in (j, omega arith, there)

le_or_gt : (n x : ℕ) → (n ≤ x) ⊎ (x < n)
le_or_gt n x = ground arith

pub EachOnce-below : (n : ℕ) (order : List ℕ) → EachOnce n order → All (λ c. c < n) order
unfolding count
EachOnce-below n order each = below order each.no_other
  where
    low : (x : ℕ) (xs : List ℕ) → ((c : ℕ) → n ≤ c → count c (x ∷ xs) ≡ 0) → x < n
    low x xs h = elim (le_or_gt n x) [ inl le ↦ absurd (ground (arith, h x le)) | inr gt ↦ gt ]

    below : (xs : List ℕ) → ((c : ℕ) → n ≤ c → count c xs ≡ 0) → All (λ c. c < n) xs
    below [] h = tt
    below (x ∷ xs) h = (low x xs h, below xs (λ c le. omega (arith, h c le)))

in_order_ext_from :
    (i n : ℕ) (xs : List ℕ)
    → length xs ≡ n
    → ((j : ℕ) → j < n → get_or xs j 0 ≡ i + j)
    → xs ≡ in_order i n
unfolding in_order
in_order_ext_from i zero [] len h = refl
in_order_ext_from i zero (x ∷ xs) len h = absurd (omega (arith, len))
in_order_ext_from i (suc n) [] len h = absurd (omega (arith, len))
in_order_ext_from i (suc n) (x ∷ xs) len h =
    let here : x ≡ i = omega (arith, h 0 (omega arith)) in
    let later : xs ≡ in_order (suc i) n =
      in_order_ext_from (suc i) n xs (omega (arith, len))
        (λ j low. omega (arith, h (suc j) (omega (arith, low)))) in
    rw (here, later) refl

-- The ascending order is known by its elements.
pub in_order_ext :
    (n : ℕ) (xs : List ℕ)
    → length xs ≡ n
    → ((j : ℕ) → j < n → get_or xs j 0 ≡ j)
    → xs ≡ in_order 0 n
in_order_ext n xs len h = in_order_ext_from 0 n xs len (λ j low. h j low ∙ omega arith)

pub get_or-in_order : (i m j : ℕ) → j < m → get_or (in_order i m) j 0 ≡ i + j
unfolding in_order
get_or-in_order i zero j h = absurd (omega arith)
get_or-in_order i (suc m) zero h = omega arith
get_or-in_order i (suc m) (suc j) h = omega (arith, get_or-in_order (suc i) m j (omega arith))
