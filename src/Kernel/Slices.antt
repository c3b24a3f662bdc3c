-- ===== src/Kernel/Slices.antt =====
-- Lemmas on stretches of a file: `slice`, `splice`, and lists of bytes indexed.
use ocfs2_test.Common.{
  ℕ, zero, suc, ◌+◌, ◌-◌, ◌≤◌, ◌<◌, ◌≡◌, refl, ◌∙◌, ap, subst, List, [], ◌∷◌, ◌++◌, length, get_or,
  replicate, take, drop, arith, ◌⊎◌, inl, inr,
}
use ocfs2_test.Kernel.{slice, splice}

pub get_or-replicate : (n c i : ℕ) → i < n → get_or (replicate n c) i 0 ≡ c
get_or-replicate zero c i h = absurd (omega arith)
get_or-replicate (suc n) c zero h = refl
get_or-replicate (suc n) c (suc i) h = get_or-replicate n c i (omega arith)

pub slice_ext :
    (m m' : ℕ → ℕ) (off n : ℕ)
    → ((i : ℕ) → off ≤ i → i < off + n → m i ≡ m' i)
    → slice m off n ≡ slice m' off n
unfolding slice
slice_ext m m' off zero h = refl
slice_ext m m' off (suc n) h =
    rw
      (
        h off (omega arith) (omega arith),
        slice_ext m m' (suc off) n (λ i a b. h i (omega arith) (omega arith)),
      )
      refl

-- Equal slices have equal bytes.
pub slice_inv :
    (m m' : ℕ → ℕ) (off n i : ℕ)
    → slice m off n ≡ slice m' off n
    → off ≤ i
    → i < off + n
    → m i ≡ m' i
unfolding slice
slice_inv m m' off zero i e a b = absurd (omega arith)
slice_inv m m' off (suc n) i e a b = elim first [
  | inl h ↦ rw h (ap (λ xs. get_or xs 0 0) e)
  | inr h ↦ slice_inv m m' (suc off) n i (ap tail e) h (omega arith)
]
  where
    tail : List ℕ → List ℕ
    tail [] = []
    tail (x ∷ xs) = xs

    first : (i ≡ off) ⊎ (suc off ≤ i)
    first = ground (arith, a)

-- What was just written, and what is apart from it.
pub splice_in :
    (m : ℕ → ℕ) (off : ℕ) (bs : List ℕ) (i : ℕ)
    → off ≤ i
    → i < off + length bs
    → splice m off bs i ≡ get_or bs (i - off) 0
splice_in m off bs i a b = ground arith

pub splice_out :
    (m : ℕ → ℕ) (off : ℕ) (bs : List ℕ) (i : ℕ)
    → (i < off) ⊎ (off + length bs ≤ i)
    → splice m off bs i ≡ m i
splice_out m off bs i h = ground arith

pub slice_list :
    (m : ℕ → ℕ) (bs : List ℕ) (off : ℕ)
    → ((i : ℕ) → i < length bs → m (off + i) ≡ get_or bs i 0)
    → slice m off (length bs) ≡ bs
unfolding slice
slice_list m [] off h = refl
slice_list m (b ∷ bs) off h = rw (at_head, slice_list m bs (suc off) later) refl
  where
    at_head : m off ≡ b
    at_head = subst (λ z. m z ≡ b) (omega arith) (h 0 (omega arith))

    later : (i : ℕ) → i < length bs → m (suc off + i) ≡ get_or bs i 0
    later i l = subst (λ z. m z ≡ get_or bs i 0) (omega arith) (h (suc i) (omega arith))

pub slice-splice :
    (m : ℕ → ℕ) (off : ℕ) (bs : List ℕ) → slice (splice m off bs) off (length bs) ≡ bs
slice-splice m off bs = slice_list (splice m off bs) bs off (λ i h.
    splice_in m off bs (off + i) (omega arith) (omega arith)
    ∙ ap (λ z. get_or bs z 0) (omega arith))

pub slice-splice_apart :
    (m : ℕ → ℕ) (off : ℕ) (bs : List ℕ) (o n : ℕ)
    → (o + n ≤ off) ⊎ (off + length bs ≤ o)
    → slice (splice m off bs) o n ≡ slice m o n
slice-splice_apart m off bs o n h = slice_ext (splice m off bs) m o n (λ i a b. ground arith)

pub length-slice : (file : ℕ → ℕ) (off n : ℕ) → length (slice file off n) ≡ n
unfolding slice
length-slice file off zero = refl
length-slice file off (suc n) = ap suc (length-slice file (suc off) n)

pub slice-append :
    (file : ℕ → ℕ) (off n m : ℕ)
    → slice file off n ++ slice file (off + n) m ≡ slice file off (n + m)
unfolding slice
slice-append file off zero m =
    let e : off + 0 ≡ off = omega arith in let e' : 0 + m ≡ m = omega arith in rw (e, e') refl
slice-append file off (suc n) m =
    let e : off + suc n ≡ suc off + n = omega arith in
    let e' : suc n + m ≡ suc (n + m) = omega arith in
    rw (e, e', slice-append file (suc off) n m) refl

pub get_or-take : (buf : List ℕ) (n i : ℕ) → i < n → get_or (take n buf) i 0 ≡ get_or buf i 0
get_or-take buf zero i h = absurd (omega arith)
get_or-take [] (suc n) i h = refl
get_or-take (b ∷ bs) (suc n) zero h = refl
get_or-take (b ∷ bs) (suc n) (suc i) h = get_or-take bs n i (omega arith)

pub get_or-drop : (buf : List ℕ) (n i : ℕ) → n ≤ i → get_or (drop n buf) (i - n) 0 ≡ get_or buf i 0
get_or-drop buf zero i h = let e : i - 0 ≡ i = omega arith in rw e refl
get_or-drop [] (suc n) i h = refl
get_or-drop (b ∷ bs) (suc n) zero h = absurd (omega arith)
get_or-drop (b ∷ bs) (suc n) (suc i) h =
    let e : suc i - suc n ≡ i - n = omega arith in rw e (get_or-drop bs n i (omega arith))

pub get_or-slice : (m : ℕ → ℕ) (off n i : ℕ) → i < n → get_or (slice m off n) i 0 ≡ m (off + i)
unfolding slice
get_or-slice m off zero i h = absurd (omega arith)
get_or-slice m off (suc n) zero h = let e : off + 0 ≡ off = omega arith in rw e refl
get_or-slice m off (suc n) (suc i) h =
    let e : off + suc i ≡ suc off + i = omega arith in
    rw e (get_or-slice m (suc off) n i (omega arith))

pub splice_cong :
    (m m' : ℕ → ℕ) (off : ℕ) (bs : List ℕ) (i : ℕ)
    → m i ≡ m' i
    → splice m off bs i ≡ splice m' off bs i
splice_cong m m' off bs i h = ground (arith, h)

pub get_or-append_left :
    (xs ys : List ℕ) (i : ℕ) → i < length xs → get_or (xs ++ ys) i 0 ≡ get_or xs i 0
get_or-append_left [] ys i h = absurd (omega arith)
get_or-append_left (x ∷ xs) ys zero h = refl
get_or-append_left (x ∷ xs) ys (suc i) h = get_or-append_left xs ys i (omega arith)

pub get_or-append_right :
    (xs ys : List ℕ) (i : ℕ) → length xs ≤ i → get_or (xs ++ ys) i 0 ≡ get_or ys (i - length xs) 0
get_or-append_right [] ys i h = let e : i - 0 ≡ i = omega arith in rw e refl
get_or-append_right (x ∷ xs) ys zero h = absurd (omega arith)
get_or-append_right (x ∷ xs) ys (suc i) h =
    let e : suc i - suc (length xs) ≡ i - length xs = omega arith in
    rw e (get_or-append_right xs ys i (omega arith))

pub slice-replicate :
    (m : ℕ → ℕ) (off n c : ℕ)
    → ((i : ℕ) → off ≤ i → i < off + n → m i ≡ c)
    → slice m off n ≡ replicate n c
unfolding slice
slice-replicate m off zero c h = refl
slice-replicate m off (suc n) c h =
    let later : slice m (suc off) n ≡ replicate n c =
      slice-replicate m (suc off) n c (λ i a b. h i (omega arith) (omega arith)) in
    rw (h off (omega arith) (omega arith), later) refl

pub slice_head : (m : ℕ → ℕ) (off n c : ℕ) → 0 < n → slice m off n ≡ replicate n c → m off ≡ c
unfolding slice
slice_head m off zero c pos e = absurd (omega arith)
slice_head m off (suc n) c pos e = ap (λ l. get_or l 0 0) e
