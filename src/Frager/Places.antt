-- ===== src/Frager/Places.antt =====
-- Which write of frager.c each chunk of its file has, where the writes land at their offsets and where
-- they are appended, and which line of the log counts for the chunk.
use ocfs2_test.Common.{
  ℕ, zero, suc, ◌+◌, ◌<◌, ◌≡◌, ◌≢◌, refl, ◌∙◌, ap, true, false, List, [], ◌∷◌, map, Option, none,
  some, get_or, get_elem?, leb, ◌==◌, if◌then◌else◌, arith, inl, inr, ◌⊎◌,
}
use ocfs2_test.FileVerify.{WriteRecord}
use ocfs2_test.FileVerify.Records.Laws.{newest}
use ocfs2_test.FileVerify.Store.{store}
use ocfs2_test.Frager.Order.Count.{count}

abbrev pub chunk_nos : List WriteRecord → List ℕ
chunk_nos wus = map (λ wu. wu.chunk_no) wus

pub get_or-chunk_nos :
    (wus : List WriteRecord) (i : ℕ) (wu : WriteRecord)
    → get_elem? wus i ≡ some wu
    → get_or (chunk_nos wus) i 0 ≡ wu.chunk_no
get_or-chunk_nos [] i wu e = absurd (none-some e)
  where
    none-some : none ≢ some wu
    none-some e = cc
get_or-chunk_nos (v ∷ wus) zero wu e = ap (λ w. w.chunk_no) (injective v wu e)
  where
    injective : (a b : WriteRecord) → some a ≡ some b → a ≡ b
    injective a b e = cc
get_or-chunk_nos (v ∷ wus) (suc i) wu e = get_or-chunk_nos wus i wu e

-- The `j`-th write is in the `j`-th place.
store_below :
    (i j : ℕ) (wus : List WriteRecord) (m : ℕ → Option WriteRecord)
    → i < j
    → store (λ j c. j) j wus m i ≡ m i
unfolding store
store_below i j [] m h = refl
store_below i j (wu ∷ wus) m h =
    let other : (j == i) ≡ false = ground (arith, h) in
    store_below i (suc j) wus (λ s. if j == s then some wu else m s) (omega arith) ∙ rw other refl

pub store-at_end :
    (i j : ℕ) (wus : List WriteRecord) (m : ℕ → Option WriteRecord) (wu : WriteRecord)
    → get_elem? wus i ≡ some wu
    → store (λ j c. j) j wus m (j + i) ≡ some wu
unfolding store
store-at_end i j [] m wu e = absurd (none-some e)
  where
    none-some : none ≢ some wu
    none-some e = cc
store-at_end zero j (v ∷ wus) m wu e =
    let at : j + 0 ≡ j = omega arith in
    let same : (j == j) ≡ true = ground arith in
    rw at
      (store_below j (suc j) wus (λ s. if j == s then some v else m s) (omega arith) ∙ rw same e)
store-at_end (suc i) j (v ∷ wus) m wu e =
    let at : j + suc i ≡ suc j + i = omega arith in
    rw at (store-at_end i (suc j) wus (λ s. if j == s then some v else m s) wu e)

-- The one write of a chunk is in its place, and is the one that counts in the log.
store_absent :
    (c j : ℕ) (wus : List WriteRecord) (m : ℕ → Option WriteRecord)
    → count c (chunk_nos wus) ≡ 0
    → store (λ j c. c) j wus m c ≡ m c
unfolding store count
store_absent c j [] m h = refl
store_absent c j (wu ∷ wus) m h =
    let other : (wu.chunk_no == c) ≡ false = ground (arith, h) in
    store_absent c (suc j) wus (λ s. if wu.chunk_no == s then some wu else m s) (ground (arith, h))
    ∙ rw other refl

newest_absent :
    (c : ℕ) (wus : List WriteRecord) (w : WriteRecord)
    → count c (chunk_nos wus) ≡ 0
    → newest c wus w ≡ w
unfolding newest count
newest_absent c [] w h = refl
newest_absent c (wu ∷ wus) w h =
    let other : (wu.chunk_no == c) ≡ false = ground (arith, h) in
    rw other (newest_absent c wus w (ground (arith, h)))

none-some : (wu : WriteRecord) → none ≢ some wu
none-some wu e = cc

some-injective : (a b : WriteRecord) → some a ≡ some b → a ≡ b
some-injective a b e = cc

module _ (c : ℕ) (wu : WriteRecord) (at : wu.chunk_no ≡ c) where
  counted :
      (i : ℕ) (wus : List WriteRecord) → get_elem? wus i ≡ some wu → 0 < count c (chunk_nos wus)
  unfolding count
  counted i [] e = absurd (none-some wu e)
  counted zero (v ∷ wus) e =
      let here : v.chunk_no ≡ c = ap (λ w. w.chunk_no) (some-injective v wu e) ∙ at in
      ground (arith, here)
  counted (suc i) (v ∷ wus) e = omega (arith, counted i wus e)

  -- The write at the head of the log is the one of this chunk, or it is one of another chunk.
  head_or_tail :
      (i : ℕ) (v : WriteRecord) (wus : List WriteRecord)
      → count c (chunk_nos (v ∷ wus)) ≡ 1
      → get_elem? (v ∷ wus) i ≡ some wu
      → ((v ≡ wu) × (v.chunk_no ≡ c) × (count c (chunk_nos wus) ≡ 0))
        ⊎ ((i' : ℕ) × (v.chunk_no ≢ c)
            × (count c (chunk_nos wus) ≡ 1)
            × (get_elem? wus i' ≡ some wu))
  unfolding count
  head_or_tail zero v wus once e =
      let here : v.chunk_no ≡ c = ap (λ w. w.chunk_no) (some-injective v wu e) ∙ at in
      inl (some-injective v wu e, here, ground (arith, here, once))
  head_or_tail (suc i) v wus once e =
      let some_later = counted i wus e in
      let apart : v.chunk_no ≢ c = λ h. ground (arith, h, once, some_later) in
      inr (i, apart, ground (arith, apart, once), e)

  pub store-at_offset :
      (i j : ℕ) (wus : List WriteRecord) (m : ℕ → Option WriteRecord)
      → count c (chunk_nos wus) ≡ 1
      → get_elem? wus i ≡ some wu
      → store (λ j c. c) j wus m c ≡ some wu
  unfolding store
  store-at_offset i j [] m once e = absurd (none-some wu e)
  store-at_offset i j (v ∷ wus) m once e = elim (head_or_tail i v wus once e) [
    | inl (same, here, no_more) ↦
        (let now : (v.chunk_no == c) ≡ true = ground (arith, here) in
          store_absent c (suc j) wus (λ s. if v.chunk_no == s then some v else m s) no_more
          ∙ rw now (ap (λ w. some w) same))
    | inr (i', apart, once', later) ↦
        store-at_offset i' (suc j) wus (λ s. if v.chunk_no == s then some v else m s) once' later
  ]

  pub newest_once :
      (i : ℕ) (wus : List WriteRecord) (w : WriteRecord)
      → count c (chunk_nos wus) ≡ 1
      → w.timestamp ≡ 0
      → get_elem? wus i ≡ some wu
      → newest c wus w ≡ wu
  unfolding newest
  newest_once i [] w once blank e = absurd (none-some wu e)
  newest_once i (v ∷ wus) w once blank e = elim (head_or_tail i v wus once e) [
    | inl (same, here, no_more) ↦
        (let now : (v.chunk_no == c) ≡ true = ground (arith, here) in
          let later : leb w.timestamp v.timestamp ≡ true = ground (arith, blank) in
          rw (now, later) (newest_absent c wus v no_more ∙ same))
    | inr (i', apart, once', later) ↦
        (let other : (v.chunk_no == c) ≡ false = ground (arith, apart) in
          rw other (newest_once i' wus w once' blank later))
  ]
