-- ===== src/FileVerify/Prepared.antt =====
-- `prep_orig_file_in_chunks` of file_verify.c as a sequence of writes, and what later writes leave of each
-- chunk.
use native.Mathlib.Nat.{mul-le-mul_right}
use ocfs2_test.Common.{
  ℕ, zero, suc, ◌+◌, ◌*◌, ◌^◌, ◌≤◌, ◌<◌, ◌≡◌, ◌⊎◌, inl, inr, refl, ◌∙◌, ap, true, false, List, [],
  ◌∷◌, Option, none, some, All, leb, ltb, ◌==◌, if◌then◌else◌, add64, bind-ok, ok, arith,
  Bool-cases,
}
use ocfs2_test.Kernel.{Kernel}
use ocfs2_test.FileVerify.{WriteRecord}
use ocfs2_test.FileVerify.Pattern.{fill_chunk_pattern}
use ocfs2_test.FileVerify.Prepare.{prep_rand_dest_write_unit, prep_chunks}
use ocfs2_test.FileVerify.Records.Laws.{newest}
use ocfs2_test.FileVerify.Store.{store, do_writes}
use ocfs2_test.FileVerify.Transfer.{do_write_chunk}
use ocfs2_test.FileVerify.Units.{units}
use ocfs2_test.FileVerify.Verify.Log.{blank_record}

-- The times do not decrease.
abbrev pub InTime : List WriteRecord → Type 0
InTime [] = Unit
InTime (wu ∷ wus) = All (λ v. wu.timestamp ≤ v.timestamp) wus × InTime wus

-- What a sequence of writes leaves of a chunk is what its log says.
pub store-newest :
    (P : WriteRecord → Type 0) (c j : ℕ) (wus : List WriteRecord) (m : ℕ → Option WriteRecord)
    (w : WriteRecord)
    → All P wus
    → All (λ v. w.timestamp ≤ v.timestamp) wus
    → InTime wus
    → ((store (λ j c. c) j wus m c ≡ m c) × (newest c wus w ≡ w))
      ⊎ ((v : WriteRecord) × P v × (store (λ j c. c) j wus m c ≡ some v) × (newest c wus w ≡ v))
unfolding store newest
store-newest P c j [] m w ps later times = inl (refl, refl)
store-newest P c j (wu ∷ wus) m w (p, ps) (le, later) (le', times) =
    elim (Bool-cases (wu.chunk_no == c)) [
      | inl here ↦
          (let newer : leb w.timestamp wu.timestamp ≡ true = ground (arith, le) in
            rw (here, newer)
              (elim (store-newest P c (suc j) wus m' wu ps le' times) [
                | inl (last, e) ↦ inr (wu, p, last ∙ rw here refl, e)
                | inr (v, p', e, e') ↦ inr (v, p', e, e')
              ]))
      | inr there ↦ rw there (elim (store-newest P c (suc j) wus m' w ps later times) [
        | inl (last, e) ↦ inl (last ∙ rw there refl, e)
        | inr (v, p', e, e') ↦ inr (v, p', e, e')
      ])
    ]
  where
    m' : ℕ → Option WriteRecord
    m' s = if wu.chunk_no == s then some wu else m s

pub numbers_from : ℕ → ℕ → List ℕ
numbers_from c zero = []
numbers_from c (suc m) = c ∷ numbers_from (suc c) m

pub numbers_below : (c m n : ℕ) → c + m ≤ n → All (λ z. z < n) (numbers_from c m)
unfolding numbers_from
numbers_below c zero n h = tt
numbers_below c (suc m) n h = (omega (arith, h), numbers_below (suc c) m n (omega (arith, h)))

abbrev pub or_blank : Option WriteRecord → WriteRecord
or_blank none = blank_record 0 0
or_blank (some wu) = wu

module _ (align : ℕ) (tmp stream : ℕ → ℕ) (clock : ℕ → ℕ × ℕ) (chunksize : ℕ) where
  abbrev pub prepared : ℕ → ℕ → ℕ → ℕ → List WriteRecord
  prepared c m r t = units align tmp stream clock chunksize (numbers_from c m) r t

  -- The prepared chunks have their own numbers.
  store_before :
      (c m r t j s : ℕ) (mm : ℕ → Option WriteRecord)
      → s < c
      → store (λ j c. c) j (prepared c m r t) mm s ≡ mm s
  unfolding store units numbers_from prep_rand_dest_write_unit fill_chunk_pattern
  store_before c zero r t j s mm h = refl
  store_before c (suc m) r t j s mm h =
      let other : (c == s) ≡ false = ground (arith, h) in
      store_before (suc c) m (suc r) (suc t) (suc j) s
        (λ s'.
          if c == s'
          then some (prep_rand_dest_write_unit stream clock align tmp r t c chunksize)
          else mm s')
        (omega arith)
      ∙ rw other refl

  pub store-prepared :
      (c m r t j s : ℕ) (mm : ℕ → Option WriteRecord)
      → c ≤ s
      → s < c + m
      → (v : WriteRecord) × (store (λ j c. c) j (prepared c m r t) mm s ≡ some v) × (v.chunk_no ≡ s)
  unfolding store units numbers_from prep_rand_dest_write_unit fill_chunk_pattern
  store-prepared c zero r t j s mm lo hi = absurd (omega arith)
  store-prepared c (suc m) r t j s mm lo hi = elim (Bool-cases (c == s)) [
    | inl here ↦ (
      prep_rand_dest_write_unit stream clock align tmp r t c chunksize,
      store_before (suc c) m (suc r) (suc t) (suc j) s mm' (ground (arith, here)) ∙ rw here refl,
      ground (arith, here),
    )
    | inr later ↦
        store-prepared (suc c) m (suc r) (suc t) (suc j) s mm' (ground (arith, later, lo))
          (omega arith)
  ]
    where
      mm' : ℕ → Option WriteRecord
      mm' s' =
          if c == s'
          then some (prep_rand_dest_write_unit stream clock align tmp r t c chunksize)
          else mm s'

  pub prep_chunks-do_writes :
      (k : Kernel) (f g n c m r t : ℕ) (d d' : k.Disk)
      → 0 < chunksize
      → chunksize * n + chunksize < 2 ^ 64
      → c + m ≡ n
      → m < g
      → do_writes k f align tmp (prepared c m r t) d ≡ ok d'
      → prep_chunks k f align tmp stream clock g (chunksize * n) chunksize (chunksize * c) c r t d
        ≡ ok (some d')
  unfolding prep_chunks do_writes units numbers_from
  prep_chunks-do_writes k f zero n c m r t d d' pos fits all more e = absurd (omega arith)
  prep_chunks-do_writes k f (suc g) n c zero r t d d' pos fits all more e =
      let same : chunksize * c ≡ chunksize * n = ap (λ z. chunksize * z) (omega (arith, all)) in
      let done : ltb (chunksize * c) (chunksize * n) ≡ false = ground (arith, same) in
      rw done (ap (λ z. ok (some z)) (ok-injective d d' e))
    where
      ok-injective : (a b : k.Disk) → ok a ≡ ok b → a ≡ b
      ok-injective a b e = cc
  prep_chunks-do_writes k f (suc g) n c (suc m) r t d d' pos fits all more e =
      let inside = mul-le-mul_right {m = suc c} {n = n} chunksize (omega (arith, all)) in
      let going : ltb (chunksize * c) (chunksize * n) ≡ true = ground (arith, inside, pos) in
      let next : add64 (chunksize * c) chunksize ≡ chunksize * suc c =
        omega (arith, inside, fits) in
      let (d1, e1, e2) =
        bind-ok
          (do_write_chunk k f align tmp
            (prep_rand_dest_write_unit stream clock align tmp r t c chunksize) d)
          (λ d1. do_writes k f align tmp (prepared (suc c) m (suc r) (suc t)) d1) d' e in
      rw (going, e1, next)
        (prep_chunks-do_writes k f g n (suc c) m (suc r) (suc t) d1 d' pos fits (omega (arith, all))
          (omega (arith, more)) e2)
