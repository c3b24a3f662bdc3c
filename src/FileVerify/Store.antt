-- ===== src/FileVerify/Store.antt =====
-- A sequence of `do_write_chunk`s of file_verify.c, and the chunks that the file then holds.
use native.Mathlib.Nat.{mul-le-mul_right, mod-eq_of_lt}
use ocfs2_test.Kernel.Slices.{get_or-slice, length-slice, splice_in, splice_out}
use ocfs2_test.Common.{
  ℕ, suc, ◌+◌, ◌-◌, ◌*◌, ◌%◌, ◌^◌, ◌≤◌, ◌<◌, ◌≡◌, ◌≢◌, ◌⊎◌, inl, inr, refl, ◌∙◌, sym, ap, subst,
  List, [], ◌∷◌, Option, some, All, get_or, length, ◌==◌, if◌then◌else◌, Result, ok, ◌>>=◌, arith,
  max, Bool-cases,
}
use ocfs2_test.Kernel.{Kernel, slice, splice}
use ocfs2_test.FileVerify.{WriteRecord}
use ocfs2_test.FileVerify.Pattern.{fill_chunk_pattern}
use ocfs2_test.FileVerify.Pattern.Layout.{IsSound}
use ocfs2_test.FileVerify.Transfer.{do_write_chunk}
use ocfs2_test.FileVerify.Transfer.Partial.{Puts, Puts-write_at}
use ocfs2_test.FileVerify.Verify.Held.{Holds}

-- The writes of some write units, one after the other.
unfoldable pub do_writes :
    (k : Kernel) → ℕ → ℕ → (ℕ → ℕ) → List WriteRecord → k.Disk → Result k.Disk
do_writes k f align tmp [] d = ok d
do_writes k f align tmp (wu ∷ wus) d =
    do_write_chunk k f align tmp wu d >>= λ d'. do_writes k f align tmp wus d'

-- A write unit of one of `n` chunks of `chunksize` bytes.
pub record IsUnit (n chunksize : ℕ) (wu : WriteRecord) : Type 0 where
  pub sound : IsSound wu
  pub char_fits : wu.char < 256
  pub size_same : wu.chunksize ≡ chunksize
  pub inside : wu.chunk_no < n
  pub no_wrap : chunksize * wu.chunk_no < 2 ^ 64

-- Where the writes of a disk go: the `j`-th one, of chunk `c`, to the chunk `slot j c`. `Sized j` holds
-- of the size of the file before it.
pub record Lands (k : Kernel) (contents : k.Disk → ℕ → ℕ) (size : k.Disk → ℕ)
    (place : ℕ → k.Disk → ℕ) (n chunksize : ℕ) (slot : ℕ → ℕ → ℕ) (Sized : ℕ → ℕ → Type 0)
    : Type 0 where
  pub puts : Puts k contents place (λ d e d'. size d' ≡ max (size d) e)
  pub lands :
      (j c : ℕ) (d : k.Disk) → Sized j (size d) → place (chunksize * c) d ≡ chunksize * slot j c
  pub grows :
      (j c s : ℕ) → c < n → Sized j s → Sized (suc j) (max s (chunksize * slot j c + chunksize))

-- The chunks that are written, with the write unit that came last.
unfoldable pub store :
    (ℕ → ℕ → ℕ) → ℕ → List WriteRecord → (ℕ → Option WriteRecord) → ℕ → Option WriteRecord
store slot j [] m = m
store slot j (wu ∷ wus) m =
    store slot (suc j) wus (λ s. if slot j wu.chunk_no == s then some wu else m s)

chunks_apart : (n a b q : ℕ) → a ≢ b → q < n → (n * a + q < n * b) ⊎ (n * b + n ≤ n * a + q)
chunks_apart n a b q ne low = elim (trichotomy a b) [
  | inl lt ↦ inl (omega (arith, low, mul-le-mul_right {m = suc a} {n = b} n lt))
  | inr (inl e) ↦ absurd (ne e)
  | inr (inr gt) ↦ inr (omega (arith, low, mul-le-mul_right {m = suc b} {n = a} n gt))
]
  where
    trichotomy : (a b : ℕ) → (suc a ≤ b) ⊎ ((a ≡ b) ⊎ (suc b ≤ a))
    trichotomy a b = ground arith

module _ (k : Kernel) (contents : k.Disk → ℕ → ℕ) (size : k.Disk → ℕ) (place : ℕ → k.Disk → ℕ)
    (n chunksize : ℕ) (slot : ℕ → ℕ → ℕ) (Sized : ℕ → ℕ → Type 0)
    (lands : Lands k contents size place n chunksize slot Sized) (f align : ℕ) (tmp : ℕ → ℕ)
    (le : chunksize ≤ f) where
  -- What `do_writes` has put into the file.
  abbrev Stored : (ℕ → Option WriteRecord) → k.Disk → Type 0
  Stored m d =
      (s : ℕ) (wu : WriteRecord) → m s ≡ some wu → Holds (contents d) (size d) chunksize s wu

  write_one :
      (j : ℕ) (wu : WriteRecord) (d : k.Disk) (m : ℕ → Option WriteRecord)
      → Sized j (size d)
      → IsUnit n chunksize wu
      → Stored m d
      → (d' : k.Disk) × (do_write_chunk k f align tmp wu d ≡ ok d')
        × Sized (suc j) (size d')
        × Stored (λ s. if slot j wu.chunk_no == s then some wu else m s) d'
  unfolding do_write_chunk
  write_one j wu d m sized u stored =
      let (d', e, now, grew) =
        Puts-write_at k contents place (λ d e d'. size d' ≡ max (size d) e) lands.puts f buf
          (wu.chunksize * wu.chunk_no % 2 ^ 64) d (omega (arith, len, u.sound.room, u.size_same))
          (omega (arith, len, le)) in
      let grown : size d' ≡ max (size d) (chunksize * slot j wu.chunk_no + chunksize) =
        rw (grew, at, len) refl in
      (
        d',
        e,
        subst (Sized (suc j)) (sym grown) (lands.grows j wu.chunk_no (size d) u.inside sized),
        λ s v here. elim (Bool-cases (slot j wu.chunk_no == s)) [
          | inl this ↦
              (let same : wu ≡ v = injective wu v (rw this at here) in
                let here_now : slot j wu.chunk_no ≡ s = ground (arith, this) in
                subst (λ z. Holds (contents d') (size d') chunksize z v) here_now
                  (subst (Holds (contents d') (size d') chunksize (slot j wu.chunk_no)) same
                    (fresh d' now grown)))
          | inr other ↦
              kept d' now grown s v (ground (arith, other)) (stored s v (rw other at here))
        ],
      )
    where
      pattern : ℕ → ℕ
      pattern = (fill_chunk_pattern align tmp wu).0

      buf : List ℕ
      buf = slice pattern 0 wu.chunksize

      len : length buf ≡ chunksize
      len = length-slice pattern 0 wu.chunksize ∙ u.size_same

      at : place (wu.chunksize * wu.chunk_no % 2 ^ 64) d ≡ chunksize * slot j wu.chunk_no
      at =
          let e : wu.chunksize * wu.chunk_no % 2 ^ 64 ≡ chunksize * wu.chunk_no =
            mod-eq_of_lt (rw (u.size_same) u.no_wrap) ∙ ap (λ z. z * wu.chunk_no) u.size_same in
          ap (λ z. place z d) e ∙ lands.lands j wu.chunk_no d sized

      injective : (a b : WriteRecord) → some a ≡ some b → a ≡ b
      injective a b e = cc

      p : ℕ
      p = chunksize * slot j wu.chunk_no

      lands_at :
          (m : ℕ → ℕ) (i : ℕ)
          → splice m (place (wu.chunksize * wu.chunk_no % 2 ^ 64) d) buf i ≡ splice m p buf i
      lands_at m i = ap (λ z. splice m z buf i) at

      fresh :
          (d' : k.Disk)
          → ((i : ℕ)
              → contents d' i
                ≡ splice (contents d) (place (wu.chunksize * wu.chunk_no % 2 ^ 64) d) buf i)
          → size d' ≡ max (size d) (p + chunksize)
          → Holds (contents d') (size d') chunksize (slot j wu.chunk_no) wu
      fresh d' now grown = record {
        sound = u.sound;
        char_fits = u.char_fits;
        size_same = u.size_same;
        inside = omega (arith, grown);
        align = align;
        tmp = tmp;
        bytes_same = λ q low.
            let q' : p + q - p ≡ q = omega arith in
            let q0 : 0 + q ≡ q = omega arith in
            now (p + q)
            ∙ lands_at (contents d) (p + q)
            ∙ splice_in (contents d) p buf (p + q) (omega arith) (omega (arith, low, len))
            ∙ ap (λ z. get_or buf z 0) q'
            ∙ get_or-slice pattern 0 wu.chunksize q (omega (arith, low, u.size_same))
            ∙ ap pattern q0;
      }

      kept :
          (d' : k.Disk)
          → ((i : ℕ)
              → contents d' i
                ≡ splice (contents d) (place (wu.chunksize * wu.chunk_no % 2 ^ 64) d) buf i)
          → size d' ≡ max (size d) (p + chunksize)
          → (s : ℕ) (v : WriteRecord) → s ≢ slot j wu.chunk_no
          → Holds (contents d) (size d) chunksize s v
          → Holds (contents d') (size d') chunksize s v
      kept d' now grown s v apart h = record {
        sound = h.sound;
        char_fits = h.char_fits;
        size_same = h.size_same;
        inside = omega (arith, grown, h.inside);
        align = h.align;
        tmp = h.tmp;
        bytes_same = λ q low.
            now (chunksize * s + q)
            ∙ lands_at (contents d) (chunksize * s + q)
            ∙ splice_out (contents d) p buf (chunksize * s + q)
                (rw len (chunks_apart chunksize s (slot j wu.chunk_no) q apart low))
            ∙ h.bytes_same q low;
      }

  -- `do_writes` does not fail, and the file then holds what `store` says.
  pub do_writes_lem :
      (j : ℕ) (wus : List WriteRecord) (d : k.Disk) (m : ℕ → Option WriteRecord)
      → Sized j (size d)
      → All (IsUnit n chunksize) wus
      → Stored m d
      → (d' : k.Disk) × (do_writes k f align tmp wus d ≡ ok d')
        × Sized (length wus + j) (size d')
        × Stored (store slot j wus m) d'
  unfolding do_writes store
  do_writes_lem j [] d m sized us stored =
      let at : j ≡ 0 + j = omega arith in (d, refl, subst (λ z. Sized z (size d)) at sized, stored)
  do_writes_lem j (wu ∷ wus) d m sized (u, us) stored =
      let (d1, e1, sized1, stored1) = write_one j wu d m sized u stored in
      let (d2, e2, sized2, stored2) =
        do_writes_lem (suc j) wus d1 (λ s. if slot j wu.chunk_no == s then some wu else m s) sized1
          us stored1 in
      let at : length wus + suc j ≡ suc (length wus) + j = omega arith in
      (d2, rw e1 e2, subst (λ z. Sized z (size d2)) at sized2, stored2)
