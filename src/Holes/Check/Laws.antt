-- ===== src/Holes/Check/Laws.antt =====
-- What `vh_check_chunk` and `vh_check_file` accept.
use ocfs2_test.Common.{
  ℕ, zero, suc, ◌+◌, ◌-◌, ◌%◌, ◌≤◌, ◌<◌, ◌^◌, ◌≡◌, refl, ◌∙◌, ap, true, ◌&&◌, List, [], ◌∷◌, ltb,
  ◌==◌, if◌then◌else◌, length, min, ok, All, arith, ◌↔◌, ℕ_discrete, dec_lt,
}
use ocfs2_test.Holes.{WriteUnit, max_write_size}
use ocfs2_test.Holes.Extent.{end_of, IsExtent}
use ocfs2_test.Kernel.{Read, bytes}
use ocfs2_test.Holes.Check.{
  Verdict, good, read_error, premature_end, short_read, mismatch, all_chars, check_from,
  check_chunk, check_file, slice, Reads,
}

length-slice : (file : ℕ → ℕ) (off n : ℕ) → length (slice file off n) ≡ n
unfolding slice
length-slice file off zero = refl
length-slice file off (suc n) = ap suc (length-slice file (suc off) n)

all_chars-slice :
    (c : ℕ) (file : ℕ → ℕ) (off n : ℕ)
    → all_chars c (slice file off n) ≡ true
    → (p : ℕ) → off ≤ p
    → p < off + n
    → file p ≡ c
unfolding slice all_chars
all_chars-slice c file off zero h p lo hi = absurd (omega arith)
all_chars-slice c file off (suc n) h p lo hi = elim (ℕ_discrete off p) [
  | yes e ↦ rw (← e) (ground arith)
  | no ne ↦ all_chars-slice c file (suc off) n (ground arith) p (omega arith) (omega arith)
]

slice-all_chars :
    (c : ℕ) (file : ℕ → ℕ) (off n : ℕ)
    → ((p : ℕ) → off ≤ p → p < off + n → file p ≡ c)
    → all_chars c (slice file off n) ≡ true
unfolding slice all_chars
slice-all_chars c file off zero h = refl
slice-all_chars c file off (suc n) h = ground (
  arith,
  h off (omega arith) (omega arith),
  slice-all_chars c file (suc off) n (λ p lo hi. h p (omega arith) (omega arith)),
)

-- The chunk lies in the file, and each of its bytes is the character.
abbrev pub Holds : (ℕ → ℕ) → ℕ → WriteUnit → Type 0
Holds file size w = (end_of w ≤ size) × ((p : ℕ) → w.offset ≤ p → p < end_of w → file p ≡ w.char)

module _ (pread : ℕ → ℕ → Read) (file : ℕ → ℕ) (size : ℕ) (r : Reads pread file size) where
  abbrev count_of : ℕ → ℕ
  count_of len = if ltb max_write_size len then max_write_size else len

  -- One round of the loop, for a read that gives `bs`.
  round :
      (f c off len n : ℕ) (bs : List ℕ)
      → n ≡ count_of len
      → off + len < 2 ^ 64
      → 0 < len
      → pread n off ≡ bytes bs
      → check_from pread (suc f) c off len ≡ (
          if length bs == n && all_chars c bs
          then check_from pread f c (off + n) (len - n)
          else if length bs == 0
          then premature_end
          else if length bs == n
          then mismatch
          else short_read)
  unfolding check_from
  round f c off len n bs e fits pos read = ground (arith, read, add_small)
    where
      add_small : (off + n) % 2 ^ 64 ≡ off + n
      add_small = ground arith

  -- What a round that ends well has seen.
  round_sound :
      (f c off len n : ℕ)
      → n ≡ count_of len
      → off + len < 2 ^ 64
      → 0 < len
      → check_from pread (suc f) c off len ≡ good
      → (off + n ≤ size)
        × (all_chars c (slice file off n) ≡ true)
        × (check_from pread f c (off + n) (len - n) ≡ good)
  round_sound f c off len n e fits pos h =
      let m = min n (size - off) in
      let bs = slice file off m in
      let eq = round f c off len n bs e fits pos (r.reads n off) in
      let full : m ≡ n = ground (arith, h, eq, length-slice file off m) in
      ground (arith, h, eq, full, length-slice file off m)

  round_complete :
      (f c off len n : ℕ)
      → n ≡ count_of len
      → off + len < 2 ^ 64
      → 0 < len
      → off + n ≤ size
      → all_chars c (slice file off n) ≡ true
      → check_from pread (suc f) c off len ≡ check_from pread f c (off + n) (len - n)
  round_complete f c off len n e fits pos le same = ground (
    arith,
    round f c off len n (slice file off (min n (size - off))) e fits pos (r.reads n off),
    full,
    length-slice file off n,
  )
    where
      full : min n (size - off) ≡ n
      full = omega arith

  -- What the loop accepts lies in the file and has the character everywhere.
  check_from_sound :
      (f c off len : ℕ)
      → off + len < 2 ^ 64
      → 0 < len
      → check_from pread f c off len ≡ good
      → (off + len ≤ size) × ((p : ℕ) → off ≤ p → p < off + len → file p ≡ c)
  unfolding check_from
  check_from_sound zero c off len fits pos h = cc
  check_from_sound (suc f) c off len fits pos h =
      let n = count_of len in
      let (le, same, next) = round_sound f c off len n refl fits pos h in
      elim (dec_lt n len) [
        | no last ↦ (ground arith, λ p lo hi. all_chars-slice c file off n same p lo (ground arith))
        | yes more ↦
            let (le', same') =
              check_from_sound f c (off + n) (len - n) (ground arith) (ground arith) next in
            (
              ground arith,
              λ p lo hi. elim (dec_lt p (off + n)) [
                | yes here ↦ all_chars-slice c file off n same p lo here
                | no there ↦ same' p (ground arith) (ground arith)
              ],
            )
      ]

  -- The loop accepts what lies in the file and has the character everywhere, and does not run dry.
  check_from_complete :
      (f c off len : ℕ)
      → len < f
      → off + len < 2 ^ 64
      → (0 < len → off + len ≤ size)
      → ((p : ℕ) → off ≤ p → p < off + len → file p ≡ c)
      → check_from pread f c off len ≡ good
  unfolding check_from
  check_from_complete zero c off len fuel fits le same = absurd (omega arith)
  check_from_complete (suc f) c off zero fuel fits le same = refl
  check_from_complete (suc f) c off (suc k) fuel fits le same =
      let len = suc k in
      let n = count_of len in
      let small : n ≤ len = ground arith in
      let pos : 0 < n = ground arith in
      round_complete f c off len n refl fits (omega arith) (omega (arith, le (omega arith)))
        (slice-all_chars c file off n (λ p lo hi. same p lo (omega arith)))
      ∙ check_from_complete f c (off + n) (len - n) (omega arith) (omega arith)
          (λ m. omega (arith, le (omega arith))) (λ p lo hi. same p (omega arith) (omega arith))

  -- `vh_check_chunk` returns 0 exactly when the extent lies in the file and holds its character.
  pub check_chunk_iff :
      (w : WriteUnit) → IsExtent w → (check_chunk pread w ≡ good) ↔ Holds file size w
  unfolding check_chunk
  check_chunk_iff w v = (
    check_from_sound (w.len + 1) w.char w.offset w.len v.end_fits v.filled,
    λ h.
        check_from_complete (w.len + 1) w.char w.offset w.len (omega arith) v.end_fits (λ pos. h.0)
          h.1,
  )

  -- `vh_check_file` accepts exactly when every extent holds.
  pub check_file_iff :
      (xs : List WriteUnit)
      → All IsExtent xs
      → (check_file pread xs ≡ ok tt) ↔ All (Holds file size) xs
  unfolding check_file
  check_file_iff [] v = (λ h. tt, λ h. refl)
  check_file_iff (x ∷ xs) v =
      let rest = check_file_iff xs v.1 in
      (
        λ h. accepted (check_chunk pread x) refl h rest.0,
        λ h. rw ((check_chunk_iff x v.0).1 h.0, check_file) (rest.1 h.1),
      )
    where
      accepted :
          (d : Verdict)
          → check_chunk pread x ≡ d
          → check_file pread (x ∷ xs) ≡ ok tt
          → (check_file pread xs ≡ ok tt → All (Holds file size) xs)
          → Holds file size x × All (Holds file size) xs
      accepted good e h next = ((check_chunk_iff x v.0).0 e, next (rw (e, check_file) at h))
      accepted read_error e h next = cc (rw (e, check_file) at h)
      accepted d e h next = cc (rw (e, check_file) at h)
