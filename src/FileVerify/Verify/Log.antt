-- ===== src/FileVerify/Verify/Log.antt =====
-- `verify_file` of file_verify.c with a log of writes.
use native.Mathlib.Nat.{le-div_iff_mul-le, div-lt_iff_lt-mul}
use ocfs2_test.Common.{
  ℕ, zero, suc, ◌+◌, ◌*◌, ◌/◌, ◌^◌, ◌≤◌, ◌<◌, ◌≡◌, ◌≢◌, ◌↔◌, inl, inr, refl, ◌∙◌, sym, subst, ap,
  Bool, true, false, List, [], ◌∷◌, map, Option, none, some, All, AllFrom-elem0, AllFrom-of0,
  get_elem?, leb, ◌==◌, if◌then◌else◌, length, ok, aborted, arith, Bool-cases,
}
use ocfs2_test.Kernel.{Kernel}
use ocfs2_test.FileVerify.{WriteRecord}
use ocfs2_test.FileVerify.Records.{
  columns, with_chunksize, blank_records, read_record, read_records,
}
use ocfs2_test.FileVerify.Records.Laws.{
  newest, newest-with_chunksize, read_records_gen, read_record_lem, read_record_overrun,
}
use ocfs2_test.FileVerify.Transfer.Partial.{Gets}
use ocfs2_test.FileVerify.Verify.{logfile, lines_of, verify_file}
use ocfs2_test.FileVerify.Verify.Held.{Holds, Agrees}
use ocfs2_test.FileVerify.Pattern.Layout.{IsSound}
use ocfs2_test.FileVerify.Verify.Laws.{Expected, verify_body_iff}

pub div_between : (n c x : ℕ) → 0 < c → n * c ≤ x → x < suc n * c → x / c ≡ n
div_between n c x pos lo hi =
    let a = le-div_iff_mul-le {k = c} {x = n} {y = x} pos in
    let b = div-lt_iff_lt-mul {k = c} {x = x} {y = suc n} pos in omega (arith, a.1 lo, b.1 hi)

-- The record of a chunk before the log is read.
abbrev pub blank_record : ℕ → ℕ → WriteRecord
blank_record chunksize i = record {
  chunk_no = i;
  timestamp = 0;
  chunksize = chunksize;
  checksum = 0;
  char = 0;
}

pub length-blank_records : (chunksize i n : ℕ) → length (blank_records chunksize i n) ≡ n
unfolding blank_records
length-blank_records chunksize i zero = refl
length-blank_records chunksize i (suc n) = ap suc (length-blank_records chunksize (suc i) n)

get_elem?-blank_records :
    (chunksize i n j : ℕ)
    → j < n
    → get_elem? (blank_records chunksize i n) j ≡ some (blank_record chunksize (i + j))
unfolding blank_records
get_elem?-blank_records chunksize i zero j h = absurd (omega arith)
get_elem?-blank_records chunksize i (suc n) zero h = let at : i + 0 ≡ i = omega arith in rw at refl
get_elem?-blank_records chunksize i (suc n) (suc j) h =
    let at : i + suc j ≡ suc i + j = omega arith in
    rw at (get_elem?-blank_records chunksize (suc i) n j (omega arith))

in_bounds :
    (xs : List WriteRecord) (j : ℕ) (x : WriteRecord) → get_elem? xs j ≡ some x → j < length xs
in_bounds [] j x e = absurd (none-some e)
  where
    none-some : none ≢ some x
    none-some e = cc
in_bounds (y ∷ ys) zero x e = omega arith
in_bounds (y ∷ ys) (suc j) x e = omega (arith, in_bounds ys j x e)

-- The record that counts is blank or one of the log.
newest-Expected :
    (chunksize i : ℕ) (log : List WriteRecord) (w : WriteRecord)
    → All (Expected chunksize) log
    → Expected chunksize w
    → Expected chunksize (newest i log w)
unfolding newest
newest-Expected chunksize i [] w hs h = h
newest-Expected chunksize i (wu ∷ log) w (h, hs) h' =
    newest-Expected chunksize i log
      (if wu.chunk_no == i then (if leb w.timestamp wu.timestamp then wu else w) else w) hs
      (choose (wu.chunk_no == i) (leb w.timestamp wu.timestamp))
  where
    choose : (a b : Bool) → Expected chunksize (if a then (if b then wu else w) else w)
    choose false b = h'
    choose true false = h'
    choose true true = h

-- With the chunk size that the loop over the log puts into each record.
with_chunksize-Expected :
    (chunksize : ℕ) (log : List WriteRecord)
    → All (Expected chunksize) log
    → All (Expected chunksize) (map (with_chunksize chunksize) log)
with_chunksize-Expected chunksize [] hs = tt
with_chunksize-Expected chunksize (wu ∷ log) (h, hs) = (
  record {
    logged = λ some_time.
        let (sound, same) = h.logged some_time in
        (subst IsSound (ap (λ z. record wu { chunksize = z }) same) sound, refl);
  },
  with_chunksize-Expected chunksize log hs,
)

pub lines_of_some : (log : List WriteRecord) → 0 < length log → lines_of log ≡ map columns log
unfolding lines_of
lines_of_some [] h = absurd (omega arith)
lines_of_some (wu ∷ log) h = refl

module _ (k : Kernel) (file : ℕ → ℕ) (size : ℕ) (d : k.Disk) (gets : Gets k file size d)
    (small : size < 2 ^ 64) (f align chunksize : ℕ) (tmp tmp' : ℕ → ℕ) (le : chunksize ≤ f)
    (held : ℕ → WriteRecord) (filesize : ℕ)
    (holds : (j : ℕ) → j < filesize / chunksize → Holds file size chunksize j (held j)) where
  pub verify_file_iff :
      (log : List WriteRecord)
      → 0 < length log
      → All (λ w. w.chunk_no < filesize / chunksize) log
      → All (Expected chunksize) log
      → (verify_file k f align tmp tmp' (logfile (lines_of log)) filesize chunksize size d ≡ ok tt)
        ↔ ((j : ℕ)
            → j < filesize / chunksize
            → Agrees j (held j) (newest j log (blank_record chunksize j)))
  unfolding verify_file
  verify_file_iff log some_line inside expected =
      let (wus, e, len, each) =
        read_records_gen chunksize n log (blank_records chunksize 0 n)
          (length-blank_records chunksize 0 n) inside in
      let at : (j : ℕ) → j < n → get_elem? wus j ≡ some (counts j) =
        λ j low. each j (blank_record chunksize j) (blank_at j low) in
      let body = verify_body_iff k file size d gets small f align chunksize tmp tmp' le held 0 wus (
        AllFrom-of0 (λ j w. Holds file size chunksize j (held j) × Expected chunksize w) wus
          (λ j w here. ready wus len at j w here)) in
      rw (lines_of_some log some_line, e)
        (
          λ good j low. subst (Agrees j (held j)) (counted j) (
              AllFrom-elem0 (λ j w. Agrees j (held j) w) wus j (counts j) (body.0 good) (at j low)),
          λ good. body.1 (
              AllFrom-of0 (λ j w. Agrees j (held j) w) wus
                (λ j w here.
                  let low : j < n = omega (arith, in_bounds wus j w here, len) in
                  agrees wus at (λ j low. subst (Agrees j (held j)) (sym (counted j)) (good j low))
                    j w low here)),
        )
    where
      n : ℕ
      n = filesize / chunksize

      counts : ℕ → WriteRecord
      counts j = newest j (map (with_chunksize chunksize) log) (blank_record chunksize j)

      counted :
          (j : ℕ) → counts j ≡ with_chunksize chunksize (newest j log (blank_record chunksize j))
      counted j = newest-with_chunksize chunksize j log (blank_record chunksize j)

      blank_at :
          (j : ℕ)
          → j < n
          → get_elem? (blank_records chunksize 0 n) j ≡ some (blank_record chunksize j)
      blank_at j low =
          let at : 0 + j ≡ j = omega arith in
          get_elem?-blank_records chunksize 0 n j low ∙ ap (λ z. some (blank_record chunksize z)) at

      same_record : (w v : WriteRecord) (o : Option WriteRecord) → o ≡ some w → o ≡ some v → v ≡ w
      same_record w v o a b = cc

      ready :
          (wus : List WriteRecord)
          → length wus ≡ n
          → ((j : ℕ) → j < n → get_elem? wus j ≡ some (counts j))
          → (j : ℕ) (w : WriteRecord) → get_elem? wus j ≡ some w
          → Holds file size chunksize j (held j) × Expected chunksize w
      ready wus len at j w here =
          let low : j < n = omega (arith, in_bounds wus j w here, len) in
          (
            holds j low,
            subst (Expected chunksize) (same_record w (counts j) (get_elem? wus j) here (at j low))
                (newest-Expected chunksize j (map (with_chunksize chunksize) log)
                  (blank_record chunksize j) (with_chunksize-Expected chunksize log expected)
                  (record { logged = λ some_time. absurd (some_time refl) })),
          )

      agrees :
          (wus : List WriteRecord)
          → ((j : ℕ) → j < n → get_elem? wus j ≡ some (counts j))
          → ((j : ℕ) → j < n → Agrees j (held j) (counts j))
          → (j : ℕ) (w : WriteRecord) → j < n
          → get_elem? wus j ≡ some w
          → Agrees j (held j) w
      agrees wus at good j w low here =
          subst (Agrees j (held j)) (same_record w (counts j) (get_elem? wus j) here (at j low))
            (good j low)

-- A log that names the chunk behind the last one, and none after that, takes `verify_file` out of its
-- array.
pub read_records_overrun :
    (chunksize n j : ℕ) (log wus : List WriteRecord) (w : WriteRecord)
    → length wus ≡ n
    → All (λ v. v.chunk_no ≤ n) log
    → get_elem? log j ≡ some w
    → w.chunk_no ≡ n
    → read_records chunksize n wus (map columns log) ≡ aborted
unfolding read_records
read_records_overrun chunksize n j [] wus w len inside here at = absurd (none-some here)
  where
    none-some : none ≢ some w
    none-some e = cc
read_records_overrun chunksize n j (v ∷ log) wus w len (h, hs) here at =
    elim (Bool-cases (v.chunk_no == n)) [
      | inl past ↦
          (let stop : read_record chunksize n wus v ≡ aborted =
              subst (λ z. read_record chunksize z wus v ≡ aborted) len
                ((read_record_overrun chunksize wus v).1 (ground (arith, past, len))) in
            rw stop refl)
      | inr inner ↦
          let (wus1, e1, e2, one) =
            read_record_lem chunksize n wus v len (ground (arith, inner, h)) in
          rw e1 (
            later j here inner
              (λ i later_on. read_records_overrun chunksize n i log wus1 w e2 hs later_on at))
    ]
  where
    injective : (a b : WriteRecord) → some a ≡ some b → a ≡ b
    injective a b e = cc

    same : (a b : WriteRecord) → some a ≡ some b → a.chunk_no ≡ b.chunk_no
    same a b e = ap (λ z. z.chunk_no) (injective a b e)

    later :
        {R : Type 0} (j : ℕ)
        → get_elem? (v ∷ log) j ≡ some w
        → (v.chunk_no == n) ≡ false
        → ((i : ℕ) → get_elem? log i ≡ some w → R)
        → R
    later zero e inner f = absurd (ground (arith, inner, at, same v w e))
    later (suc i) e inner f = f i e
