-- ===== src/FileVerify/Records/Laws.antt =====
-- The log that `verify_file` of file_verify.c reads.
use ocfs2_test.Common.{
  ℕ, ◌≤◌, ◌<◌, ◌≡◌, ◌≢◌, ◌↔◌, Bool, true, refl, sym, ap, ◌∙◌, false, none, some, List, [], ◌∷◌, map,
  leb, ltb, ◌==◌, if◌then◌else◌, get_elem?, get_elem?-set_self, get_elem?-set_ne, set, length,
  length-set, All, Result, ok, aborted, failed, arith, Bool-cases, inl, inr, zero, suc,
}
use ocfs2_test.FileVerify.{WriteRecord}
use ocfs2_test.FileVerify.Records.{columns, with_chunksize, read_record, read_records}

some-injective : (a b : WriteRecord) → some a ≡ some b → a ≡ b
some-injective a b e = cc

pub get_elem?-some :
    (wus : List WriteRecord) (i : ℕ)
    → i < length wus
    → (w : WriteRecord) × (get_elem? wus i ≡ some w)
get_elem?-some [] i h = absurd (omega arith)
get_elem?-some (w ∷ ws) zero h = (w, refl)
get_elem?-some (w ∷ ws) (suc i) h = get_elem?-some ws i (omega arith)

get_elem?-none : (wus : List WriteRecord) (i : ℕ) → length wus ≤ i → get_elem? wus i ≡ none
get_elem?-none [] i h = refl
get_elem?-none (w ∷ ws) zero h = absurd (omega arith)
get_elem?-none (w ∷ ws) (suc i) h = get_elem?-none ws i (omega arith)

-- The test of the chunk number lets `num_chunks` through, which is not an index of the array: the
-- record behind the last one is read for that number, and for no other.
pub read_record_overrun :
    (chunksize : ℕ) (wus : List WriteRecord) (wu : WriteRecord)
    → (read_record chunksize (length wus) wus wu ≡ aborted) ↔ (wu.chunk_no ≡ length wus)
unfolding read_record
read_record_overrun chunksize wus wu = (
  λ e. elim (Bool-cases (ltb (length wus) wu.chunk_no)) [
    | inl past ↦ absurd (refused failed refl (rw past at e))
    | inr low ↦ elim (Bool-cases (wu.chunk_no == length wus)) [
      | inl at_end ↦ ground (arith, at_end)
      | inr apart ↦
          let (old, found) = get_elem?-some wus wu.chunk_no (ground (arith, low, apart)) in
          absurd (
            accepted
              (if leb old.timestamp wu.timestamp
                then set wus wu.chunk_no (with_chunksize chunksize wu)
                else wus)
              (rw (low, found) at e))
    ]
  ],
  λ e.
      let low : ltb (length wus) wu.chunk_no ≡ false = ground (arith, e) in
      rw (low, get_elem?-none wus wu.chunk_no (omega (arith, e))) refl,
)
  where
    refused : (r : Result (List WriteRecord)) → r ≡ failed → r ≢ aborted
    refused r a b = cc

    accepted : (ws : List WriteRecord) → ok ws ≢ aborted
    accepted ws e = cc

-- The write of chunk `i` that counts: a later line with the same time or a later one wins.
unfoldable pub newest : ℕ → List WriteRecord → WriteRecord → WriteRecord
newest i [] w = w
newest i (wu ∷ rest) w =
    newest i rest (if wu.chunk_no == i then (if leb w.timestamp wu.timestamp then wu else w) else w)

-- The chunk size that the loop puts into a record does not decide which one counts.
pub newest-with_chunksize :
    (chunksize i : ℕ) (log : List WriteRecord) (w : WriteRecord)
    → newest i (map (with_chunksize chunksize) log) (with_chunksize chunksize w)
      ≡ with_chunksize chunksize (newest i log w)
unfolding newest
newest-with_chunksize chunksize i [] w = refl
newest-with_chunksize chunksize i (wu ∷ log) w =
    ap (newest i (map (with_chunksize chunksize) log))
      (choose (wu.chunk_no == i) (leb w.timestamp wu.timestamp))
    ∙ newest-with_chunksize chunksize i log
        (if wu.chunk_no == i then (if leb w.timestamp wu.timestamp then wu else w) else w)
  where
    choose :
        (a b : Bool)
        → (if a
            then (if b then with_chunksize chunksize wu else with_chunksize chunksize w)
            else with_chunksize chunksize w)
          ≡ with_chunksize chunksize (if a then (if b then wu else w) else w)
    choose false b = refl
    choose true false = refl
    choose true true = refl

-- One line of the log.
pub read_record_lem :
    (chunksize n : ℕ) (wus : List WriteRecord) (wu : WriteRecord)
    → length wus ≡ n
    → wu.chunk_no < n
    → (wus' : List WriteRecord) × (read_record chunksize n wus wu ≡ ok wus')
      × (length wus' ≡ n)
      × ((i : ℕ) (w : WriteRecord)
          → get_elem? wus i ≡ some w
          → get_elem? wus' i
            ≡ some (
                if wu.chunk_no == i
                then (if leb w.timestamp wu.timestamp then with_chunksize chunksize wu else w)
                else w))
unfolding read_record
read_record_lem chunksize n wus wu e h =
    let (old, found) = get_elem?-some wus wu.chunk_no (omega (arith, e)) in
    let low : ltb n wu.chunk_no ≡ false = ground (arith, h) in
    elim (Bool-cases (leb old.timestamp wu.timestamp)) [
      | inl newer ↦ (
        set wus wu.chunk_no (with_chunksize chunksize wu),
        rw (low, found, newer) refl,
        length-set wus wu.chunk_no (with_chunksize chunksize wu) ∙ e,
        λ i w here. elim (Bool-cases (wu.chunk_no == i)) [
          | inl same ↦
              (let at : wu.chunk_no ≡ i = ground (arith, same) in
                let kept : w ≡ old =
                  some-injective w old (sym here ∙ ap (get_elem? wus) (sym at) ∙ found) in
                rw (same, kept, newer)
                  (ap (get_elem? (set wus wu.chunk_no (with_chunksize chunksize wu))) (sym at)
                    ∙ get_elem?-set_self wus wu.chunk_no (with_chunksize chunksize wu)
                        (omega (arith, e))))
          | inr other ↦
              rw other
                (get_elem?-set_ne wus (with_chunksize chunksize wu) (ground (arith, other)) ∙ here)
        ],
      )
      | inr older ↦ (
        wus,
        rw (low, found, older) refl,
        e,
        λ i w here. elim (Bool-cases (wu.chunk_no == i)) [
          | inl same ↦
              (let at : wu.chunk_no ≡ i = ground (arith, same) in
                let kept : w ≡ old =
                  some-injective w old (sym here ∙ ap (get_elem? wus) (sym at) ∙ found) in
                rw (same, kept, older) (ap (get_elem? wus) (sym at) ∙ found))
          | inr other ↦ rw other here
        ],
      )
    ]

pub read_records_gen :
    (chunksize n : ℕ) (log wus : List WriteRecord)
    → length wus ≡ n
    → All (λ wu. wu.chunk_no < n) log
    → (wus' : List WriteRecord) × (read_records chunksize n wus (map columns log) ≡ ok wus')
      × (length wus' ≡ n)
      × ((i : ℕ) (w : WriteRecord)
          → get_elem? wus i ≡ some w
          → get_elem? wus' i ≡ some (newest i (map (with_chunksize chunksize) log) w))
unfolding read_records newest
read_records_gen chunksize n [] wus e h = (wus, refl, e, λ i w here. here)
read_records_gen chunksize n (wu ∷ log) wus e (h, hs) =
    let (wus1, e1, e2, one) = read_record_lem chunksize n wus wu e h in
    let (wus2, e3, e4, more) = read_records_gen chunksize n log wus1 e2 hs in
    (
      wus2,
      rw (e1, e3) refl,
      e4,
      λ i w here.
          more i
            (if wu.chunk_no == i
              then (if leb w.timestamp wu.timestamp then with_chunksize chunksize wu else w)
              else w)
            (one i w here),
    )

-- After a log whose chunk numbers lie in the file, each chunk has the write with the greatest time,
-- the last one of those in the log.
pub read_records_lem :
    (chunksize : ℕ) (log wus : List WriteRecord)
    → All (λ wu. wu.chunk_no < length wus) log
    → (wus' : List WriteRecord) × (read_records chunksize (length wus) wus (map columns log)
        ≡ ok wus')
      × ((i : ℕ) (w : WriteRecord)
          → get_elem? wus i ≡ some w
          → get_elem? wus' i ≡ some (newest i (map (with_chunksize chunksize) log) w))
read_records_lem chunksize log wus h =
    let (wus', e, same, each) = read_records_gen chunksize (length wus) log wus refl h in
    (wus', e, each)
