-- ===== src/FileVerify/Verify/Laws.antt =====
-- `verify_file` of file_verify.c on a file of which each chunk holds some pattern.
use ocfs2_test.Common.{
  ℕ, suc, ◌*◌, ◌^◌, ◌≤◌, ◌<◌, ◌≡◌, ◌≢◌, ◌↔◌, inl, inr, refl, ◌∙◌, sym, Bool, true, false, List, [],
  ◌∷◌, leb, ltb, ◌==◌, if◌then◌else◌, AllFrom, Result, ok, failed, arith, Bool-cases,
}
use ocfs2_test.Kernel.{Kernel}
use ocfs2_test.FileVerify.{WriteRecord}
use ocfs2_test.FileVerify.Pattern.{fill_chunk_pattern, verify_chunk_pattern, verify_unlogged}
use ocfs2_test.FileVerify.Pattern.Layout.{IsSound}
use ocfs2_test.FileVerify.Records.{verify_body}
use ocfs2_test.FileVerify.Transfer.Partial.{Gets}
use ocfs2_test.FileVerify.Verify.Held.{
  Holds, Agrees, do_read_chunk-Holds, verify_unlogged-Holds, verify_chunk_pattern-Holds,
}

-- A record of the log is blank, or has the values of its C types.
pub record Expected (chunksize : ℕ) (wu : WriteRecord) : Type 0 where
  pub logged : wu.timestamp ≢ 0 → IsSound wu × (wu.chunksize ≡ chunksize)

module _ (k : Kernel) (file : ℕ → ℕ) (size : ℕ) (d : k.Disk) (gets : Gets k file size d)
    (small : size < 2 ^ 64) (f align chunksize : ℕ) (tmp tmp' : ℕ → ℕ) (le : chunksize ≤ f)
    (held : ℕ → WriteRecord) where
  -- What the loop does with one chunk that it has read.
  abbrev accepts : ℕ → WriteRecord → WriteRecord → Bool
  accepts i wu expected =
      if expected.timestamp == 0
      then verify_unlogged align tmp wu i
      else verify_chunk_pattern align tmp' (fill_chunk_pattern align tmp wu).0 expected

  accepts_iff :
      (i : ℕ) (expected : WriteRecord) (h : Holds file size chunksize i (held i))
      → Expected chunksize expected
      → (accepts i (fill_chunk_pattern h.align h.tmp (held i)).1 expected ≡ true)
        ↔ Agrees i (held i) expected
  accepts_iff i expected h ex = elim (Bool-cases (expected.timestamp == 0)) [
    | inl blank ↦
        rw (blank, verify_unlogged-Holds align tmp tmp' file size chunksize i (held i) h)
          (let at_zero : expected.timestamp ≡ 0 = ground (arith, blank) in ground (arith, at_zero))
    | inr logged ↦
        let some_time : expected.timestamp ≢ 0 = λ e. ground (arith, logged, e) in
        let (sound, same) = ex.logged some_time in
        let both =
          verify_chunk_pattern-Holds align tmp tmp' file size chunksize i (held i) h expected sound
            same in
        rw logged (
          λ e. let (a, b, c) = both.0 e in inr (some_time, a, b, c),
          λ e. elim e [
            | inl (at_zero, rest) ↦ absurd (some_time at_zero)
            | inr (_, a, b, c) ↦ both.1 (a, b, c)
          ],
        )
  ]

  step :
      (i : ℕ) (expected : WriteRecord) (wus : List WriteRecord)
      → (h : Holds file size chunksize i (held i))
      → verify_body k f align tmp tmp' chunksize size d i (expected ∷ wus) ≡ (
          if accepts i (fill_chunk_pattern h.align h.tmp (held i)).1 expected
          then verify_body k f align tmp tmp' chunksize size d (suc i) wus
          else failed)
  unfolding verify_body
  step i expected wus h =
      rw (more, do_read_chunk-Holds k file size d gets small f tmp i chunksize (held i) le h, whole)
        (elim (Bool-cases (expected.timestamp == 0)) [
          | inl blank ↦ rw blank refl
          | inr logged ↦ rw logged refl
        ])
    where
      more : leb size (i * chunksize) ≡ false
      more = ground (arith, h.inside, h.sound.room, h.size_same)

      whole : ltb chunksize chunksize ≡ false
      whole = ground arith

  -- `verify_file` accepts the file exactly when each record agrees with what its chunk holds, where
  -- each chunk that has a record lies in the file and holds the pattern of some write unit.
  pub verify_body_iff :
      (i : ℕ) (wus : List WriteRecord)
      → AllFrom (λ j wu. Holds file size chunksize j (held j) × Expected chunksize wu) i wus
      → (verify_body k f align tmp tmp' chunksize size d i wus ≡ ok tt)
        ↔ AllFrom (λ j wu. Agrees j (held j) wu) i wus
  unfolding verify_body
  verify_body_iff i [] h = (λ e. tt, λ e. refl)
  verify_body_iff i (expected ∷ wus) ((h, ex), hs) =
      let each = accepts_iff i expected h ex in
      let later = verify_body_iff (suc i) wus hs in
      rw (step i expected wus h)
        (elim (Bool-cases (accepts i (fill_chunk_pattern h.align h.tmp (held i)).1 expected)) [
          | inl passed ↦ rw passed (λ e. (each.0 passed, later.0 e), λ e. later.1 e.1)
          | inr refused ↦ rw refused (
            λ e. absurd (failed-ok failed refl e),
            λ e. absurd (true-false (sym (each.1 e.0) ∙ refused)),
          )
        ])
    where
      failed-ok : (r : Result (Unit {0})) → r ≡ failed → r ≢ ok tt
      failed-ok r a b = cc

      true-false : true ≢ false
      true-false e = cc
