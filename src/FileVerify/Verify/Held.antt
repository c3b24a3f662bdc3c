-- ===== src/FileVerify/Verify/Held.antt =====
-- A chunk of the file that holds the pattern of a write unit, and what `verify_file` finds there.
use ocfs2_test.Kernel.Slices.{get_or-slice, length-slice, slice_list, splice_in}
use ocfs2_test.Common.{
  ℕ, zero, suc, ◌+◌, ◌-◌, ◌*◌, ◌%◌, ◌^◌, ◌≤◌, ◌<◌, ◌≡◌, ◌≢◌, ◌↔◌, ◌⊎◌, ◌||◌, refl, ◌∙◌, sym, ap,
  subst, true, List, All, length, ok, arith, min, replicate, ◌==◌,
}
use ocfs2_test.Kernel.{Kernel, slice, splice}
use ocfs2_test.FileVerify.{WriteRecord}
use ocfs2_test.FileVerify.Crc.Laws.{crc32_checksum_lem}
use ocfs2_test.FileVerify.Pattern.{
  filled, checksum_of, fill_chunk_pattern, dump_pattern, verify_chunk_pattern, verify_logged,
  verify_unlogged,
}
use ocfs2_test.FileVerify.Pattern.Layout.{IsSound, slice-filled, dump-fill_chunk_pattern}
use ocfs2_test.FileVerify.Pattern.Laws.{
  Alike, dump_cong, verify_logged_sound, verify_logged_complete,
}
use ocfs2_test.FileVerify.Transfer.{do_read_chunk}
use ocfs2_test.FileVerify.Transfer.Partial.{Gets, Gets-read_at}

-- Chunk `j` of a file is the pattern of `held`.
pub record Holds (file : ℕ → ℕ) (size chunksize j : ℕ) (held : WriteRecord) : Type 0 where
  pub sound : IsSound held
  pub char_fits : held.char < 256
  pub size_same : held.chunksize ≡ chunksize
  pub inside : chunksize * j + chunksize ≤ size
  pub align : ℕ
  pub tmp : ℕ → ℕ
  pub bytes_same :
      (q : ℕ) → q < chunksize → file (chunksize * j + q) ≡ (fill_chunk_pattern align tmp held).0 q

-- The checksum does not depend on where `malloc` puts the pattern, nor on what it held.
checksum_anywhere :
    (align align' : ℕ) (m m' : ℕ → ℕ) (wu : WriteRecord)
    → IsSound wu
    → wu.char < 256
    → checksum_of align m wu ≡ checksum_of align' m' wu
unfolding checksum_of
checksum_anywhere align align' m m' wu sound fits =
    rw
      (
        slice-filled wu sound m,
        slice-filled wu sound m',
        crc32_checksum_lem align (2 ^ 32 - 1) (replicate (wu.chunksize - 40) wu.char)
            (All-replicate (wu.chunksize - 40)),
        crc32_checksum_lem align' (2 ^ 32 - 1) (replicate (wu.chunksize - 40) wu.char)
            (All-replicate (wu.chunksize - 40)),
      )
      refl
  where
    All-replicate : (n : ℕ) → All (λ b. b < 256) (replicate n wu.char)
    All-replicate zero = tt
    All-replicate (suc n) = (fits, All-replicate n)

module _ (k : Kernel) (file : ℕ → ℕ) (size : ℕ) (d : k.Disk) (gets : Gets k file size d)
    (small : size < 2 ^ 64) where
  pub do_read_chunk-Holds :
      (f : ℕ) (tmp' : ℕ → ℕ) (j chunksize : ℕ) (held : WriteRecord)
      → chunksize ≤ f
      → (h : Holds file size chunksize j held)
      → do_read_chunk k f tmp' j chunksize size d
        ≡ ok (chunksize, (fill_chunk_pattern h.align h.tmp held).1)
  unfolding do_read_chunk
  do_read_chunk-Holds f tmp' j chunksize held le h = rw at (
      rw (Gets-read_at k file size d gets f chunksize (chunksize * j) (omega (arith, h.inside)) le)
        (rw whole (rw (again, length-slice pattern 0 chunksize) refl)))
    where
      at : chunksize * j % 2 ^ 64 ≡ chunksize * j
      at = omega (arith, small, h.inside, h.sound.room, h.size_same)

      pattern : ℕ → ℕ
      pattern = (fill_chunk_pattern h.align h.tmp held).0

      n : ℕ
      n = min chunksize (size - chunksize * j)

      buf : List ℕ
      buf = slice pattern 0 chunksize

      zero_plus : (i : ℕ) → i ≡ 0 + i
      zero_plus i = omega arith

      whole : slice file (chunksize * j) n ≡ buf
      whole =
          let all : n ≡ length buf = omega (arith, h.inside, length-slice pattern 0 chunksize) in
          rw all (
            slice_list file buf (chunksize * j) (λ i low.
              let low' : i < chunksize = omega (arith, low, length-slice pattern 0 chunksize) in
              h.bytes_same i low'
              ∙ ap pattern (zero_plus i)
              ∙ sym (get_or-slice pattern 0 chunksize i low')))

      at_zero : (i : ℕ) → 0 + (i - 0) ≡ i
      at_zero i = omega arith

      own :
          dump_pattern (splice tmp' 0 (slice pattern 0 held.chunksize)) held.chunksize
          ≡ (fill_chunk_pattern h.align h.tmp held).1
      own =
          dump_cong (splice tmp' 0 (slice pattern 0 held.chunksize)) pattern held h.sound (λ i low.
            splice_in tmp' 0 (slice pattern 0 held.chunksize) i (omega arith)
              (rw (length-slice pattern 0 held.chunksize) (omega (arith, low)))
            ∙ get_or-slice pattern 0 held.chunksize (i - 0) (omega (arith, low))
            ∙ ap pattern (at_zero i))
          ∙ dump-fill_chunk_pattern held h.sound h.align h.tmp

      again : dump_pattern (splice tmp' 0 buf) chunksize ≡ (fill_chunk_pattern h.align h.tmp held).1
      again =
          subst
            (λ c.
              dump_pattern (splice tmp' 0 (slice pattern 0 c)) c
              ≡ (fill_chunk_pattern h.align h.tmp held).1)
            h.size_same own

-- What the log says of chunk `i` agrees with what the chunk holds: a chunk that is not in the log
-- is blank or has its own number, a chunk in the log has the number, the time and the character
-- of its record.
abbrev pub Agrees : ℕ → WriteRecord → WriteRecord → Type 0
Agrees i held logged =
    ((logged.timestamp ≡ 0) × ((held.timestamp ≡ 0) ⊎ (held.chunk_no ≡ i)))
    ⊎ ((logged.timestamp ≢ 0)
        × (held.chunk_no ≡ logged.chunk_no)
        × (held.timestamp ≡ logged.timestamp)
        × (held.char ≡ logged.char))

module _ (align : ℕ) (tmp tmp' file : ℕ → ℕ) (size chunksize i : ℕ) (held : WriteRecord)
    (h : Holds file size chunksize i held) where
  -- The write unit that is read.
  abbrev read_back : WriteRecord
  read_back = (fill_chunk_pattern h.align h.tmp held).1

  checksum_read_back : checksum_of align tmp read_back ≡ checksum_of align tmp held
  unfolding checksum_of filled fill_chunk_pattern
  checksum_read_back = refl

  pub verify_unlogged-Holds :
      verify_unlogged align tmp read_back i ≡ (held.timestamp == 0 || held.chunk_no == i)
  unfolding verify_unlogged fill_chunk_pattern
  verify_unlogged-Holds = ground (arith, sym checksum_read_back, checksum_same)
    where
      checksum_same : checksum_of h.align h.tmp held ≡ checksum_of align tmp held
      checksum_same = checksum_anywhere h.align align h.tmp tmp held h.sound h.char_fits

  read_back-IsSound : IsSound read_back
  unfolding fill_chunk_pattern
  read_back-IsSound = record {
    room = h.sound.room;
    size_fits = h.sound.size_fits;
    no_fits = h.sound.no_fits;
    time_fits = h.sound.time_fits;
  }

  module _ (expected : WriteRecord) (sound : IsSound expected)
      (same : expected.chunksize ≡ chunksize) where
    abbrev AlikeExpected : WriteRecord → Type 0
    AlikeExpected w =
        (w.chunk_no ≡ expected.chunk_no)
        × (w.timestamp ≡ expected.timestamp)
        × (w.char ≡ expected.char)

    found_is : dump_pattern (fill_chunk_pattern h.align h.tmp held).0 expected.chunksize ≡ read_back
    found_is =
        subst (λ c. dump_pattern (fill_chunk_pattern h.align h.tmp held).0 c ≡ read_back)
          (h.size_same ∙ sym same) (dump-fill_chunk_pattern held h.sound h.align h.tmp)

    as_logged :
        verify_logged align tmp tmp' (fill_chunk_pattern h.align h.tmp held).0 expected
        ≡ verify_chunk_pattern align tmp' (fill_chunk_pattern align tmp read_back).0 expected
    unfolding verify_logged
    as_logged =
        ap (λ wu. verify_chunk_pattern align tmp' (fill_chunk_pattern align tmp wu).0 expected)
          found_is

    pub verify_chunk_pattern-Holds :
        (verify_chunk_pattern align tmp' (fill_chunk_pattern align tmp read_back).0 expected ≡ true)
        ↔ ((held.chunk_no ≡ expected.chunk_no)
            × (held.timestamp ≡ expected.timestamp)
            × (held.char ≡ expected.char))
    unfolding fill_chunk_pattern dump_pattern
    verify_chunk_pattern-Holds = (
      λ e. subst AlikeExpected found_is (
          verify_logged_sound align tmp tmp' pattern expected sound
            (subst IsSound (sym found_is) read_back-IsSound) (as_logged ∙ e)),
      λ e.
          sym as_logged
          ∙ verify_logged_complete align tmp tmp' pattern expected sound
              (alike (subst AlikeExpected (sym found_is) e)),
    )
      where
        pattern : ℕ → ℕ
        pattern = (fill_chunk_pattern h.align h.tmp held).0

        alike :
            AlikeExpected (dump_pattern pattern expected.chunksize)
            → Alike (dump_pattern pattern expected.chunksize) expected
        alike e = record { chunk_no = e.0; timestamp = e.1; chunksize = refl; char = e.2 }
