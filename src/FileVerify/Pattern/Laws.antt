-- ===== src/FileVerify/Pattern/Laws.antt =====
-- `verify_file` of file_verify.c: what the comparison of a logged chunk finds.
use ocfs2_test.Common.{same_bytes_refl, same_bytes_sound}
use ocfs2_test.Kernel.Slices.{splice_cong}
use ocfs2_test.Kernel.Slices.{slice_ext, slice_inv, splice_in}
use ocfs2_test.Common.{
  ℕ, suc, ◌+◌, ◌-◌, ◌%◌, ◌^◌, ◌≤◌, ◌<◌, ◌≡◌, ◌↔◌, refl, ◌∙◌, sym, ap, true, length-replicate,
  get_or, replicate, arith,
}
use ocfs2_test.Kernel.{slice, splice}
use ocfs2_test.FileVerify.{WriteRecord}
use ocfs2_test.FileVerify.Bytes.{to_le, of_le}
use ocfs2_test.FileVerify.Pattern.{
  body_size, filled, checksum_of, fill_chunk_pattern, dump_pattern, verify_chunk_pattern,
  verify_logged,
}
use ocfs2_test.FileVerify.Pattern.Layout.{
  IsSound, offset_lem, slice-filled, dump-fill_chunk_pattern,
}

-- The fields that the pattern depends on.
pub record Alike (a b : WriteRecord) : Type 0 where
  pub chunk_no : a.chunk_no ≡ b.chunk_no
  pub timestamp : a.timestamp ≡ b.timestamp
  pub chunksize : a.chunksize ≡ b.chunksize
  pub char : a.char ≡ b.char

fill-Alike :
    (align : ℕ) (pattern : ℕ → ℕ) (a b : WriteRecord)
    → Alike a b
    → (fill_chunk_pattern align pattern a).0 ≡ (fill_chunk_pattern align pattern b).0
unfolding fill_chunk_pattern checksum_of filled
fill-Alike align pattern a b h = rw (h.chunk_no, h.timestamp, h.chunksize, h.char) refl

-- What the memory held before does not matter.
filled_anywhere :
    (m m' : ℕ → ℕ) (wu : WriteRecord) → (i : ℕ) → i < wu.chunksize → filled m wu i ≡ filled m' wu i
unfolding filled
filled_anywhere m m' wu i h = splice_cong (p2 m) (p2 m') 20 (replicate (body_size wu) wu.char) i (
    splice_cong (p1 m) (p1 m') 8 (to_le 8 wu.timestamp) i
      (splice_cong (p0 m) (p0 m') 0 (to_le 8 wu.chunk_no) i (reset m ∙ sym (reset m'))))
  where
    p0 : (ℕ → ℕ) → ℕ → ℕ
    p0 m = splice m 0 (replicate wu.chunksize 0)

    p1 : (ℕ → ℕ) → ℕ → ℕ
    p1 m = splice (p0 m) 0 (to_le 8 wu.chunk_no)

    p2 : (ℕ → ℕ) → ℕ → ℕ
    p2 m = splice (p1 m) 8 (to_le 8 wu.timestamp)

    reset : (m : ℕ → ℕ) → p0 m i ≡ get_or (replicate wu.chunksize 0) (i - 0) 0
    reset m =
        splice_in m 0 (replicate wu.chunksize 0) i (omega arith)
          (omega (arith, length-replicate {A = ℕ} wu.chunksize 0))

fill_anywhere :
    (align : ℕ) (m m' : ℕ → ℕ) (wu : WriteRecord)
    → IsSound wu
    → (i : ℕ) → i < wu.chunksize
    → (fill_chunk_pattern align m wu).0 i ≡ (fill_chunk_pattern align m' wu).0 i
unfolding fill_chunk_pattern checksum_of
fill_anywhere align m m' wu sound i h = rw same (
    splice_cong (p6 m) (p6 m') 16 (to_le 4 checksum) i (
      splice_cong (p5 m) (p5 m') (offset + 4 + 8) (to_le 8 wu.chunk_no) i (
        splice_cong (p4 m) (p4 m') (offset + 4) (to_le 8 wu.timestamp) i (
          splice_cong (filled m wu) (filled m' wu) offset (to_le 4 checksum) i
            (filled_anywhere m m' wu i h)))))
  where
    same : slice (filled m wu) 20 (body_size wu) ≡ slice (filled m' wu) 20 (body_size wu)
    same = slice-filled wu sound m ∙ sym (slice-filled wu sound m')

    checksum : ℕ
    checksum = checksum_of align m' wu

    offset : ℕ
    offset = (wu.chunksize + 2 ^ 64 - 20) % 2 ^ 64

    p4 : (ℕ → ℕ) → ℕ → ℕ
    p4 m = splice (filled m wu) offset (to_le 4 checksum)

    p5 : (ℕ → ℕ) → ℕ → ℕ
    p5 m = splice (p4 m) (offset + 4) (to_le 8 wu.timestamp)

    p6 : (ℕ → ℕ) → ℕ → ℕ
    p6 m = splice (p5 m) (offset + 4 + 8) (to_le 8 wu.chunk_no)

pub dump_cong :
    (m m' : ℕ → ℕ) (wu : WriteRecord)
    → IsSound wu
    → ((i : ℕ) → i < wu.chunksize → m i ≡ m' i)
    → dump_pattern m wu.chunksize ≡ dump_pattern m' wu.chunksize
unfolding dump_pattern
dump_cong m m' wu sound h =
    rw
      (
        offset_lem wu sound,
        part (wu.chunksize - 20) 4 (omega (arith, sound.room)),
        part (wu.chunksize - 20 + 4) 8 (omega (arith, sound.room)),
        part (wu.chunksize - 20 + 4 + 8) 8 (omega (arith, sound.room)),
        h 20 (omega (arith, sound.room)),
      )
      refl
  where
    part : (off n : ℕ) → off + n ≤ wu.chunksize → slice m off n ≡ slice m' off n
    part off n le = slice_ext m m' off n (λ i a b. h i (omega arith))

of_le-slice8 : (m : ℕ → ℕ) (off : ℕ) → ((i : ℕ) → m i < 256) → of_le (slice m off 8) < 2 ^ 64
unfolding slice
of_le-slice8 m off h = omega (
  arith,
  h off,
  h (suc off),
  h (suc (suc off)),
  h (suc (suc (suc off))),
  h (suc (suc (suc (suc off)))),
  h (suc (suc (suc (suc (suc off))))),
  h (suc (suc (suc (suc (suc (suc off)))))),
  h (suc (suc (suc (suc (suc (suc (suc off))))))),
)

dump-IsSound :
    (m : ℕ → ℕ) (wu : WriteRecord)
    → IsSound wu
    → ((i : ℕ) → m i < 256)
    → IsSound (dump_pattern m wu.chunksize)
unfolding dump_pattern
dump-IsSound m wu sound h = record {
  room = sound.room;
  size_fits = sound.size_fits;
  no_fits = of_le-slice8 m ((wu.chunksize + 2 ^ 64 - 20) % 2 ^ 64 + 4 + 8) h;
  time_fits = of_le-slice8 m ((wu.chunksize + 2 ^ 64 - 20) % 2 ^ 64 + 4) h;
}

module _ (align : ℕ) (tmp tmp' chunk : ℕ → ℕ) (expected : WriteRecord)
    (sound : IsSound expected) where
  abbrev found : WriteRecord
  found = dump_pattern chunk expected.chunksize

  abbrev refilled : ℕ → ℕ
  refilled = (fill_chunk_pattern align tmp found).0

  abbrev wanted : ℕ → ℕ
  wanted = (fill_chunk_pattern align tmp' expected).0

  pub verify_logged_sound :
      IsSound found
      → verify_logged align tmp tmp' chunk expected ≡ true
      → (found.chunk_no ≡ expected.chunk_no)
        × (found.timestamp ≡ expected.timestamp)
        × (found.char ≡ expected.char)
  unfolding verify_logged verify_chunk_pattern fill_chunk_pattern dump_pattern
  verify_logged_sound found_sound e =
      (ap (λ w. w.chunk_no) same, ap (λ w. w.timestamp) same, ap (λ w. w.char) same)
    where
      bytes_same : (i : ℕ) → i < expected.chunksize → refilled i ≡ wanted i
      bytes_same i h =
          slice_inv refilled wanted 0 expected.chunksize i
            (same_bytes_sound (slice refilled 0 expected.chunksize)
              (slice wanted 0 expected.chunksize) e)
            (omega arith) (omega (arith, h))

      same : (fill_chunk_pattern align tmp found).1 ≡ (fill_chunk_pattern align tmp' expected).1
      same =
          sym (dump-fill_chunk_pattern found found_sound align tmp)
          ∙ dump_cong refilled wanted expected sound bytes_same
          ∙ dump-fill_chunk_pattern expected sound align tmp'

  pub verify_logged_complete :
      Alike found expected → verify_logged align tmp tmp' chunk expected ≡ true
  unfolding verify_logged verify_chunk_pattern
  verify_logged_complete alike = rw same (same_bytes_refl (slice wanted 0 expected.chunksize))
    where
      same : slice refilled 0 expected.chunksize ≡ slice wanted 0 expected.chunksize
      same = slice_ext refilled wanted 0 expected.chunksize (λ i a b.
          ap (λ m. m i) (fill-Alike align tmp found expected alike)
          ∙ fill_anywhere align tmp tmp' expected sound i (omega (arith, b)))

  chunksize-found : found.chunksize ≡ expected.chunksize
  unfolding dump_pattern
  chunksize-found = refl

  -- `verify_file` accepts a logged chunk exactly when the character at byte 20 of the chunk and the
  -- time and the number at its end are those of the log. For a chunk of more than 40 bytes, whose
  -- values fit their C types.
  pub verify_logged_iff :
      ((i : ℕ) → chunk i < 256)
      → (verify_logged align tmp tmp' chunk expected ≡ true) ↔ (
          ((dump_pattern chunk expected.chunksize).chunk_no ≡ expected.chunk_no)
          × ((dump_pattern chunk expected.chunksize).timestamp ≡ expected.timestamp)
          × ((dump_pattern chunk expected.chunksize).char ≡ expected.char))
  verify_logged_iff small = (
    λ e. verify_logged_sound (dump-IsSound chunk expected sound small) e,
    λ h.
        verify_logged_complete
          (record { chunk_no = h.0; timestamp = h.1; chunksize = chunksize-found; char = h.2 }),
  )

-- The comparison of a logged chunk reads the character at byte 20 of the chunk and its last 16
-- bytes: two chunks that agree there are both accepted or both refused, whatever their other bytes
-- are.
pub verify_logged_blind :
    (align : ℕ) (tmp tmp' chunk chunk' : ℕ → ℕ) (expected : WriteRecord)
    → IsSound expected
    → chunk 20 ≡ chunk' 20
    → ((i : ℕ) → expected.chunksize - 16 ≤ i → i < expected.chunksize → chunk i ≡ chunk' i)
    → verify_logged align tmp tmp' chunk expected ≡ verify_logged align tmp tmp' chunk' expected
unfolding verify_logged dump_pattern
verify_logged_blind align tmp tmp' chunk chunk' expected sound first last =
    ap (λ m. verify_chunk_pattern align tmp' m expected)
      (fill-Alike align tmp (dump_pattern chunk expected.chunksize)
        (dump_pattern chunk' expected.chunksize) alike)
  where
    n : ℕ
    n = expected.chunksize

    part : (off : ℕ) → n - 16 ≤ off → off + 8 ≤ n → slice chunk off 8 ≡ slice chunk' off 8
    part off lo hi = slice_ext chunk chunk' off 8 (λ i a b. last i (omega arith) (omega arith))

    alike : Alike (dump_pattern chunk n) (dump_pattern chunk' n)
    alike = record {
      chunk_no = rw (offset_lem expected sound) (
          ap of_le (part (n - 20 + 4 + 8) (omega (arith, sound.room)) (omega (arith, sound.room))));
      timestamp =
          rw (offset_lem expected sound)
            (ap of_le (part (n - 20 + 4) (omega (arith, sound.room)) (omega (arith, sound.room))));
      chunksize = refl;
      char = first;
    }
