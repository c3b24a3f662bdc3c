-- ===== src/FileVerify/Pattern/Layout.antt =====
-- `fill_chunk_pattern` of file_verify.c: what is where in the pattern.
use ocfs2_test.Kernel.Slices.{
  get_or-replicate, splice_in, splice_out, slice-splice, slice-splice_apart,
}
use ocfs2_test.Common.{
  ℕ, ◌+◌, ◌-◌, ◌%◌, ◌^◌, ◌<◌, ◌≡◌, refl, ◌∙◌, subst, inl, inr, List, length-replicate, replicate,
  arith,
}
use ocfs2_test.Kernel.{slice, splice}
use ocfs2_test.FileVerify.{WriteRecord}
use ocfs2_test.FileVerify.Bytes.{to_le, of_le-to_le64, of_le-to_le32}
use ocfs2_test.FileVerify.Pattern.{body_size, filled, checksum_of, fill_chunk_pattern, dump_pattern}

-- The values are those of their C types, and the chunk has room for a character.
pub record IsSound (wu : WriteRecord) : Type 0 where
  pub room : 40 < wu.chunksize
  pub size_fits : wu.chunksize < 2 ^ 32
  pub no_fits : wu.chunk_no < 2 ^ 64
  pub time_fits : wu.timestamp < 2 ^ 64

-- The end of the pattern.
abbrev pub tail_at : WriteRecord → ℕ
tail_at wu = wu.chunksize - 20

module _ (wu : WriteRecord) (sound : IsSound wu) where
  pub body_size_lem : body_size wu ≡ wu.chunksize - 40
  body_size_lem = omega (arith, sound.room, sound.size_fits)

  pub offset_lem : (wu.chunksize + 2 ^ 64 - 20) % 2 ^ 64 ≡ wu.chunksize - 20
  offset_lem = omega (arith, sound.room, sound.size_fits)

  pub slice-filled :
      (pattern : ℕ → ℕ)
      → slice (filled pattern wu) 20 (body_size wu) ≡ replicate (wu.chunksize - 40) wu.char
  unfolding filled
  slice-filled pattern = rw body_size_lem (
      subst (λ n. slice (splice p2 20 chars) 20 n ≡ chars)
        (length-replicate (wu.chunksize - 40) wu.char) (slice-splice p2 20 chars))
    where
      chars : List ℕ
      chars = replicate (wu.chunksize - 40) wu.char

      p2 : ℕ → ℕ
      p2 =
          splice (splice (splice pattern 0 (replicate wu.chunksize 0)) 0 (to_le 8 wu.chunk_no)) 8
            (to_le 8 wu.timestamp)

  -- The tail of the pattern after the other parts.
  module _ (m : ℕ → ℕ) (checksum : ℕ) where
    abbrev t : ℕ
    t = wu.chunksize - 20

    abbrev p4 : ℕ → ℕ
    p4 = splice m t (to_le 4 checksum)

    abbrev p5 : ℕ → ℕ
    p5 = splice p4 (t + 4) (to_le 8 wu.timestamp)

    abbrev p6 : ℕ → ℕ
    p6 = splice p5 (t + 4 + 8) (to_le 8 wu.chunk_no)

    abbrev p7 : ℕ → ℕ
    p7 = splice p6 16 (to_le 4 checksum)

    tail_checksum : slice p7 t 4 ≡ to_le 4 checksum
    tail_checksum =
        slice-splice_apart p6 16 (to_le 4 checksum) t 4 (inr (omega (arith, sound.room)))
        ∙ slice-splice_apart p5 (t + 4 + 8) (to_le 8 wu.chunk_no) t 4 (inl (omega arith))
        ∙ slice-splice_apart p4 (t + 4) (to_le 8 wu.timestamp) t 4 (inl (omega arith))
        ∙ slice-splice m t (to_le 4 checksum)

    tail_timestamp : slice p7 (t + 4) 8 ≡ to_le 8 wu.timestamp
    tail_timestamp =
        slice-splice_apart p6 16 (to_le 4 checksum) (t + 4) 8 (inr (omega (arith, sound.room)))
        ∙ slice-splice_apart p5 (t + 4 + 8) (to_le 8 wu.chunk_no) (t + 4) 8 (inl (omega arith))
        ∙ slice-splice p4 (t + 4) (to_le 8 wu.timestamp)

    tail_chunk_no : slice p7 (t + 4 + 8) 8 ≡ to_le 8 wu.chunk_no
    tail_chunk_no =
        slice-splice_apart p6 16 (to_le 4 checksum) (t + 4 + 8) 8 (inr (omega (arith, sound.room)))
        ∙ slice-splice p5 (t + 4 + 8) (to_le 8 wu.chunk_no)

    char_kept : p7 20 ≡ m 20
    char_kept =
        splice_out p6 16 (to_le 4 checksum) 20 (inr (omega arith))
        ∙ splice_out p5 (t + 4 + 8) (to_le 8 wu.chunk_no) 20 (inl (omega (arith, sound.room)))
        ∙ splice_out p4 (t + 4) (to_le 8 wu.timestamp) 20 (inl (omega (arith, sound.room)))
        ∙ splice_out m t (to_le 4 checksum) 20 (inl (omega (arith, sound.room)))

  checksum_of-lt : (align : ℕ) (pattern : ℕ → ℕ) → checksum_of align pattern wu < 2 ^ 32
  unfolding checksum_of
  checksum_of-lt align pattern = omega arith

  char_filled : (pattern : ℕ → ℕ) → filled pattern wu 20 ≡ wu.char
  unfolding filled
  char_filled pattern = rw body_size_lem (
      splice_in
        (splice (splice (splice pattern 0 (replicate wu.chunksize 0)) 0 (to_le 8 wu.chunk_no)) 8
          (to_le 8 wu.timestamp))
        20 (replicate (wu.chunksize - 40) wu.char) 20 (omega arith)
        (rw (length-replicate (wu.chunksize - 40) wu.char) (omega (arith, sound.room)))
      ∙ get_or-replicate (wu.chunksize - 40) wu.char 0 (omega (arith, sound.room)))

  -- `dump_pattern` after `fill_chunk_pattern` gives the write unit that was filled in, with its
  -- checksum, if the chunk has room for a character and the values fit their C types.
  pub dump-fill_chunk_pattern :
      (align : ℕ) (pattern : ℕ → ℕ)
      → dump_pattern (fill_chunk_pattern align pattern wu).0 wu.chunksize
        ≡ (fill_chunk_pattern align pattern wu).1
  unfolding dump_pattern fill_chunk_pattern
  dump-fill_chunk_pattern align pattern =
      rw
        (
          offset_lem,
          tail_checksum m checksum,
          tail_timestamp m checksum,
          tail_chunk_no m checksum,
          char_kept m checksum,
          char_filled pattern,
          of_le-to_le32 checksum (checksum_of-lt align pattern),
          of_le-to_le64 wu.timestamp sound.time_fits,
          of_le-to_le64 wu.chunk_no sound.no_fits,
        )
        refl
    where
      m : ℕ → ℕ
      m = filled pattern wu

      checksum : ℕ
      checksum = checksum_of align pattern wu
