-- ===== src/FileVerify/Crc/Laws.antt =====
-- `crc32_checksum` of file_verify.c: words of four bytes against single bytes.
use Prim.Native.Nat.{bit_xor}
use ocfs2_test.Common.{
  ℕ, ◌+◌, ◌*◌, ◌/◌, ◌%◌, ◌<◌, ◌≡◌, refl, ◌∙◌, sym, ap, List, [], ◌∷◌, ◌++◌, get_or, take, drop,
  take-append-drop, All, All-append_right, arith, subst,
}
use ocfs2_test.FileVerify.Table.{crc32table_le}
use ocfs2_test.FileVerify.Xor.{xor_assoc, xor_zero, xor-mod_byte, xor-div_byte}
use ocfs2_test.FileVerify.Crc.{do_crc, crc_bytes, crc_word, crc_words, crc32_checksum}

-- A step on a checksum with more bytes mixed in is a step with the lowest of them, and the others
-- stay mixed in.
do_crc_mixed : (crc w : ℕ) → do_crc (bit_xor crc w) 0 ≡ bit_xor (do_crc crc (w % 256)) (w / 256)
unfolding do_crc
do_crc_mixed crc w =
    rw (xor_zero (bit_xor crc w), same_byte, xor-div_byte crc w)
      (sym (xor_assoc (get_or crc32table_le (bit_xor crc (w % 256) % 256) 0) (crc / 256) (w / 256)))
  where
    twice : w % 256 % 256 ≡ w % 256
    twice = omega arith

    same_byte : bit_xor crc w % 256 ≡ bit_xor crc (w % 256) % 256
    same_byte =
        xor-mod_byte crc w ∙ ap (bit_xor (crc % 256)) (sym twice) ∙ sym (xor-mod_byte crc (w % 256))

crc_word_lem :
    (crc b0 b1 b2 b3 : ℕ)
    → b0 < 256
    → b1 < 256
    → b2 < 256
    → b3 < 256
    → crc_word crc (b0 + 256 * (b1 + 256 * (b2 + 256 * b3)))
      ≡ do_crc (do_crc (do_crc (do_crc crc b0) b1) b2) b3
unfolding crc_word
crc_word_lem crc b0 b1 b2 b3 h0 h1 h2 h3 =
    rw
      (
        do_crc_mixed crc w,
        do_crc_mixed (do_crc crc (w % 256)) (w / 256),
        do_crc_mixed (do_crc (do_crc crc (w % 256)) (w / 256 % 256)) (w / 256 / 256),
        do_crc_mixed (do_crc (do_crc (do_crc crc (w % 256)) (w / 256 % 256)) (w / 256 / 256 % 256))
            (w / 256 / 256 / 256),
        e0,
        e1,
        e2,
        e3,
        e4,
      )
      (xor_zero (do_crc (do_crc (do_crc (do_crc crc b0) b1) b2) b3))
  where
    w : ℕ
    w = b0 + 256 * (b1 + 256 * (b2 + 256 * b3))

    e0 : w % 256 ≡ b0
    e0 = omega arith

    e1 : w / 256 % 256 ≡ b1
    e1 = omega arith

    e2 : w / 256 / 256 % 256 ≡ b2
    e2 = omega arith

    e3 : w / 256 / 256 / 256 % 256 ≡ b3
    e3 = omega arith

    e4 : w / 256 / 256 / 256 / 256 ≡ 0
    e4 = omega arith

abbrev IsByte : ℕ → Type 0
IsByte b = b < 256

crc_words_lem : (crc : ℕ) (bs : List ℕ) → All IsByte bs → crc_words crc bs ≡ crc_bytes crc bs
unfolding crc_words crc_bytes
crc_words_lem crc [] h = refl
crc_words_lem crc (b0 ∷ []) h = refl
crc_words_lem crc (b0 ∷ b1 ∷ []) h = refl
crc_words_lem crc (b0 ∷ b1 ∷ b2 ∷ []) h = refl
crc_words_lem crc (b0 ∷ b1 ∷ b2 ∷ b3 ∷ bs) (h0, (h1, (h2, (h3, h)))) =
    rw (crc_word_lem crc b0 b1 b2 b3 h0 h1 h2 h3)
      (crc_words_lem (do_crc (do_crc (do_crc (do_crc crc b0) b1) b2) b3) bs h)

crc_bytes-append :
    (crc : ℕ) (xs ys : List ℕ) → crc_bytes crc (xs ++ ys) ≡ crc_bytes (crc_bytes crc xs) ys
unfolding crc_bytes
crc_bytes-append crc [] ys = refl
crc_bytes-append crc (x ∷ xs) ys = crc_bytes-append (do_crc crc x) xs ys

-- `crc32_checksum`, which takes the bytes up to a multiple of 4 one by one, then words of four, then
-- the rest one by one, gives what the loop over all bytes one by one gives, however the bytes are
-- aligned.
pub crc32_checksum_lem :
    (align crc : ℕ) (bs : List ℕ)
    → All (λ b. b < 256) bs
    → crc32_checksum align crc bs ≡ crc_bytes crc bs
unfolding crc32_checksum
crc32_checksum_lem align crc bs h =
    crc_words_lem (crc_bytes crc (take align bs)) (drop align bs) (
      All-append_right IsByte (take align bs) (drop align bs)
        (subst (All IsByte) (sym (take-append-drop align bs)) h))
    ∙ sym (crc_bytes-append crc (take align bs) (drop align bs))
    ∙ ap (crc_bytes crc) (take-append-drop align bs)
