-- ===== src/FileVerify/Crc.antt =====
-- programs/libocfs2test/file_verify.c: the checksum, on a little-endian machine.
pub mod Laws
use Prim.Native.Nat.{bit_xor}
use ocfs2_test.Common.{ℕ, ◌+◌, ◌*◌, ◌/◌, ◌%◌, List, [], ◌∷◌, get_or, take, drop}
use ocfs2_test.FileVerify.Table.{crc32table_le}

-- `DO_CRC`
unfoldable pub do_crc : ℕ → ℕ → ℕ
unfolding crc32table_le
do_crc crc x = bit_xor (get_or crc32table_le (bit_xor crc x % 256) 0) (crc / 256)

-- The loops over single bytes.
unfoldable pub crc_bytes : ℕ → List ℕ → ℕ
crc_bytes crc [] = crc
crc_bytes crc (b ∷ bs) = crc_bytes (do_crc crc b) bs

-- `crc ^= *++b` and four `DO_CRC(0)`
unfoldable pub crc_word : ℕ → ℕ → ℕ
crc_word crc word = do_crc (do_crc (do_crc (do_crc (bit_xor crc word) 0) 0) 0) 0

-- The loop over words of 32 bits, and the last few bytes.
unfoldable pub crc_words : ℕ → List ℕ → ℕ
crc_words crc (b0 ∷ b1 ∷ b2 ∷ b3 ∷ bs) =
    crc_words (crc_word crc (b0 + 256 * (b1 + 256 * (b2 + 256 * b3)))) bs
crc_words crc [] = crc_bytes crc []
crc_words crc (b0 ∷ []) = crc_bytes crc (b0 ∷ [])
crc_words crc (b0 ∷ b1 ∷ []) = crc_bytes crc (b0 ∷ b1 ∷ [])
crc_words crc (b0 ∷ b1 ∷ b2 ∷ []) = crc_bytes crc (b0 ∷ b1 ∷ b2 ∷ [])

-- `crc32_checksum` of bytes that begin `align` bytes before a multiple of 4.
unfoldable pub crc32_checksum : ℕ → ℕ → List ℕ → ℕ
crc32_checksum align crc bs = crc_words (crc_bytes crc (take align bs)) (drop align bs)
