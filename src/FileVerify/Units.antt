-- ===== src/FileVerify/Units.antt =====
-- The write units that `prep_rand_dest_write_unit` of file_verify.c gives for some chunks, one after the
-- other.
use native.Mathlib.Nat.{mod-eq_of_lt, mod-lt, mul-le-mul_right}
use ocfs2_test.Common.{
  ℕ, suc, ◌+◌, ◌*◌, ◌%◌, ◌^◌, ◌<◌, ◌≡◌, refl, ap, List, [], ◌∷◌, map, All, to_u32, arith,
}
use ocfs2_test.FileVerify.{WriteRecord}
use ocfs2_test.FileVerify.Pattern.{fill_chunk_pattern}
use ocfs2_test.FileVerify.Prepare.{
  get_rand_ul, rand_char, get_time_microseconds, prep_rand_dest_write_unit,
}
use ocfs2_test.FileVerify.Store.{IsUnit}

-- What `gettimeofday` gives: a time after the first second of 1970, with less than a million
-- microseconds.
pub record Ticks (clock : ℕ → ℕ × ℕ) : Type 0 where
  pub after_epoch : (t : ℕ) → 0 < (clock t).0
  pub seconds_fit : (t : ℕ) → (clock t).0 < 2 ^ 43
  pub microseconds : (t : ℕ) → (clock t).1 < 1000000

module _ (align : ℕ) (tmp stream : ℕ → ℕ) (clock : ℕ → ℕ × ℕ) (chunk_size : ℕ) where
  unfoldable pub units : List ℕ → ℕ → ℕ → List WriteRecord
  units [] r t = []
  units (chunk_no ∷ order) r t =
      prep_rand_dest_write_unit stream clock align tmp r t chunk_no chunk_size
      ∷ units order (suc r) (suc t)

  pub chunk_no-units :
      (order : List ℕ) (r t : ℕ) → map (λ wu. wu.chunk_no) (units order r t) ≡ order
  unfolding units prep_rand_dest_write_unit fill_chunk_pattern
  chunk_no-units [] r t = refl
  chunk_no-units (c ∷ order) r t = ap (◌∷◌ c) (chunk_no-units order (suc r) (suc t))

  module _ (ticks : Ticks clock) (room : 40 < chunk_size) (size_fits : chunk_size < 2 ^ 32) where
    rand_char-fits : (r : ℕ) → rand_char stream r < 256
    unfolding rand_char get_rand_ul
    rand_char-fits r = small (stream r % 26) (mod-lt (stream r) (omega arith))
      where
        small : (v : ℕ) → v < 26 → 65 + (0 + v) % 2 ^ 64 < 256
        small v h = omega arith

    some_time :
        (t : ℕ) → (0 < get_time_microseconds clock t) × (get_time_microseconds clock t < 2 ^ 64)
    unfolding get_time_microseconds
    some_time t = omega (arith, ticks.after_epoch t, ticks.seconds_fit t, ticks.microseconds t)

    -- The write units are those of chunks of the file, and have a time.
    pub units-IsUnit :
        (n : ℕ) (order : List ℕ) (r t : ℕ)
        → chunk_size * n < 2 ^ 64
        → All (λ c. c < n) order
        → All (λ wu. IsUnit n chunk_size wu × (0 < wu.timestamp)) (units order r t)
    unfolding units prep_rand_dest_write_unit fill_chunk_pattern
    units-IsUnit n [] r t fits h = tt
    units-IsUnit n (c ∷ order) r t fits (h, hs) = (
      (
        record {
          sound = record {
            room = rw u32 room;
            size_fits = rw u32 size_fits;
            no_fits = omega (arith, low_no);
            time_fits = (some_time t).1;
          };
          char_fits = rand_char-fits r;
          size_same = u32;
          inside = h;
          no_wrap = below;
        },
        (some_time t).0,
      ),
      units-IsUnit n order (suc r) (suc t) fits hs,
    )
      where
        u32 : to_u32 chunk_size ≡ chunk_size
        u32 = mod-eq_of_lt size_fits

        below : chunk_size * c < 2 ^ 64
        below = omega (arith, fits, mul-le-mul_right {m = c} {n = n} chunk_size (omega (arith, h)))

        low_no : c < 2 ^ 64
        low_no =
            omega (arith, below, mul-le-mul_right {m = 1} {n = chunk_size} c (omega (arith, room)))
