-- ===== src/Holes/Fill/Bounds.antt =====
-- `fh_prep_rand_write_unit`: where a random write may lie.
use ocfs2_test.Common.{
  ℕ, zero, suc, ◌+◌, ◌-◌, ◌%◌, ◌^◌, ◌≤◌, ◌<◌, ◌≡◌, refl, Bool, true, false, ◌&&◌, ◌||◌, ltb, ◌==◌,
  Result, ok, failed, aborted, out_of_fuel, arith, Bool-cases, inl, inr, ◌≢◌,
}
use native.Mathlib.Nat.{mod-lt}
use ocfs2_test.Holes.{WriteUnit, max_write_size, rand_char_start}
use ocfs2_test.Holes.Draw.{get_rand, draw, align_in}
use ocfs2_test.Holes.Fill.{Options, Gen, place, attempt, asserts, draw_unit}

wrap : (lo x : ℕ) → lo < 2 ^ 64 → x < 2 ^ 64 → (lo + (x + 2 ^ 64 - lo) % 2 ^ 64) % 2 ^ 64 ≡ x
wrap lo x h k = omega arith

-- `fh_get_rand` gives `rand() % max`, whatever `min` is: zero too where 1 is asked for.
pub get_rand_lem : (lo hi r : ℕ) → 0 < hi → hi < 2 ^ 64 → lo < 2 ^ 64 → get_rand lo hi r ≡ r % hi
unfolding get_rand
get_rand_lem lo hi r pos h l = ground (arith, wrap lo (r % hi), small)
  where
    small : r % hi < 2 ^ 64
    small = omega (arith, mod-lt r pos)

pub draw_offset-le : (stream : ℕ → ℕ) (hi i : ℕ) → hi < 2 ^ 64 → (draw stream 0 hi i).0 ≤ hi
unfolding draw
draw_offset-le stream zero i h = omega arith
draw_offset-le stream (suc hi) i h =
    ground (arith, get_rand_lem 0 (suc hi) (stream i), mod-lt (stream i) {m = suc hi} (omega arith))

pub draw_len-lt : (stream : ℕ → ℕ) (i : ℕ) → (draw stream 1 max_write_size i).0 < max_write_size
unfolding draw
draw_len-lt stream i = ground (
  arith,
  get_rand_lem 1 max_write_size (stream i) (omega arith) (omega arith) (omega arith),
  mod-lt (stream i) {m = max_write_size} (omega arith),
)

pub draw_char-le : (stream : ℕ → ℕ) (i : ℕ) → (draw stream 0 52 i).0 ≤ 51
unfolding draw
draw_char-le stream i = ground (
  arith,
  get_rand_lem 0 52 (stream i) (omega arith) (omega arith) (omega arith),
  mod-lt (stream i) {m = 52} (omega arith),
)

-- A region of the file that the generator draws offsets from, `max_range` bytes and one more.
pub record Fits (o : Options) (max_range : ℕ) (g : Gen) : Type 0 where
  pub inside : g.cur_iter_offset + max_range + 1 ≤ g.file_size
  pub size_fits : g.file_size < 2 ^ 63
  pub range_fits : max_range < 2 ^ 31
  pub aligned : o.use_dio ≡ true → (g.file_size % 512 ≡ 0) × (g.cur_iter_offset % 512 ≡ 0)

place_bounds :
    (dio : Bool) (g : Gen) (r q max_range : ℕ)
    → g.cur_iter_offset + max_range + 1 ≤ g.file_size
    → g.file_size < 2 ^ 63
    → (dio ≡ true → (g.file_size % 512 ≡ 0) × (g.cur_iter_offset % 512 ≡ 0))
    → r ≤ max_range
    → q < max_write_size
    → let (offset, len) = place dio g r q in
      (g.cur_iter_offset ≤ offset) × (offset + len ≤ g.file_size) × (len ≤ max_write_size)
unfolding place
place_bounds false g r q max_range inside size a hr hq = ground arith
place_bounds true g r q max_range inside size a hr hq =
    let (size_aligned, off_aligned) = a refl in ground (arith, align64 r, align32 q)
  where
    align64 :
        (x : ℕ)
        → x < 2 ^ 63
        → (align_in 64 512 x % 512 ≡ 0) × (x ≤ align_in 64 512 x) × (align_in 64 512 x ≤ x + 511)
    align64 x h = omega arith

    align32 :
        (x : ℕ)
        → x < 2 ^ 31
        → (align_in 32 512 (x % 2 ^ 32) % 512 ≡ 0)
          × (x ≤ align_in 32 512 (x % 2 ^ 32))
          × (align_in 32 512 (x % 2 ^ 32) ≤ x + 511)
    align32 x h = omega arith

-- What the generator promises of a write.
pub record IsDrawn (start size : ℕ) (w : WriteUnit) : Type 0 where
  pub filled : 0 < w.len
  pub short : w.len ≤ max_write_size
  pub starts : start ≤ w.offset
  pub ends : w.offset + w.len ≤ size
  pub low : rand_char_start ≤ w.char
  pub high : w.char ≤ b'z'

pub attempt_bounds :
    (o : Options) (stream : ℕ → ℕ) (max_range : ℕ) (g : Gen)
    → Fits o max_range g
    → let (offset, len, j) = attempt o stream max_range g in
      (g.cur_iter_offset ≤ offset) × (offset + len ≤ g.file_size) × (len ≤ max_write_size)
unfolding attempt
attempt_bounds o stream max_range g f =
    let (r, i) = draw stream 0 max_range g.drawn in
    place_bounds o.use_dio g r (draw stream 1 max_write_size i).0 max_range f.inside f.size_fits
      f.aligned (draw_offset-le stream max_range g.drawn (omega (arith, f.range_fits)))
      (draw_len-lt stream i)

-- Whenever the loop ends it ends with a good write, and it never fails an `assert`.
abbrev pub Drawn : ℕ → ℕ → ℕ → ℕ → Result (WriteUnit × Gen) → Type 0
Drawn size start per_chunk in_chunk (ok (w, g)) =
    IsDrawn start size w
    × (g.file_size ≡ size)
    × (g.cur_iter_offset ≡ start)
    × (g.max_iter_per_chunk ≡ per_chunk)
    × (g.cur_iter_per_chunk ≡ in_chunk)
Drawn size start per_chunk in_chunk out_of_fuel = Unit
Drawn size start per_chunk in_chunk failed = ⊥
Drawn size start per_chunk in_chunk aborted = ⊥

abbrev pub DrawnFrom : Gen → Result (WriteUnit × Gen) → Type 0
DrawnFrom g = Drawn g.file_size g.cur_iter_offset g.max_iter_per_chunk g.cur_iter_per_chunk

pub asserts_lem :
    (w : WriteUnit)
    → rand_char_start ≤ w.char
    → w.char ≤ b'z'
    → w.len ≤ max_write_size
    → w.len ≢ 0
    → asserts w ≡ true
unfolding asserts
asserts_lem w a b c d = ground arith

pub draw_unit-Drawn :
    (f : ℕ) (o : Options) (stream : ℕ → ℕ) (char max_range : ℕ) (g : Gen)
    → Fits o max_range g
    → rand_char_start ≤ char
    → char ≤ b'z'
    → DrawnFrom g (draw_unit f o stream char max_range g)
unfolding draw_unit
draw_unit-Drawn zero o stream char max_range g fits lo hi = tt
draw_unit-Drawn (suc f) o stream char max_range g fits lo hi =
    let (offset, len, j) = attempt o stream max_range g in
    let b = attempt_bounds o stream max_range g fits in
    let again =
      draw_unit-Drawn f o stream char max_range (record g { drawn = j })
        (record {
          inside = fits.inside;
          size_fits = fits.size_fits;
          range_fits = fits.range_fits;
          aligned = fits.aligned;
        })
        lo hi in
    let w : WriteUnit = record { char = char; offset = offset; len = len } in
    elim (Bool-cases (len == 0 || (o.use_dio && ltb len 512))) [
      | inl e ↦ rw e again
      | inr e ↦
          rw (e, asserts_lem w lo hi b.2 (ground arith))
            (
              record {
                filled = ground arith;
                short = b.2;
                starts = b.0;
                ends = b.1;
                low = lo;
                high = hi;
              },
              refl,
              refl,
              refl,
              refl,
            )
    ]
