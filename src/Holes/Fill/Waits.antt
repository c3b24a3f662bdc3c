-- ===== src/Holes/Fill/Waits.antt =====
-- `fh_prep_rand_write_unit`: how long the loop from `again` may go on.
use ocfs2_test.Common.{
  ℕ, zero, suc, ◌+◌, ◌-◌, ◌*◌, ◌%◌, ◌^◌, ◌≤◌, ◌<◌, ◌≡◌, ◌≢◌, refl, Bool, true, false, ◌&&◌, ◌||◌,
  ltb, ◌==◌, ok, arith, Bool-cases, inl, inr, dec_lt, subst,
}
use native.Mathlib.Nat.{mod-lt}
use ocfs2_test.Holes.{WriteUnit, max_write_size, rand_char_start}
use ocfs2_test.Holes.Draw.{draw}
use ocfs2_test.Holes.Fill.{Options, Gen, place, attempt, draw_unit}
use ocfs2_test.Holes.Fill.Bounds.{Fits, get_rand_lem, attempt_bounds, asserts_lem}

draw_lem :
    (stream : ℕ → ℕ) (lo hi i : ℕ)
    → 0 < hi
    → hi < 2 ^ 32
    → lo < 2 ^ 32
    → draw stream lo hi i ≡ (stream i % hi, i + 1)
unfolding draw
draw_lem stream lo hi i pos h l =
    ground (arith, get_rand_lem lo hi (stream i) pos (omega arith) (omega arith))

place_filled :
    (dio : Bool) (g : Gen) (r q : ℕ)
    → dio ≡ false
    → g.cur_iter_offset + r + 1 ≤ g.file_size
    → g.file_size < 2 ^ 63
    → q < max_write_size
    → q ≢ 0
    → (place dio g r q).1 ≢ 0
unfolding place
place_filled true g r q e inside fits small h = cc
place_filled false g r q e inside fits small h = λ z. ground arith

module _ (o : Options) (stream : ℕ → ℕ) (max_range : ℕ) (buffered : o.use_dio ≡ false) where
  attempt_lem :
      (g : Gen)
      → 0 < max_range
      → max_range < 2 ^ 31
      → attempt o stream max_range g ≡ (
          let (offset, len) =
            place o.use_dio g
              (stream g.drawn % max_range)
              (stream (g.drawn + 1) % max_write_size) in
          (offset, len, g.drawn + 1 + 1))
  unfolding attempt
  attempt_lem g pos fits = rw (
    draw_lem stream 0 max_range g.drawn pos (omega arith) (omega arith),
    draw_lem stream 1 max_write_size (g.drawn + 1) (omega arith) (omega arith) (omega arith),
  )

  -- Without direct I/O a pass calls `rand()` twice, and fails only if the second number gives the
  -- length zero.
  attempt_len :
      (g : Gen)
      → Fits o max_range g
      → 0 < max_range
      → ((attempt o stream max_range g).2 ≡ g.drawn + 2)
        × (stream (g.drawn + 1) % max_write_size ≢ 0 → (attempt o stream max_range g).1 ≢ 0)
  attempt_len g fits pos = rw (attempt_lem g pos fits.range_fits) (
    omega arith,
    place_filled o.use_dio g (stream g.drawn % max_range) _ buffered
        (omega (arith, fits, mod-lt (stream g.drawn) pos)) fits.size_fits
        (mod-lt (stream (g.drawn + 1)) {m = max_write_size} (omega arith)),
  )

  -- The loop from `again` returns a write, and does so in the first pass whose second random number
  -- is not a multiple of `MAX_WRITE_SIZE` at the latest.
  pub draw_unit_returns :
      (f j char : ℕ) (g : Gen)
      → Fits o max_range g
      → 0 < max_range
      → rand_char_start ≤ char
      → char ≤ b'z'
      → stream (g.drawn + 2 * j + 1) % max_write_size ≢ 0
      → j < f
      → (w : WriteUnit) × (g' : Gen) × (draw_unit f o stream char max_range g ≡ ok (w, g'))
  unfolding draw_unit
  draw_unit_returns zero j char g fits pos lo hi good lt = absurd (omega arith)
  draw_unit_returns (suc f) j char g fits pos lo hi good lt =
      let len = (attempt o stream max_range g).1 in
      let next = (attempt o stream max_range g).2 in
      let (two, filled) = attempt_len g fits pos in
      let w : WriteUnit = record {
        char = char;
        offset = (attempt o stream max_range g).0;
        len = len;
      } in
      elim (Bool-cases (len == 0 || (o.use_dio && ltb len 512))) [
        | inl e ↦
            let none_yet : 0 < j = elim (dec_lt 0 j) [
              | yes p ↦ p
              | no q ↦
                  let first : g.drawn + 2 * j + 1 ≡ g.drawn + 1 = omega arith in
                  absurd
                    (filled (subst (λ i. stream i % max_write_size ≢ 0) first good) (ground arith))
            ] in
            let later : g.drawn + 2 * j + 1 ≡ next + 2 * (j - 1) + 1 = omega arith in
            rw e (
              draw_unit_returns f (j - 1) char (record g { drawn = next })
                (record {
                  inside = fits.inside;
                  size_fits = fits.size_fits;
                  range_fits = fits.range_fits;
                  aligned = fits.aligned;
                })
                pos lo hi (subst (λ i. stream i % max_write_size ≢ 0) later good) (omega arith))
        | inr e ↦
            rw (e, asserts_lem w lo hi (attempt_bounds o stream max_range g fits).2 (ground arith))
              (w, record g { drawn = next }, refl)
      ]
