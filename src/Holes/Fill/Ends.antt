-- ===== src/Holes/Fill/Ends.antt =====
-- fill_holes: when it ends with a log, and when it aborts at once.
use ocfs2_test.Common.{
  ℕ, zero, suc, ◌+◌, ◌-◌, ◌*◌, ◌/◌, ◌%◌, ◌^◌, ◌≤◌, ◌<◌, ◌≡◌, ◌≢◌, refl, subst, true, false, List,
  [], ◌∷◌, ok, aborted, arith, inl, inr,
}
use ocfs2_test.Kernel.{Kernel}
use ocfs2_test.Holes.{WriteUnit, max_write_size, rand_char_start}
use ocfs2_test.Holes.Draw.{draw}
use ocfs2_test.Holes.Fill.{
  Options, Gen, setup, two_giga_byte, draw_unit, range_of, prep_rand_write_unit, next_chunk,
}
use ocfs2_test.Holes.Fill.Bounds.{Fits, draw_char-le}
use ocfs2_test.Holes.Fill.Chunks.{
  IsOnTrack, Prepared, setup-IsOnTrack, Chunked-inside, Single-inside, range_of-Single,
  range_of-Chunked, next_chunk-Chunked, prep_rand_write_unit-Prepared,
}
use ocfs2_test.Holes.Fill.Program.{no_log, do_write, fill_loop, run, prep_write_unit, replay_eof}
use ocfs2_test.Holes.Fill.Waits.{draw_unit_returns}

-- If a file of more than 2 GiB has more chunks of 2 GiB than there are iterations, the first write
-- fails the `assert` on the size of the file.
pub too_few_iterations :
    (o : Options) (f : ℕ) (stream : ℕ → ℕ) (size : ℕ)
    → two_giga_byte < size
    → 0 < o.max_iter
    → o.max_iter < size / two_giga_byte
    → prep_rand_write_unit f o stream (setup o size) ≡ aborted
unfolding prep_rand_write_unit range_of setup
too_few_iterations o f stream size big some few = ground (arith, none_per_chunk, still_big)
  where
    none_per_chunk : o.max_iter / (size / two_giga_byte) ≡ 0
    none_per_chunk = grind arith

    still_big : two_giga_byte < size / two_giga_byte * two_giga_byte
    still_big = omega arith

size_setup : (o : Options) (size : ℕ) → 1 < size → 1 < (setup o size).file_size
unfolding setup
size_setup o size h = ground arith

module _ (o : Options) (stream : ℕ → ℕ) (buffered : o.use_dio ≡ false)
    (lucky : (i : ℕ) → stream i % max_write_size ≢ 0) where
  unit_returns :
      (f max_range : ℕ) (g : Gen)
      → Fits o max_range g
      → 0 < max_range
      → (w : WriteUnit) × (g' : Gen) × (draw_unit
            (suc f)
            o
            stream
            (rand_char_start + (draw stream 0 52 g.drawn).0)
            max_range
            (record g { drawn = (draw stream 0 52 g.drawn).1 })
          ≡ ok (w, g'))
  unit_returns f max_range g fits pos =
      draw_unit_returns o stream max_range buffered (suc f) 0
        (rand_char_start + (draw stream 0 52 g.drawn).0)
        (record g { drawn = (draw stream 0 52 g.drawn).1 })
        (record {
          inside = fits.inside;
          size_fits = fits.size_fits;
          range_fits = fits.range_fits;
          aligned = fits.aligned;
        })
        pos (omega arith) (omega (arith, draw_char-le stream g.drawn)) (lucky _) (omega arith)

  prep_returns :
      (i f : ℕ) (g : Gen)
      → i < o.max_iter
      → 1 < g.file_size
      → IsOnTrack o i g
      → (w : WriteUnit) × (g' : Gen) × (prep_rand_write_unit (suc f) o stream g ≡ ok (w, g'))
  unfolding prep_rand_write_unit
  prep_returns i f g lt size (inl c) =
      let c' = next_chunk-Chunked o i g lt c in
      let (w, g', e) =
        unit_returns f (two_giga_byte - 1) (next_chunk g)
          (Chunked-inside o (i + 1) (next_chunk g) (omega arith) c') (omega arith) in
      (w, g', rw (range_of-Chunked o i g c) e)
  prep_returns i f g lt size (inr c) =
      let (w, g', e) = unit_returns f (g.file_size - 1) g (Single-inside o g c) (omega arith) in
      (w, g', rw (range_of-Single o g c) e)

  module _ (k : Kernel) (accepts : (w : WriteUnit) (d : k.Disk) → (do_write k o w d).0 ≡ true) where
    loop_step :
        (n f : ℕ) (g g' : Gen) (w : WriteUnit) (d d' : k.Disk) (log : List WriteUnit)
        → prep_rand_write_unit (suc f) o stream g ≡ ok (w, g')
        → fill_loop k n (suc f) o stream no_log g' (do_write k o w d).1 ≡ ok (log, d')
        → fill_loop k (suc n) (suc f) o stream no_log g d ≡ ok (w ∷ log, d')
    unfolding fill_loop prep_write_unit replay_eof
    loop_step n f g g' w d d' log e e' = ground (arith, e, accepts w d, e')

    loop_returns :
        (n i f : ℕ) (g : Gen) (d : k.Disk)
        → i + n ≤ o.max_iter
        → 1 < g.file_size
        → IsOnTrack o i g
        → (log : List WriteUnit) × (d' : k.Disk) × (fill_loop k n (suc f) o stream no_log g d
            ≡ ok (log, d'))
    unfolding fill_loop
    loop_returns zero i f g d le size track = ([], d, refl)
    loop_returns (suc n) i f g d le size track =
        let (w, g', e) = prep_returns i f g (omega arith) size track in
        let (drawn, same, track') =
          subst (Prepared o i g.file_size) e
            (prep_rand_write_unit-Prepared o i (suc f) stream g (omega arith) track) in
        let (log, d', e') =
          loop_returns n (i + 1) f g' (do_write k o w d).1 (omega arith) (omega arith) track' in
        (w ∷ log, d', loop_step n f g g' w d d' log e e')

    -- fill_holes without a replay log ends with a log if the file takes every write, no direct I/O is
    -- asked for, no random number is a multiple of `MAX_WRITE_SIZE`, the file has 2 to 2^63 - 1 bytes,
    -- and `max_iter` fits in 32 bits and gives an iteration for each full 2 GiB of the file; then one
    -- pass for each write is enough.
    pub run_returns :
        (f size : ℕ) (d : k.Disk)
        → 1 < size
        → size < 2 ^ 63
        → o.max_iter < 2 ^ 32
        → size / two_giga_byte ≤ o.max_iter
        → (log : List WriteUnit) × (d' : k.Disk) × (run k (suc f) o stream no_log size d
            ≡ ok (log, d'))
    unfolding run
    run_returns f size d pos fits iters enough =
        loop_returns o.max_iter 0 f (setup o size) d (omega arith) (size_setup o size pos)
          (setup-IsOnTrack o size (omega arith) fits iters (λ e. cc (e, buffered)) enough)
