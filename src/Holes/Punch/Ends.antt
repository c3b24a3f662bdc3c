-- ===== src/Holes/Punch/Ends.antt =====
-- How long the loops of punch_holes.c go on.
use ocfs2_test.Common.{
  ap, length-append, ◌==◌, ℕ, zero, suc, ◌-◌, ◌%◌, ◌^◌, ◌≤◌, ◌<◌, ◌≡◌, ◌≢◌, refl, false, true, List,
  [], ◌∷◌, ◌++◌, length, ok, ltb, arith, Bool-cases, inl, inr,
}
use ocfs2_test.Kernel.{Kernel}
use ocfs2_test.Holes.{WriteUnit, max_write_size, magic_hole_char, add64}
use ocfs2_test.Holes.Fill.Bounds.{IsDrawn, asserts_lem}
use ocfs2_test.Holes.Fill.Program.{no_log, replay_eof}
use ocfs2_test.Holes.Punch.{
  random_unit, random_write, next_write, is_random, move_to, write_unit, populate, punch_loop,
  punch_run,
}
use ocfs2_test.Holes.Punch.Bounds.{random_unit-InFile, random_unit-filled}
use ocfs2_test.Holes.Punch.Populate.{move_to-IsDrawn}

-- The random numbers draw no empty write.
pub record IsLively (stream : ℕ → ℕ) (size : ℕ) : Type 0 where
  pub several : 1 < size
  pub fits : size < 2 ^ 63
  pub some_len : (j : ℕ) → stream j % max_write_size ≢ 0

random_write_returns :
    (f : ℕ) (stream : ℕ → ℕ) (size i : ℕ)
    → IsLively stream size
    → (random_write (suc f) stream size i ≡ ok (random_unit stream size i))
      × IsDrawn 0 size (random_unit stream size i).0
unfolding random_write
random_write_returns f stream size i h =
    let (w, i') = random_unit stream size i in
    let b = random_unit-InFile stream size i (omega (arith, h.several)) h.fits in
    let some_byte = random_unit-filled stream size i h.several h.fits h.some_len in
    let taken : (w.len == 0) ≡ false = ground (arith, some_byte) in
    (
      rw (taken, asserts_lem w b.low b.high b.short some_byte) refl,
      record {
        filled = ground (arith, some_byte);
        short = b.short;
        starts = omega arith;
        ends = b.ends;
        low = b.low;
        high = b.high;
      },
    )

module _ (k : Kernel) (f : ℕ) (stream : ℕ → ℕ) (size : ℕ) (lively : IsLively stream size) where
  -- Each round moves `start` on by a byte at least.
  populate_returns :
      (n start i : ℕ) (d : k.Disk)
      → size - start < n
      → (ws : List WriteUnit) × (j : ℕ) × (d' : k.Disk) × (populate k n
            (suc f)
            false
            stream
            size
            no_log
            start
            i
            d
          ≡ ok (ws, no_log, j, d'))
  unfolding populate next_write is_random
  populate_returns zero start i d h = absurd (omega arith)
  populate_returns (suc n) start i d h = elim (Bool-cases (ltb start size)) [
    | inr past ↦ ([], i, d, rw past refl)
    | inl here ↦
        let (e, drawn) = random_write_returns f stream size i lively in
        let (w, i') = random_unit stream size i in
        let w' = move_to start size w in
        let m = move_to-IsDrawn start size w (ground arith) lively.fits drawn in
        let some_byte : (w'.len == 0) ≡ false = ground (arith, m.filled) in
        let (ws, j, d', again) =
          populate_returns n (add64 start (add64 w'.offset w'.len)) i' (write_unit k false w' d)
            (ground (arith, m.filled, m.ends, m.starts, lively.fits)) in
        (w' ∷ ws, j, d', rw (here, e, some_byte, again) refl)
  ]

  -- Where every punch succeeds the second loop makes `max_iter` holes.
  punch_loop_returns :
      (n i : ℕ) (d : k.Disk)
      → ((off len : ℕ) (d1 : k.Disk) → (k.unresvsp off len d1).0 ≡ true)
      → (ws : List WriteUnit) × (d' : k.Disk) × (length ws ≡ n)
        × (punch_loop k n (suc f) stream size no_log i d ≡ ok (ws, d'))
  unfolding punch_loop next_write replay_eof
  punch_loop_returns zero i d punches = ([], d, refl, refl)
  punch_loop_returns (suc n) i d punches =
      let (e, drawn) = random_write_returns f stream size i lively in
      let (w, i') = random_unit stream size i in
      let (ws, d', count, again) =
        punch_loop_returns n i' (k.unresvsp w.offset w.len d).1 punches in
      (
        record w { char = magic_hole_char } ∷ ws,
        d',
        ap suc count,
        rw (e, punches w.offset w.len d, again) refl,
      )

  -- Without a replay log and without asynchronous I/O, where no value of `rand()` is a multiple of
  -- `MAX_WRITE_SIZE` and every punch succeeds, punch_holes ends for a file of 2 to 2^63 - 1 bytes: fuel for one round per byte and one more, and for one
  -- draw per write, is enough. The log has `max_iter` entries at least.
  pub punch_run_returns :
      (max_iter : ℕ) (d : k.Disk)
      → ((off len : ℕ) (d1 : k.Disk) → (k.unresvsp off len d1).0 ≡ true)
      → (log : List WriteUnit) × (d' : k.Disk) × (max_iter ≤ length log)
        × (punch_run k (suc size) (suc f) max_iter false stream size no_log d ≡ ok (log, d'))
  unfolding punch_run
  punch_run_returns max_iter d punches =
      let (filled, i, d1, e1) = populate_returns (suc size) 0 0 d (omega arith) in
      let (holes, d2, count, e2) = punch_loop_returns max_iter i d1 punches in
      (filled ++ holes, d2, omega (arith, length-append filled holes, count), rw (e1, e2) refl)
