-- ===== src/Holes/Fill/Trip.antt =====
-- fill_holes: the file and the log after a run.
use ocfs2_test.Kernel.Slices.{get_or-replicate}
use ocfs2_test.Common.{
  ℕ, zero, suc, ◌+◌, ◌-◌, ◌/◌, ◌%◌, ◌^◌, ◌≤◌, ◌<◌, ◌≡◌, refl, ◌∙◌, ap, subst, Bool, true, false,
  some, List, ◌∷◌, if◌then◌else◌, length, length-replicate, replicate, All, Result, ok, failed,
  aborted, out_of_fuel, ◌>>=◌, arith, Bool-cases, inl, inr,
}
use ocfs2_test.Kernel.{Kernel, Written, error, wrote, splice, Stores}
use ocfs2_test.Holes.{WriteUnit}
use ocfs2_test.Holes.Extent.{covers}
use ocfs2_test.Holes.Replay.{clear_hole, overlay}
use ocfs2_test.Holes.Fill.{Options, Gen, setup, prep_rand_write_unit, two_giga_byte}
use ocfs2_test.Holes.Fill.Bounds.{IsDrawn}
use ocfs2_test.Holes.Fill.Chunks.{
  IsOnTrack, setup-IsOnTrack, Prepared, prep_rand_write_unit-Prepared,
}
use ocfs2_test.Holes.Fill.Program.{
  no_log, do_write, pwrite_result, fill_loop, run, prep_write_unit, replay_eof,
}

-- A write of one character.
pub splice-replicate :
    (file : ℕ → ℕ) (w : WriteUnit) (p : ℕ)
    → splice file w.offset (replicate w.len w.char) p ≡ (if covers w p then w.char else file p)
splice-replicate file w p =
    ground (arith, length-replicate w.len w.char, get_or-replicate w.len w.char (p - w.offset))

-- The writes have no hole marker among them.
pub clear_hole-IsDrawn :
    (start size : ℕ) (w : WriteUnit) → IsDrawn start size w → (clear_hole w).char ≡ w.char
unfolding clear_hole
clear_hole-IsDrawn start size w d = ground (arith, d.low)

module _ (k : Kernel) (contents : k.Disk → ℕ → ℕ) (st : Stores k contents) where
  pwrite_result_lem :
      (w : WriteUnit) (d d' : k.Disk) (r : Written × k.Disk)
      → k.pwrite (replicate w.len w.char) w.offset d ≡ r
      → pwrite_result k r ≡ (true, d')
      → (p : ℕ) → contents d' p ≡ (if covers w p then w.char else contents d p)
  unfolding pwrite_result
  pwrite_result_lem w d d' (error, d1) e h p = cc
  pwrite_result_lem w d d' (wrote n, d1) e h p =
      st.pwrite_full (replicate w.len w.char) w.offset n d d'
        (e ∙ ap (λ x. (wrote n, x)) (ap (λ x. x.1) h)) p
      ∙ splice-replicate (contents d) w p

  -- `fh_do_write` without asynchronous I/O, if it returns 0, has changed the bytes of the write to
  -- its character, and no others.
  pub do_write_lem :
      (o : Options) (w : WriteUnit) (d d' : k.Disk)
      → o.enable_aio ≡ false
      → do_write k o w d ≡ (true, d')
      → (p : ℕ) → contents d' p ≡ (if covers w p then w.char else contents d p)
  unfolding do_write
  do_write_lem o w d d' sync e p = elim (Bool-cases o.use_mmap) [
    | inl m ↦
        let stored : mmap_set (replicate w.len w.char) w.offset d ≡ d' = ground (arith, e, m) in
        rw (← stored)
          (st.mmap_full (replicate w.len w.char) w.offset d p ∙ splice-replicate (contents d) w p)
    | inr m ↦
        pwrite_result_lem w d d' (k.pwrite (replicate w.len w.char) w.offset d) refl
          (ground (arith, e, m, sync)) p
  ]
    where
      open k use {mmap_set}

  -- The end of a run: a log of writes inside the file, as many as there were iterations, and the
  -- file with these writes in it.
  abbrev pub Filled : ℕ → ℕ → k.Disk → Result (List WriteUnit × k.Disk) → Type 0
  Filled n size d (ok (log, d')) =
      All (IsDrawn 0 size) log
      × (length log ≡ n)
      × ((p : ℕ) → overlay log p (some (contents d p)) ≡ some (contents d' p))
  Filled n size d failed = Unit
  Filled n size d out_of_fuel = Unit
  Filled n size d aborted = ⊥

  Filled-cons :
      (n size : ℕ) (w : WriteUnit) (d d1 : k.Disk) (r : Result (List WriteUnit × k.Disk))
      → IsDrawn 0 size w
      → ((p : ℕ) → contents d1 p ≡ (if covers w p then w.char else contents d p))
      → Filled n size d1 r
      → Filled (suc n) size d (r >>= λ (written, d''). ok (w ∷ written, d''))
  unfolding overlay
  Filled-cons n size w d d1 (ok (log, d')) drawn one (all, count, same) =
      ((drawn, all), ap suc count, λ p. ap (overlay log p) (first p) ∙ same p)
    where
      first :
          (p : ℕ)
          → (if covers w p then some (clear_hole w).char else some (contents d p))
            ≡ some (contents d1 p)
      first p = ground (arith, one p, clear_hole-IsDrawn 0 size w drawn)
  Filled-cons n size w d d1 failed drawn one h = tt
  Filled-cons n size w d d1 out_of_fuel drawn one h = tt
  Filled-cons n size w d d1 aborted drawn one h = h

  module _ (o : Options) (f : ℕ) (stream : ℕ → ℕ) (sync : o.enable_aio ≡ false) (size : ℕ) where
    -- After a write has been prepared.
    write_step :
        (n : ℕ) (w : WriteUnit) (g : Gen) (d : k.Disk) (r : Bool × k.Disk)
        → IsDrawn 0 size w
        → ((d1 : k.Disk) → Filled n size d1 (fill_loop k n f o stream no_log g d1))
        → do_write k o w d ≡ r
        → Filled (suc n) size d (
            let (done, d') = r in
            elim done [
              | false ↦ failed
              | true ↦
                  fill_loop k n f o stream no_log g d' >>= λ (written, d''). ok (w ∷ written, d'')
            ])
    write_step n w g d (false, d1) drawn next e = tt
    write_step n w g d (true, d1) drawn next e =
        Filled-cons n size w d d1 (fill_loop k n f o stream no_log g d1) drawn
          (do_write_lem o w d d1 sync e) (next d1)

    abbrev next_of : ℕ → k.Disk → Result (WriteUnit × Gen) → Result (List WriteUnit × k.Disk)
    next_of n d r = (r >>= λ (w, g'). ok (w, no_log, g')) >>= λ (w, log', g').
        (let (done, d') = do_write k o w d in
          elim done [
            | false ↦ failed
            | true ↦ fill_loop k n f o stream log' g' d' >>= λ (written, d''). ok (w ∷ written, d'')
          ])

    Prepared-step :
        (n i : ℕ) (d : k.Disk) (r : Result (WriteUnit × Gen))
        → ((g : Gen)
            → g.file_size ≡ size
            → IsOnTrack o (i + 1) g
            → (d1 : k.Disk) → Filled n size d1 (fill_loop k n f o stream no_log g d1))
        → Prepared o i size r
        → Filled (suc n) size d (next_of n d r)
    Prepared-step n i d (ok (w, g)) next (drawn, same, track) =
        write_step n w g d (do_write k o w d) drawn (next g same track) refl
    Prepared-step n i d out_of_fuel next h = tt
    Prepared-step n i d failed next h = tt
    Prepared-step n i d aborted next h = h

    pub fill_loop-Filled :
        (n i : ℕ) (g : Gen) (d : k.Disk)
        → i + n ≤ o.max_iter
        → g.file_size ≡ size
        → IsOnTrack o i g
        → Filled n size d (fill_loop k n f o stream no_log g d)
    unfolding fill_loop prep_write_unit replay_eof overlay
    fill_loop-Filled zero i g d le same track = (tt, refl, λ p. refl)
    fill_loop-Filled (suc n) i g d le same track =
        Prepared-step n i d (prep_rand_write_unit f o stream g)
          (λ g' same' track' d1. fill_loop-Filled n (i + 1) g' d1 (omega arith) same' track')
          (subst (λ z. Prepared o i z (prep_rand_write_unit f o stream g)) same
            (prep_rand_write_unit-Prepared o i f stream g (omega arith) track))

  -- A run of fill_holes without a replay log and without asynchronous I/O, on a disk that stores what
  -- it takes, never fails an `assert`, if there is an iteration for each full 2 GiB of the file, the file
  -- has 1 to 2^63 - 1 bytes, whole sectors of 512 for direct I/O, and `max_iter` fits in 32 bits. If it
  -- ends with a log, the log has `max_iter` writes, each with 1 to `MAX_WRITE_SIZE` bytes inside the
  -- file, and the file has the last write of the log at each byte, or what it had before where there
  -- is none.
  pub run-Filled :
      (o : Options) (f : ℕ) (stream : ℕ → ℕ) (size : ℕ) (d : k.Disk)
      → o.enable_aio ≡ false
      → 0 < size
      → size < 2 ^ 63
      → o.max_iter < 2 ^ 32
      → (o.use_dio ≡ true → size % 512 ≡ 0)
      → size / two_giga_byte ≤ o.max_iter
      → Filled o.max_iter (setup o size).file_size d (run k f o stream no_log size d)
  unfolding run
  run-Filled o f stream size d sync pos fits iters dio enough =
      fill_loop-Filled o f stream sync (setup o size).file_size o.max_iter 0 (setup o size) d
        (omega arith) refl (setup-IsOnTrack o size pos fits iters dio enough)
