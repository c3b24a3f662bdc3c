-- ===== src/Holes/Fill/Program.antt =====
-- programs/fill_verify_holes/fill_holes.c: one write to the file, and the loop of `main`.
use ocfs2_test.Common.{
  ℕ, zero, suc, Bool, true, false, List, [], ◌∷◌, if◌then◌else◌, not, length, replicate, Result, ok,
  failed, ◌>>=◌,
}
use ocfs2_test.Kernel.{Kernel, Written, error, wrote, bytes}
use ocfs2_test.Aio.{aio_setup, aio_pwrite, aio_query, aio_destroy}
use ocfs2_test.Holes.{WriteUnit}
use ocfs2_test.Holes.Replay.{Scan, fields, malformed}
use ocfs2_test.Holes.Fill.{Options, Gen, setup, prep_rand_write_unit}

-- `replaylogfile`: none, or the results of the `fscanf`s to come and `feof`.
pub data Replaylog : Type 0 where
  no_log : Replaylog
  lines : List Scan → Bool → Replaylog

-- `fh_replay_eof`
unfoldable pub replay_eof : Replaylog → Bool
replay_eof no_log = false
replay_eof (lines rest eof) = eof

is_empty : List Scan → Bool
is_empty [] = true
is_empty (_ ∷ _) = false

-- `fh_prep_write_unit`. The white space at the end of the format takes the reader to the end of the
-- file with the last line.
unfoldable pub prep_write_unit :
    ℕ → Options → (ℕ → ℕ) → Replaylog → Gen → Result (WriteUnit × Replaylog × Gen)
unfolding is_empty
prep_write_unit f o stream no_log g =
    prep_rand_write_unit f o stream g >>= λ (w, g'). ok (w, no_log, g')
prep_write_unit f o stream (lines [] eof) g = failed
prep_write_unit f o stream (lines (malformed ∷ rest) eof) g = failed
prep_write_unit f o stream (lines (fields w ∷ rest) eof) g = ok (w, lines rest (is_empty rest), g)

module _ (k : Kernel) where
  open k use {Disk, pwrite, pread, mmap_set}

  -- The part of `fh_do_write` under `enable_aio`. A difference between what was written and what is
  -- read back is printed and has no other effect. `true` is the return value 0 of `fh_do_write`.
  unfoldable pub aio_write : List ℕ → ℕ → Disk → Bool × Disk
  aio_write buf off d =
      let (set_up, a, d1) = aio_setup k 1 d in
      let (submitted, a2, d2) = aio_pwrite k buf off a d1 in
      let (queried, a3, d3) = aio_query k 1 1 a2 d2 in
      let (destroyed, a4, d4) = aio_destroy k a3 d3 in
      if not set_up
      then (false, d1)
      else if not submitted
      then (false, d2)
      else if not queried
      then (false, d3)
      else (elim (pread (length buf) off d3) [ error ↦ (false, d3) | bytes bs ↦ (destroyed, d4) ])

  -- The last part of `fh_do_write`: any result of `pwrite` but -1 will do.
  unfoldable pub pwrite_result : Written × Disk → Bool × Disk
  pwrite_result (error, d) = (false, d)
  pwrite_result (wrote n, d) = (true, d)

  -- `fh_do_write`
  unfoldable pub do_write : Options → WriteUnit → Disk → Bool × Disk
  unfolding pwrite_result
  do_write o w d =
      let buf = replicate w.len w.char in
      if o.use_mmap
      then (true, mmap_set buf w.offset d)
      else if o.enable_aio
      then aio_write buf w.offset d
      else pwrite_result (pwrite buf w.offset d)

  -- The loop of `main`, with `n` iterations left: the log that is written, and the file.
  -- `f` bounds the draws for one write.
  unfoldable pub fill_loop :
      ℕ → ℕ → Options → (ℕ → ℕ) → Replaylog → Gen → Disk → Result (List WriteUnit × Disk)
  fill_loop zero f o stream log g d = ok ([], d)
  fill_loop (suc n) f o stream log g d =
      if replay_eof log
      then ok ([], d)
      else (prep_write_unit f o stream log g >>= λ (w, log', g').
          (let (done, d') = do_write o w d in
            elim done [
              | false ↦ failed
              | true ↦ fill_loop n f o stream log' g' d' >>= λ (written, d''). ok (w ∷ written, d'')
            ]))

  -- `main` from `fh_prep_file` on, for the size that the options gave: the file `d` has been
  -- truncated to it.
  unfoldable pub run : ℕ → Options → (ℕ → ℕ) → Replaylog → ℕ → Disk → Result (List WriteUnit × Disk)
  run f o stream log size d = fill_loop o.max_iter f o stream log (setup o size) d
