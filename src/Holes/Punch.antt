-- ===== src/Holes/Punch.antt =====
-- programs/fill_verify_holes/punch_holes.c: a file is filled with random runs, then random holes are
-- punched into it; both go to the log.
pub mod Bounds
pub mod Populate
pub mod Gaps
pub mod Accepted
pub mod Ends
use ocfs2_test.Common.{
  ℕ, zero, suc, ◌+◌, ◌-◌, ◌*◌, ◌%◌, ◌^◌, Bool, true, false, ◌&&◌, List, [], ◌∷◌, ◌++◌, leb, ltb,
  ◌==◌, if◌then◌else◌, not, replicate, length, Result, ok, failed, aborted, out_of_fuel, ◌>>=◌,
}
use ocfs2_test.Kernel.{Kernel, Read, error, bytes}
use ocfs2_test.Aio.{aio_setup, aio_pwrite, aio_query, aio_destroy}
use ocfs2_test.Holes.{
  WriteUnit, max_write_size, rand_char_start, magic_hole_char, add64, sub64, to_u32,
}
use ocfs2_test.Holes.Draw.{draw}
use ocfs2_test.Holes.Replay.{Scan, fields, malformed}
use ocfs2_test.Holes.Fill.{asserts}
use ocfs2_test.Holes.Fill.Program.{Replaylog, no_log, lines, replay_eof}

-- One pass of `ph_prep_rand_write_unit`: the write, and the calls of `rand()` after it.
unfoldable pub random_unit : (ℕ → ℕ) → ℕ → ℕ → WriteUnit × ℕ
random_unit stream file_size i =
    let (c, i1) = draw stream 0 52 i in
    let (offset, i2) = draw stream 0 (sub64 file_size 1) i1 in
    let (q, i3) = draw stream 1 max_write_size i2 in
    let len = to_u32 q in
    (
      record {
        char = rand_char_start + c;
        offset = offset;
        len = if ltb file_size (add64 offset len) then to_u32 (sub64 file_size offset) else len;
      },
      i3,
    )

-- `ph_prep_rand_write_unit`; each `goto again` takes one unit of fuel. The `assert`s are those of
-- fill_holes.
unfoldable pub random_write : ℕ → (ℕ → ℕ) → ℕ → ℕ → Result (WriteUnit × ℕ)
random_write zero stream file_size i = out_of_fuel
random_write (suc f) stream file_size i =
    let (w, i') = random_unit stream file_size i in
    let again = random_write f stream file_size i' in
    if w.len == 0 then again else if asserts w then ok (w, i') else aborted

is_empty : List Scan → Bool
is_empty [] = true
is_empty (_ ∷ _) = false

-- `ph_prep_write_unit`
unfoldable pub next_write : ℕ → (ℕ → ℕ) → ℕ → Replaylog → ℕ → Result (WriteUnit × Replaylog × ℕ)
unfolding is_empty
next_write f stream file_size no_log i =
    random_write f stream file_size i >>= λ (w, i'). ok (w, no_log, i')
next_write f stream file_size (lines [] eof) i = failed
next_write f stream file_size (lines (malformed ∷ rest) eof) i = failed
next_write f stream file_size (lines (fields w ∷ rest) eof) i =
    ok (w, lines rest (is_empty rest), i)

-- `!replaylogfile`
unfoldable pub is_random : Replaylog → Bool
is_random no_log = true
is_random (lines _ _) = false

-- In `ph_prep_file` a random write is moved to `start` and cut at the end of the file.
unfoldable pub move_to : ℕ → ℕ → WriteUnit → WriteUnit
move_to start file_size w = record w {
  offset = start;
  len = if ltb file_size (add64 start w.len) then to_u32 (sub64 file_size start) else w.len;
}

module _ (k : Kernel) where
  open k use {Disk, pwrite, pread, unresvsp}

  -- After an error of `pread` the context is left as it is.
  read_back : Read → Disk → Disk → Disk
  read_back error d d' = d
  read_back (bytes bs) d d' = d'

  -- `ph_do_write`: it returns 0, whatever the writes did.
  unfoldable pub write_unit : Bool → WriteUnit → Disk → Disk
  unfolding read_back
  write_unit enable_aio w d =
      let buf = replicate w.len w.char in
      let (set_up, a, d1) = aio_setup k 1 d in
      let (submitted, a2, d2) = aio_pwrite k buf w.offset a d1 in
      let (queried, a3, d3) = aio_query k 1 1 a2 d2 in
      let (destroyed, a4, d4) = aio_destroy k a3 d3 in
      if not enable_aio
      then (pwrite buf w.offset d).1
      else if not set_up
      then d1
      else if not submitted
      then d2
      else if not queried
      then d3
      else read_back (pread w.len w.offset d3) d3 d4

  -- The loop of `ph_prep_file`. Each round and each `goto again` takes one unit of fuel; `f` bounds
  -- the draws for one write.
  unfoldable pub populate :
      ℕ
      → ℕ
      → Bool
      → (ℕ → ℕ)
      → ℕ
      → Replaylog
      → ℕ
      → ℕ
      → Disk
      → Result (List WriteUnit × Replaylog × ℕ × Disk)
  populate zero f aio stream size log start i d = out_of_fuel
  populate (suc n) f aio stream size log start i d =
      if ltb start size
      then (next_write f stream size log i >>= λ (w, log', i').
          (let w' = if is_random log then move_to start size w else w in
            let again = populate n f aio stream size log' start i' d in
            let rest =
              populate n f aio stream size log' (add64 start (add64 w'.offset w'.len)) i'
                (write_unit aio w' d)
              >>= λ (written, log'', j, d''). ok (w' ∷ written, log'', j, d'') in
            if is_random log && w'.len == 0 then again else rest))
      else ok ([], log, i, d)

  -- The loop of `main`, with `n` iterations left.
  unfoldable pub punch_loop :
      ℕ → ℕ → (ℕ → ℕ) → ℕ → Replaylog → ℕ → Disk → Result (List WriteUnit × Disk)
  punch_loop zero f stream size log i d = ok ([], d)
  punch_loop (suc n) f stream size log i d =
      if replay_eof log
      then ok ([], d)
      else (next_write f stream size log i >>= λ (w, log', i').
          (let hole = record w { char = magic_hole_char } in
            let (punched, d') = unresvsp w.offset w.len d in
            elim punched [
              | false ↦ failed
              | true ↦ punch_loop n f stream size log' i' d' >>= λ (written, d'').
                  ok (hole ∷ written, d'')
            ]))

  -- `main` from the loop of `ph_prep_file` on: the file `d` has been truncated to `size`. Where a
  -- replay log has a bad line in that loop, `main` goes on with a descriptor that is neither -1 nor
  -- open; the model fails there.
  unfoldable pub punch_run :
      ℕ → ℕ → ℕ → Bool → (ℕ → ℕ) → ℕ → Replaylog → Disk → Result (List WriteUnit × Disk)
  punch_run n f max_iter aio stream size log d =
      populate n f aio stream size log 0 0 d >>= λ (filled, log', i, d').
      (punch_loop max_iter f stream size log' i d' >>= λ (punched, d'').
      ok (filled ++ punched, d''))
