-- ===== src/Holes/Tests/Fill.antt =====
-- Runs of fill_holes, and the theorems about it at concrete inputs.
use ocfs2_test.Common.{
  ℕ, ◌+◌, ◌*◌, ◌≡◌, refl, true, false, List, [], ◌∷◌, map, ok, replicate, arith,
}
use ocfs2_test.Kernel.{splice}
use ocfs2_test.Holes.{WriteUnit}
use ocfs2_test.Holes.Replay.{fields}
use ocfs2_test.Holes.Check
use ocfs2_test.Holes.Draw.{get_rand, draw}
use ocfs2_test.Holes.Fill.{
  Options, Gen, setup, prep_rand_write_unit, draw_unit, attempt, place, asserts, range_of,
}
use ocfs2_test.Holes.Fill.Bounds.{Fits}
use ocfs2_test.Holes.Fill.Chunks.{Prepared, prep_rand_write_unit-Prepared, setup-IsOnTrack}
use ocfs2_test.Holes.Fill.Program.{
  no_log, do_write, run, fill_loop, prep_write_unit, replay_eof, pwrite_result,
}
use ocfs2_test.Holes.Fill.Trip.{Filled, run-Filled}
use ocfs2_test.Holes.Fill.Ends.{run_returns}
use ocfs2_test.Holes.Fill.Accepted.{fill_then_verify}
use ocfs2_test.Holes.Models.{plain_tree, read_of, read_of-Reads, memory, memory-Stores}

abbrev two_rounds : Options
two_rounds = record {
  max_iter = 2;
  use_mmap = false;
  use_dio = false;
  is_bdev = false;
  enable_aio = false;
}

-- `rand()` counts from 5 in steps of 7.
abbrev numbers : ℕ → ℕ
numbers i = 5 + 7 * i

abbrev zeroes : ℕ → ℕ
zeroes p = 0

abbrev first_write : WriteUnit
first_write = record { char = b'F'; offset = 12; len = 19 }

abbrev second_write : WriteUnit
second_write = record { char = b'['; offset = 33; len = 40 }

abbrev filled : ℕ → ℕ
filled = splice (splice zeroes 12 (replicate 19 b'F')) 33 (replicate 40 b'[')

fill_runs :
    run memory 1 two_rounds numbers no_log 100 zeroes ≡ ok (first_write ∷ second_write ∷ [], filled)
unfolding run fill_loop prep_write_unit replay_eof setup prep_rand_write_unit range_of draw_unit
    attempt place asserts draw get_rand do_write pwrite_result
fill_runs = refl

fill_then_verify_example :
    Check.run (read_of filled 100) plain_tree 100 (map fields (first_write ∷ second_write ∷ []))
    ≡ ok tt
fill_then_verify_example =
    fill_then_verify memory (λ d. d) memory-Stores two_rounds 1 numbers 100 zeroes filled
      (first_write ∷ second_write ∷ []) plain_tree (read_of filled 100) refl (omega arith)
      (omega arith) (omega arith) (λ e. cc) (omega arith) (λ p h. refl) fill_runs
      (read_of-Reads filled 100)

run-Filled_example :
    Filled memory
      (λ d. d)
      memory-Stores
      2
      (setup two_rounds 100).file_size
      zeroes
      (run memory 1 two_rounds numbers no_log 100 zeroes)
run-Filled_example =
    run-Filled memory (λ d. d) memory-Stores two_rounds 1 numbers 100 zeroes refl (omega arith)
      (omega arith) (omega arith) (λ e. cc) (omega arith)

run_returns_example :
    (log : List WriteUnit) × (d : ℕ → ℕ) × (run memory 1
        (record two_rounds { use_mmap = true })
        (λ i. 5)
        no_log
        100
        zeroes
      ≡ ok (log, d))
unfolding do_write
run_returns_example =
    run_returns (record two_rounds { use_mmap = true }) (λ i. 5) refl (λ i. omega arith) memory
      (λ w d. refl) 0 100 zeroes (omega arith) (omega arith) (omega arith) (omega arith)

abbrev start : Gen
start = record {
  file_size = 100;
  max_iter_per_chunk = 0;
  cur_iter_per_chunk = 0;
  cur_iter_offset = 0;
  drawn = 1;
}

start-Fits : Fits two_rounds 99 start
start-Fits = record {
  inside = omega arith;
  size_fits = omega arith;
  range_fits = omega arith;
  aligned = λ e. cc;
}

prep_rand_write_unit-Prepared_example :
    Prepared two_rounds 0
      (setup two_rounds 100).file_size
      (prep_rand_write_unit 1 two_rounds numbers (setup two_rounds 100))
prep_rand_write_unit-Prepared_example =
    prep_rand_write_unit-Prepared two_rounds 0 1 numbers (setup two_rounds 100) (omega arith) (
      setup-IsOnTrack two_rounds 100 (omega arith) (omega arith) (omega arith) (λ e. cc)
        (omega arith))
