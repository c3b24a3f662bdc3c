-- ===== src/Mmap/Tests.antt =====
-- A round of multi_mmap with two ranks, and the theorems about it at concrete states.
use ocfs2_test.Common.{ℕ, zero, suc, ◌<◌, ◌≡◌, ◌≢◌, ◌⊎◌, refl, arith, [], ◌∷◌}
use ocfs2_test.Kernel.{slice}
use ocfs2_test.Mmap.{
  Job, Turn, write_block, read_block, expected_pattern, in_barrier, passed, gone, failed, System,
  write, enter_writer, enter_reader, Step, move, release, init, Reach, start, later,
}
use ocfs2_test.Mmap.Invariant.{IsJob}
use ocfs2_test.Mmap.Safety.{no_rank_fails}
use ocfs2_test.Mmap.Progress.{some_rank_steps}

abbrev pair : Job
pair = record { num_procs = 2; blocksize = 3; max_passes = 1 }

pair-IsJob : IsJob pair
pair-IsJob = record { two_ranks = omega arith; offsets_fit = omega arith }

abbrev zeroes : ℕ → ℕ
zeroes p = 0

abbrev first : Turn
first = record { this_pass = 0; block = 0; startchar = b'a' }

-- A state with the steps that lead to it.
record Run : Type 0 where
  state : System
  reach : Reach pair zeroes state

abbrev then : (r : Run) {s : System} → Step pair r.state s → Run
then r {s} step = record { state = s; reach = later r.reach step }

abbrev stored : Run
stored =
    then (record { state = init zeroes; reach = start })
      (move 0 (write_block pair first zeroes) first (omega arith) (write (omega arith) refl))

abbrev both_in : Run
both_in =
    then (then stored (move 0 stored.state.file first (omega arith) enter_writer))
      (move 1 stored.state.file first (omega arith) (enter_reader (omega arith) refl))

both_wait : (j : ℕ) → j < 2 → both_in.state.pc j ≡ in_barrier
both_wait zero h = refl
both_wait (suc zero) h = refl
both_wait (suc (suc j)) h = absurd (omega arith)

abbrev opened : Run
opened = then both_in (release both_wait)

no_rank_fails_example :
    (opened.state.pc 1 ≢ failed)
    × (opened.state.pc 1 ≡ passed
        → read_block pair (opened.state.turn 1) opened.state.file
          ≡ expected_pattern pair (opened.state.turn 1))
no_rank_fails_example = no_rank_fails pair pair-IsJob zeroes opened.reach 1 (omega arith)

-- What the reader finds.
block_is_stored : read_block pair first opened.state.file ≡ 97 ∷ 97 ∷ 97 ∷ []
unfolding slice
block_is_stored = refl

some_rank_steps_example :
    ((s : System) × Step pair opened.state s) ⊎ ((j : ℕ) → j < 2 → opened.state.pc j ≡ gone)
some_rank_steps_example = some_rank_steps pair pair-IsJob zeroes opened.reach
