-- ===== src/Lvb/Tests.antt =====
-- A round of lvb_torture with two ranks, and the theorems about it at concrete states.
use ocfs2_test.Common.{ℕ, zero, suc, ◌<◌, ◌≡◌, ◌≢◌, ◌⊎◌, refl, true, false, arith}
use ocfs2_test.Lvb.{
  gone, aborted, System, holds, holds_ex, lock_ex, enter_writer, enter_reader, lock_pr, see_old,
  see_new, write_lvb, unlock_writer, unlock_reader, enter_second, Step, move, release, init, Reach,
  start, later, in_mpi,
}
use ocfs2_test.Lvb.Safety.{no_rank_aborts}
use ocfs2_test.Lvb.Deadlock.{no_deadlock}

-- A state with the steps that lead to it.
record Run : Type 0 where
  state : System
  reach : Reach 2 1 state

abbrev then : (r : Run) {s : System} → Step 2 1 r.state s → Run
then r {s} step = record { state = s; reach = later r.reach step }

abbrev begun : Run
begun = record { state = init; reach = start }

init_free : (j : ℕ) → j < 2 → holds 2 init j ≡ false
init_free j h = ground arith

abbrev locked : Run
locked = then begun (move 0 0 (omega arith) (lock_ex (omega arith) refl init_free))

abbrev both_in : Run
both_in =
    then (then locked (move 0 0 (omega arith) enter_writer))
      (move 1 0 (omega arith) (enter_reader (omega arith) refl))

both_wait : (j : ℕ) → j < 2 → in_mpi (both_in.state.pc j) ≡ true
both_wait zero h = refl
both_wait (suc zero) h = refl
both_wait (suc (suc j)) h = absurd (omega arith)

abbrev checked : Run
checked = then (then both_in (release both_wait)) (move 0 0 (omega arith) (see_old refl refl))

abbrev counted : Run
counted = then checked (move 0 1 (omega arith) (write_lvb refl))

abbrev released : Run
released =
    then (then counted (move 0 1 (omega arith) unlock_writer)) (move 0 1 (omega arith) enter_second)

lock_free : (j : ℕ) → j < 2 → holds_ex 2 released.state j ≡ false
lock_free zero h = refl
lock_free (suc zero) h = refl
lock_free (suc (suc j)) h = absurd (omega arith)

abbrev both_out : Run
both_out =
    then
      (then
        (then (then released (move 1 1 (omega arith) (lock_pr refl lock_free)))
          (move 1 1 (omega arith) (see_new refl)))
        (move 1 1 (omega arith) (unlock_reader refl)))
      (move 1 1 (omega arith) enter_second)

no_rank_aborts_example : counted.state.pc 0 ≢ aborted
no_rank_aborts_example = no_rank_aborts 2 1 (omega arith) counted.reach 0 (omega arith)

no_deadlock_example :
    ((s : System) × Step 2 1 counted.state s) ⊎ ((j : ℕ) → j < 2 → counted.state.pc j ≡ gone)
no_deadlock_example = no_deadlock 2 1 (omega arith) counted.reach
