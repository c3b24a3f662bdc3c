-- ===== src/Lvb.antt =====
-- programs/lvb_torture/lvb_torture.c: the ranks of an MPI job take turns in writing a counter into the
-- value block of a cluster lock, and the others check what they read.
pub mod Invariant
pub mod Steps
pub mod Safety
pub mod Progress
pub mod Deadlock
mod Tests
use ocfs2_test.Common.{
  ℕ, ◌+◌, ◌%◌, ◌≤◌, ◌<◌, ◌≡◌, ◌≢◌, Bool, true, false, ◌&&◌, not, ◌==◌, if◌then◌else◌,
}

-- Where a rank stands in `run_test`.
pub data Pc : Type 0 where
  head : Pc  -- the test of the `while`
  locked_first : Pc  -- the writer has the lock, before the first barrier
  in_barrier : Pc  -- in the first `MPI_Barrier`
  passed : Pc  -- behind it
  locked_second : Pc  -- a reader has the lock
  compared : Pc  -- the value block was as expected
  written : Pc  -- `o2dlm_write_lvb` is done
  unlocked : Pc
  in_second : Pc  -- in the last `MPI_Barrier` of the round
  gone : Pc  -- behind the loop
  aborted : Pc  -- in `MPI_Abort`, "Test failed!"

-- The value block, and for each rank where it stands and its `iter`.
pub record System : Type 0 where
  pub lvb : ℕ
  pub pc : ℕ → Pc
  pub iter : ℕ → ℕ

-- `(iter % num_procs) == rank`: the level is `O2DLM_LEVEL_EXMODE`.
abbrev pub writes : ℕ → System → ℕ → Bool
writes num_procs s rank = s.iter rank % num_procs == rank

-- Whether a rank that writes has its lock, and whether a rank that reads has.
abbrev pub has_ex : Pc → Bool
has_ex locked_first = true
has_ex in_barrier = true
has_ex passed = true
has_ex compared = true
has_ex written = true
has_ex _ = false

abbrev pub has_pr : Pc → Bool
has_pr locked_second = true
has_pr compared = true
has_pr _ = false

abbrev pub holds_ex : ℕ → System → ℕ → Bool
holds_ex num_procs s rank = writes num_procs s rank && has_ex (s.pc rank)

abbrev pub holds : ℕ → System → ℕ → Bool
holds num_procs s rank = if writes num_procs s rank then has_ex (s.pc rank) else has_pr (s.pc rank)

-- One step of one rank in `run_test`, from one value of its program counter to the next, with the
-- value block after it. The cluster lock excludes all others in mode EX and writers in mode PR; its
-- calls and those of MPI do not fail, and no signal arrives.
pub data Move (num_procs max_iter rank : ℕ) (s : System) : Pc → ℕ → Pc → Type 0 where
  leave : max_iter ≤ s.iter rank → Move num_procs max_iter rank s head s.lvb gone
  lock_ex :
      s.iter rank < max_iter
      → writes num_procs s rank ≡ true
      → ((j : ℕ) → j < num_procs → holds num_procs s j ≡ false)
      → Move num_procs max_iter rank s head s.lvb locked_first
  enter_writer : Move num_procs max_iter rank s locked_first s.lvb in_barrier
  enter_reader :
      s.iter rank < max_iter
      → writes num_procs s rank ≡ false
      → Move num_procs max_iter rank s head s.lvb in_barrier
  lock_pr :
      writes num_procs s rank ≡ false
      → ((j : ℕ) → j < num_procs → holds_ex num_procs s j ≡ false)
      → Move num_procs max_iter rank s passed s.lvb locked_second
  see_old :
      writes num_procs s rank ≡ true
      → s.lvb ≡ s.iter rank
      → Move num_procs max_iter rank s passed s.lvb compared
  miss_old :
      writes num_procs s rank ≡ true
      → s.lvb ≢ s.iter rank
      → Move num_procs max_iter rank s passed s.lvb aborted
  see_new : s.lvb ≡ s.iter rank + 1 → Move num_procs max_iter rank s locked_second s.lvb compared
  miss_new : s.lvb ≢ s.iter rank + 1 → Move num_procs max_iter rank s locked_second s.lvb aborted
  write_lvb :
      writes num_procs s rank ≡ true
      → Move num_procs max_iter rank s compared (s.iter rank + 1) written
  unlock_writer : Move num_procs max_iter rank s written s.lvb unlocked
  unlock_reader :
      writes num_procs s rank ≡ false → Move num_procs max_iter rank s compared s.lvb unlocked
  enter_second : Move num_procs max_iter rank s unlocked s.lvb in_second

-- `MPI_Barrier` does not tell one call from another: the ranks leave when all are in one.
abbrev pub in_mpi : Pc → Bool
in_mpi in_barrier = true
in_mpi in_second = true
in_mpi _ = false

abbrev pub resume : Pc → Pc
resume in_barrier = passed
resume in_second = head
resume p = p

abbrev pub next_iter : Pc → ℕ → ℕ
next_iter in_second n = n + 1
next_iter _ n = n

abbrev pub update : (ℕ → Pc) → ℕ → Pc → ℕ → Pc
update pc i p j = if j == i then p else pc j

-- The ranks from 0 to `num_procs - 1`, interleaved in any order.
pub data Step (num_procs max_iter : ℕ) (s : System) : System → Type 0 where
  move :
      (i lvb : ℕ) {p : Pc}
      → i < num_procs
      → Move num_procs max_iter i s (s.pc i) lvb p
      → Step num_procs max_iter s (record { lvb = lvb; pc = update s.pc i p; iter = s.iter })
  release :
      ((j : ℕ) → j < num_procs → in_mpi (s.pc j) ≡ true)
      → Step num_procs max_iter s (record {
        lvb = s.lvb;
        pc = λ j. resume (s.pc j);
        iter = λ j. next_iter (s.pc j) (s.iter j);
      })

-- Behind `clear_lock` and the first barrier of `main`.
abbrev pub init : System
init = record { lvb = 0; pc = λ j. head; iter = λ j. 0 }

pub data Reach (num_procs max_iter : ℕ) : System → Type 0 where
  start : Reach num_procs max_iter init
  later :
      {s t : System}
      → Reach num_procs max_iter s
      → Step num_procs max_iter s t
      → Reach num_procs max_iter t
