-- ===== src/Mmap.antt =====
-- programs/multi_node_mmap/multi_mmap.c: the ranks of an MPI job take turns in writing a block of a
-- shared file, and the others verify it.
pub mod Invariant
pub mod Steps
pub mod Safety
pub mod Progress
mod Tests
use ocfs2_test.Common.{
  ℕ, ◌+◌, ◌*◌, ◌%◌, ◌^◌, ◌≤◌, ◌<◌, ◌≡◌, ◌≢◌, Bool, true, false, List, ltb, ◌==◌, if◌then◌else◌,
  replicate,
}
use ocfs2_test.Kernel.{slice, splice}

-- `num_procs`, which is `num_blocks` too, `blocksize` and `max_passes`.
pub record Job : Type 0 where
  pub num_procs : ℕ
  pub blocksize : ℕ
  pub max_passes : ℕ

-- `this_pass`, the block of `write_verify_blocks`, and `startchar`.
pub record Turn : Type 0 where
  pub this_pass : ℕ
  pub block : ℕ
  pub startchar : ℕ

-- The end of a round, in `write_verify_blocks` and, behind its last block, in `main`.
abbrev pub next_turn : Job → Turn → Turn
next_turn o t =
    if ltb (t.block + 1) o.num_procs
    then record { this_pass = t.this_pass; block = t.block + 1; startchar = t.startchar }
    else record {
      this_pass = t.this_pass + 1;
      block = 0;
      startchar = if ltb b'z' (t.startchar + o.num_procs) then b'a' else t.startchar + 1;
    }

-- `fill_with_expected_pattern`
abbrev pub expected_pattern : Job → Turn → List ℕ
expected_pattern o t = replicate o.blocksize ((t.startchar + t.block) % 2 ^ 8)

-- The offset of a block, in `unsigned int`.
abbrev pub offset : Job → Turn → ℕ
offset o t = t.block * o.blocksize % 2 ^ 32

-- `write_block` and `read_block`, mapped or not: the file is the same to all ranks at once.
abbrev pub write_block : Job → Turn → (ℕ → ℕ) → ℕ → ℕ
write_block o t file = splice file (offset o t) (expected_pattern o t)

abbrev pub read_block : Job → Turn → (ℕ → ℕ) → List ℕ
read_block o t file = slice file (offset o t) o.blocksize

-- Where a rank stands in its round.
pub data Pc : Type 0 where
  head : Pc  -- before `do_writer` or `do_reader`
  written : Pc  -- the writer is behind `write_block`
  in_barrier : Pc
  passed : Pc  -- behind the barrier
  gone : Pc  -- behind the last pass
  failed : Pc  -- "Verification failed", before `MPI_Abort`

-- `(i % num_procs) == rank`
abbrev pub writes : Job → Turn → ℕ → Bool
writes o t rank = t.block % o.num_procs == rank

pub record System : Type 0 where
  pub file : ℕ → ℕ
  pub pc : ℕ → Pc
  pub turn : ℕ → Turn

-- One step of one rank: from one value of its program counter to the next, with the file and its turn
-- after it. The calls of the system and of MPI do not fail, and `-e` is not given.
pub data Move (o : Job) (rank : ℕ) (file : ℕ → ℕ) (t : Turn)
    : Pc → (ℕ → ℕ) → Pc → Turn → Type 0 where
  leave : o.max_passes ≤ t.this_pass → Move o rank file t head file gone t
  write :
      t.this_pass < o.max_passes
      → writes o t rank ≡ true
      → Move o rank file t head (write_block o t file) written t
  enter_writer : Move o rank file t written file in_barrier t
  enter_reader :
      t.this_pass < o.max_passes
      → writes o t rank ≡ false
      → Move o rank file t head file in_barrier t
  end_writer : writes o t rank ≡ true → Move o rank file t passed file head (next_turn o t)
  read_same :
      writes o t rank ≡ false
      → read_block o t file ≡ expected_pattern o t
      → Move o rank file t passed file head (next_turn o t)
  read_other :
      writes o t rank ≡ false
      → read_block o t file ≢ expected_pattern o t
      → Move o rank file t passed file failed t

abbrev pub update {ℓ} : {A : Type ℓ} → (ℕ → A) → ℕ → A → ℕ → A
update f i a j = if j == i then a else f j

-- The ranks from 0 to `num_procs - 1`, interleaved in any order; the barrier opens when all are in it.
pub data Step (o : Job) (s : System) : System → Type 0 where
  move :
      (i : ℕ) (file : ℕ → ℕ) (t : Turn) {p : Pc}
      → i < o.num_procs
      → Move o i s.file (s.turn i) (s.pc i) file p t
      → Step o s (record { file = file; pc = update s.pc i p; turn = update s.turn i t })
  release :
      ((j : ℕ) → j < o.num_procs → s.pc j ≡ in_barrier)
      → Step o s (record { file = s.file; pc = λ j. passed; turn = s.turn })

-- Behind `prep_file`, with whatever is in the file.
abbrev pub init : (ℕ → ℕ) → System
init file = record {
  file = file;
  pc = λ j. head;
  turn = λ j. record { this_pass = 0; block = 0; startchar = b'a' };
}

pub data Reach (o : Job) (file : ℕ → ℕ) : System → Type 0 where
  start : Reach o file (init file)
  later : {s t : System} → Reach o file s → Step o s t → Reach o file t
