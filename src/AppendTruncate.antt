-- ===== src/AppendTruncate.antt =====
-- programs/write_append_truncate/write_append_truncate.c: one rank appends to a file while another one
-- truncates it, and rank 0 checks that one came after the other.
pub mod Reset
pub mod Race
pub mod Verdict
pub mod Passes
pub mod Whole
mod Tests
use ocfs2_test.Common.{
  ℕ, zero, suc, ◌+◌, ◌-◌, ◌%◌, ◌≡◌, ◌↔◌, Bool, true, false, List, [], ◌++◌, length, replicate, drop,
  ltb, ◌==◌, if◌then◌else◌, Result, ok, aborted, out_of_fuel, ◌>>=◌,
}
use ocfs2_test.Kernel.{Read, Written, error, bytes, wrote, slice, splice}

abbrev pub chunk_size_max : ℕ
chunk_size_max = 123456

abbrev pub append_size_max : ℕ
append_size_max = 123456

-- `chunk_size`, `append_size` and `trunc_offset`.
pub record Round : Type 0 where
  pub chunk_size : ℕ
  pub append_size : ℕ
  pub trunc_offset : ℕ

-- "reset the environment", from the `i`-th call of `rand()` on: three calls.
unfoldable pub draw_round : (ℕ → ℕ) → ℕ → Round
draw_round stream i =
    let chunk_size = stream i % (chunk_size_max - 1) + 1 in
    let append_size = stream (i + 1) % (append_size_max - 1) + 1 in
    record {
      chunk_size = chunk_size;
      append_size = append_size;
      trunc_offset = chunk_size + stream (i + 2) % append_size;
    }

-- What the program asks of the system for its file: `write` on a descriptor with `O_APPEND`, `truncate`,
-- `read` of a count at a position, and the `st_size` of `stat`.
pub record Shared : Type 1 where
  pub Disk : Type 0
  pub write : List ℕ → Disk → Written × Disk
  pub truncate : ℕ → Disk → Bool × Disk
  pub read : ℕ → ℕ → Disk → Read
  pub st_size : Disk → ℕ

-- The two cases, on `read_buf` for a file of `size` bytes: `error`.
unfoldable pub check_result : (List ℕ → List ℕ → ℕ) → Round → ℕ → (ℕ → ℕ) → ℕ
check_result memcmp o size read_buf =
    let base = memcmp (slice read_buf 0 o.chunk_size) (replicate o.chunk_size b'C') in
    let between = o.trunc_offset - o.chunk_size in
    let base_bad = if base == 0 then 0 else 1 in
    if size == o.trunc_offset
    then memcmp (slice read_buf o.chunk_size between) (replicate between b'A')
    else if memcmp (slice read_buf o.chunk_size between) (replicate between 0) == 0
    then (if memcmp (slice read_buf o.trunc_offset o.append_size) (replicate o.append_size b'A')
          == 0
        then base_bad
        else 1)
    else 1

module _ (k : Shared) where
  open k use {Disk, write, truncate, read, st_size}

  -- The loop of rank 0 that writes the chunk: `write` of nothing ends the program too.
  unfoldable pub write_chunk : ℕ → ℕ → Disk → Result Disk
  write_chunk zero left d = out_of_fuel
  write_chunk (suc f) left d =
      let (written, d') = write (replicate left b'C') d in
      elim written [
        | error ↦ aborted
        | wrote n ↦
            let rest = write_chunk f (left - n) d' in
            if n == 0 then aborted else if left - n == 0 then ok d' else rest
      ]

  -- What rank 0 does before the first barrier.
  unfoldable pub reset : ℕ → Round → Disk → Result Disk
  reset f o d =
      let (done, d') = truncate 0 d in if done then write_chunk f o.chunk_size d' else aborted

  -- The race: what is left to append, whether the file has been truncated, and the file. Calls that fail
  -- abort the job.
  pub data RaceStep (o : Round) : ℕ × Bool × Disk → ℕ × Bool × Disk → Type 0 where
    append :
        (left n : ℕ) (cut : Bool) (d d' : Disk)
        → write (replicate (suc left) b'A') d ≡ (wrote n, d')
        → RaceStep o (suc left, cut, d) (suc left - n, cut, d')
    truncate_once :
        (left : ℕ) (d d' : Disk)
        → truncate o.trunc_offset d ≡ (true, d')
        → RaceStep o (left, false, d) (left, true, d')

  pub data Races (o : Round) : ℕ × Bool × Disk → ℕ × Bool × Disk → Type 0 where
    start : (s : ℕ × Bool × Disk) → Races o s s
    step : (s t u : ℕ × Bool × Disk) → Races o s t → RaceStep o t u → Races o s u

  -- The loop of rank 0 that reads the file, with `left` bytes to go.
  unfoldable pub read_file : ℕ → ℕ → ℕ → Disk → Result (List ℕ)
  read_file zero left done d = out_of_fuel
  read_file (suc f) left done d = elim (read left done d) [
    | error ↦ aborted
    | bytes bs ↦
        let rest = read_file f (left - length bs) (done + length bs) d in
        if left - length bs == 0 then ok bs else (rest >>= λ more. ok (bs ++ more))
  ]

  module _ (memcmp : List ℕ → List ℕ → ℕ) where
    -- "Check the result" of rank 0: `error`, as it is broadcast. `read_buf` keeps what earlier rounds
    -- have left behind the end of the file.
    unfoldable pub check : ℕ → Round → (ℕ → ℕ) → Disk → Result ℕ
    check f o read_buf d = read_file f (st_size d) 0 d >>= λ bs.
        ok (check_result memcmp o (st_size d) (splice read_buf 0 bs))

    -- The end of a round: the job is aborted if `error` is 1.
    unfoldable pub end_round : ℕ → Round → (ℕ → ℕ) → Disk → Result ℕ
    end_round f o read_buf d =
        check f o read_buf d >>= λ verdict. if verdict == 1 then aborted else ok verdict
