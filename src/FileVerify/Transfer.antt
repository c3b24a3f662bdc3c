-- ===== src/FileVerify/Transfer.antt =====
-- programs/libocfs2test/file_verify.c: whole reads and writes out of partial ones, and the chunks of
-- a file.
pub mod Partial
pub mod Laws
pub mod Chunk
use ocfs2_test.Common.{
  ℕ, zero, suc, ◌+◌, ◌-◌, ◌*◌, ◌^◌, ◌%◌, Bool, ◌&&◌, List, [], ◌++◌, leb, ltb, ◌==◌, if◌then◌else◌,
  length, drop, Result, ok, failed, out_of_fuel, ◌>>=◌,
}
use ocfs2_test.Kernel.{Kernel, Read, Written, error, bytes, wrote, slice, splice}
use ocfs2_test.FileVerify.{WriteRecord}
use ocfs2_test.FileVerify.Pattern.{fill_chunk_pattern, dump_pattern}

module _ (k : Kernel) where
  open k use {Disk, pread, pwrite}

  -- The `pread`s of `read_at`, with `count` bytes to go; each takes one unit of fuel.
  unfoldable pub read_rest : ℕ → ℕ → ℕ → Disk → Result (List ℕ)
  read_rest zero count offset d = out_of_fuel
  read_rest (suc f) count offset d = elim (pread count offset d) [
    | error ↦ failed
    | bytes bs ↦
        let rest = read_rest f (count - length bs) (offset + length bs) d in
        if ltb (length bs) count then (rest >>= λ more. ok (bs ++ more)) else ok bs
  ]

  -- `read_at`: the bytes that it puts into the buffer.
  unfoldable pub read_at : ℕ → ℕ → ℕ → ℕ → Disk → Result (List ℕ)
  read_at f count offset i_size d =
      let count =
        if ltb i_size (offset + count) && leb offset i_size then i_size - offset else count in
      if count == 0 then ok [] else read_rest f count offset d

  -- `write_at`; each `pwrite` takes one unit of fuel.
  unfoldable pub write_at : ℕ → List ℕ → ℕ → Disk → Result Disk
  write_at zero buf offset d = out_of_fuel
  write_at (suc f) buf offset d =
      let (written, d') = pwrite buf offset d in
      elim written [
        | error ↦ failed
        | wrote n ↦
            let rest = write_at f (drop n buf) (offset + n) d' in
            if ltb n (length buf) then rest else ok d'
      ]

  -- `do_write_chunk`: the product of an `unsigned int` and an `unsigned long`.
  unfoldable pub do_write_chunk : ℕ → ℕ → (ℕ → ℕ) → WriteRecord → Disk → Result Disk
  do_write_chunk f align tmp wu d =
      let pattern = (fill_chunk_pattern align tmp wu).0 in
      write_at f (slice pattern 0 wu.chunksize) (wu.chunksize * wu.chunk_no % 2 ^ 64) d

  -- `do_read_chunk`, for the size that `fstat` gives: its result and `*wu`. What `malloc` gave is
  -- `tmp`.
  unfoldable pub do_read_chunk : ℕ → (ℕ → ℕ) → ℕ → ℕ → ℕ → Disk → Result (ℕ × WriteRecord)
  do_read_chunk f tmp chunk_no chunksize i_size d =
      read_at f chunksize (chunksize * chunk_no % 2 ^ 64) i_size d >>= λ bs.
      ok (length bs, dump_pattern (splice tmp 0 bs) chunksize)
