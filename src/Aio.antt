-- ===== src/Aio.antt =====
-- programs/libocfs2test/aio.c: the bookkeeping of asynchronous requests. An operation returns
-- whether it succeeded (its result is not negative), the new `struct o2test_aio` and the new disk.
mod Tests
pub mod Laws
use ocfs2_test.Common.{
  ℕ, zero, suc, ◌+◌, Bool, true, false, List, [], ◌∷◌, leb, ltb, if◌then◌else◌, not,
}
use ocfs2_test.Kernel.{Kernel, Iocb, prep_pwrite, Written, error, wrote}

-- `struct o2test_aio` without the context and the request buffers, which the kernel parameter holds.
pub record Aio : Type 0 where
  pub nr_events : ℕ
  pub cr_event : ℕ

module _ (k : Kernel) where
  open k use {Disk, io_setup, io_submit, io_getevents, io_destroy}

  abbrev pub Outcome : Type 0
  Outcome = Bool × Aio × Disk

  -- `o2test_aio_setup`
  unfoldable pub aio_setup : ℕ → Disk → Outcome
  aio_setup nr d =
      let (done, d') = io_setup nr d in (done, record { nr_events = nr; cr_event = 0 }, d')

  -- `o2test_aio_pwrite`
  unfoldable pub aio_pwrite : List ℕ → ℕ → Aio → Disk → Outcome
  aio_pwrite buf off a d =
      if leb a.nr_events a.cr_event
      then (false, a, d)
      else (let (done, d') = io_submit (prep_pwrite buf off) d in
          (done, record a { cr_event = a.cr_event + 1 }, d'))

  -- `ret < min_nr` for the result of `io_getevents`
  unfoldable pub enough_events : ℕ → Written → Bool
  enough_events min_nr error = false
  enough_events min_nr (wrote n) = not (ltb n min_nr)

  -- `o2test_aio_query`
  unfoldable pub aio_query : ℕ → ℕ → Aio → Disk → Outcome
  aio_query min_nr nr a d =
      let (got, d') = io_getevents min_nr nr d in (enough_events min_nr got, a, d')

  -- `o2test_aio_destroy`
  unfoldable pub aio_destroy : Aio → Disk → Outcome
  aio_destroy a d =
      let (done, d') = io_destroy d in (done, record { nr_events = 0; cr_event = 0 }, d')

  -- `o2test_aio_pwrite` for each buffer and offset in turn, whatever the calls return.
  unfoldable pub submit_all : List (List ℕ × ℕ) → Aio → Disk → Aio × Disk
  submit_all [] a d = (a, d)
  submit_all ((buf, off) ∷ rest) a d =
      let (done, a', d') = aio_pwrite buf off a d in submit_all rest a' d'
