-- ===== src/Lvb/Safety.antt =====
-- lvb_torture on a lock and barriers that work: what no interleaving of the ranks can do.
use ocfs2_test.Common.{ℕ, ◌≤◌, ◌<◌, ◌≡◌, ◌≢◌, arith}
use ocfs2_test.Lvb.{gone, aborted, System, Reach}
use ocfs2_test.Lvb.Invariant.{Inv, before, behind}
use ocfs2_test.Lvb.Steps.{Reach-Inv}

module _ (num_procs max_iter : ℕ) (some_rank : 0 < num_procs) where
  Inv-not_aborted :
      {s : System} → Inv num_procs max_iter s → (i : ℕ) → i < num_procs → s.pc i ≢ aborted
  Inv-not_aborted {s} (before t le v each) i low e = rw e at (each i low).1
  Inv-not_aborted {s} (behind t lt v each) i low e = rw e at (each i low).1

  -- No rank ever finds a value block other than the one it expects: none ends in `MPI_Abort`,
  -- whatever the order of the steps is. The lock excludes as its modes say, a barrier lets no rank
  -- pass before all have come, and there is a rank at least.
  pub no_rank_aborts :
      {s : System} → Reach num_procs max_iter s → (i : ℕ) → i < num_procs → s.pc i ≢ aborted
  no_rank_aborts r = Inv-not_aborted (Reach-Inv num_procs max_iter some_rank r)

  Inv-counted :
      {s : System}
      → Inv num_procs max_iter s
      → (i : ℕ) → i < num_procs
      → s.pc i ≡ gone
      → s.lvb ≡ max_iter
  Inv-counted {s} (before t le v each) i low e =
      (let past : max_iter ≤ t = rw e at (each i low).1 in omega (arith, v, le, past))
  Inv-counted {s} (behind t lt v each) i low e = absurd (rw e at (each i low).1)

  -- When a rank has left its loop the value block is `max_iter`: every iteration has been written
  -- once.
  pub gone-lvb :
      {s : System}
      → Reach num_procs max_iter s
      → (i : ℕ) → i < num_procs
      → s.pc i ≡ gone
      → s.lvb ≡ max_iter
  gone-lvb r = Inv-counted (Reach-Inv num_procs max_iter some_rank r)
