-- ===== src/Mmap/Safety.antt =====
-- multi_mmap on a file that all ranks see alike: what no interleaving of the ranks can do.
use ocfs2_test.Common.{ℕ, ◌<◌, ◌≡◌, ◌≢◌}
use ocfs2_test.Mmap.{Job, passed, failed, read_block, expected_pattern, System, Reach}
use ocfs2_test.Mmap.Invariant.{IsJob}
use ocfs2_test.Mmap.Steps.{Reach-Inv}

module _ (o : Job) (job : IsJob o) (file : ℕ → ℕ) where
  -- A rank behind the barrier finds its block as it expects it, and none reports a failure, whatever
  -- the order of the steps is and whatever was in the file, with at least two ranks and offsets
  -- that fit into an `unsigned int`. The writer of the next block may already be at work.
  pub no_rank_fails :
      {s : System}
      → Reach o file s
      → (i : ℕ) → i < o.num_procs
      → (s.pc i ≢ failed)
        × (s.pc i ≡ passed → read_block o (s.turn i) s.file ≡ expected_pattern o (s.turn i))
  no_rank_fails {s} r i low =
      let inv = Reach-Inv o job file r in
      (
        λ e. rw e at (inv.seats i low),
        λ e. rw (rw e at (inv.seats i low)) (inv.old i low e).old_holds,
      )
