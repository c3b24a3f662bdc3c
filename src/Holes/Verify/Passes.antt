-- ===== src/Holes/Verify/Passes.antt =====
-- `vh_insert_chunk`: the passes of its loop as equations.
use ocfs2_test.Common.{ℕ, suc, ◌≡◌, ok}
use ocfs2_test.Holes.{WriteUnit, add64}
use ocfs2_test.Holes.Tree.{Tree, Context, root, RbTree}
use ocfs2_test.Holes.Verify.{
  Overlap, encompasses, splits, straddles_left, straddles_right, hit, descend, State, enter,
  cut_before, cut_after, restart,
}

-- One pass of the loop on each kind of overlap, with what the inner calls return.
module _ (rb : RbTree) (g : ℕ) (s : State) (chunk : WriteUnit) (c : Context) (l : Tree)
    (x : WriteUnit) (r : Tree) where
  abbrev pub Stops : Overlap → Type 0
  Stops o = descend chunk.offset (add64 chunk.offset chunk.len) s.chunk_root root ≡ hit o c l x r

  abbrev pub gone : State
  gone = record s { chunk_root = rb.erase c l r }

  pub restart-encompasses : Stops encompasses → restart rb (suc g) s chunk ≡ restart rb g gone chunk
  unfolding restart
  restart-encompasses e = rw (e, restart)

  pub restart-straddles_left :
      (s1 s2 : State)
      → Stops straddles_left
      → enter gone ≡ ok s1
      → restart rb g s1 (cut_after (add64 chunk.offset chunk.len) x) ≡ ok s2
      → restart rb (suc g) s chunk ≡ restart rb g s2 chunk
  unfolding restart
  restart-straddles_left s1 s2 e e1 e2 = rw (e, restart) (rw e1 (rw e2))

  pub restart-straddles_right :
      (s1 s2 : State)
      → Stops straddles_right
      → enter gone ≡ ok s1
      → restart rb g s1 (cut_before chunk.offset x) ≡ ok s2
      → restart rb (suc g) s chunk ≡ restart rb g s2 chunk
  unfolding restart
  restart-straddles_right s1 s2 e e1 e2 = rw (e, restart) (rw e1 (rw e2))

  pub restart-splits :
      (s1 s2 s3 s4 : State)
      → Stops splits
      → enter gone ≡ ok s1
      → restart rb g s1 (cut_before chunk.offset x) ≡ ok s2
      → enter s2 ≡ ok s3
      → restart rb g s3 (cut_after (add64 chunk.offset chunk.len) x) ≡ ok s4
      → restart rb (suc g) s chunk ≡ restart rb g s4 chunk
  unfolding restart
  restart-splits s1 s2 s3 s4 e e1 e2 e3 e4 = rw (e, restart) (rw e1 (rw e2 (rw e3 (rw e4))))
