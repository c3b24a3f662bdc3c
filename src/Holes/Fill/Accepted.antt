-- ===== src/Holes/Fill/Accepted.antt =====
-- fill_holes and then verify_holes on the same file.
use ocfs2_test.Common.{
  ℕ, ◌/◌, ◌%◌, ◌^◌, ◌≤◌, ◌<◌, ◌≡◌, subst, true, false, some, List, map, All-map, ok, arith,
}
use ocfs2_test.Kernel.{Kernel, Read, Stores}
use ocfs2_test.Holes.{WriteUnit}
use ocfs2_test.Holes.Tree.{RbTree}
use ocfs2_test.Holes.Replay.{fields, overlay}
use ocfs2_test.Holes.Check
use ocfs2_test.Holes.Check.{Reads}
use ocfs2_test.Holes.Check.Accept.{IsInside, accepts_replay}
use ocfs2_test.Holes.Fill.{Options, setup, two_giga_byte}
use ocfs2_test.Holes.Fill.Bounds.{IsDrawn}
use ocfs2_test.Holes.Fill.Program.{no_log, run}
use ocfs2_test.Holes.Fill.Trip.{Filled, run-Filled}

size-setup : (o : Options) (size : ℕ) → (setup o size).file_size ≤ size
unfolding setup
size-setup o size = ground arith

IsDrawn-IsInside : (a b : ℕ) → a ≤ b → (w : WriteUnit) → IsDrawn 0 a w → IsInside b w
IsDrawn-IsInside a b h w d = record { filled = d.filled; ends = omega (arith, d.ends) }

module _ (k : Kernel) (contents : k.Disk → ℕ → ℕ) (st : Stores k contents) where
  -- A run of fill_holes on a file of zeroes of less than 4 GiB, if it ends without an error, leaves a
  -- file that verify_holes accepts for the log of the run, whatever tree verify_holes keeps: without
  -- asynchronous I/O and a replay log, with an iteration at least for each chunk of 2 GiB, and with a
  -- size that is a multiple of 512 if I/O is direct.
  pub fill_then_verify :
      (o : Options) (f : ℕ) (stream : ℕ → ℕ) (size : ℕ) (d d' : k.Disk) (log : List WriteUnit)
      (rb : RbTree) (pread : ℕ → ℕ → Read)
      → o.enable_aio ≡ false
      → 0 < size
      → size < 2 ^ 32
      → o.max_iter < 2 ^ 32
      → (o.use_dio ≡ true → size % 512 ≡ 0)
      → size / two_giga_byte ≤ o.max_iter
      → ((p : ℕ) → p < size → contents d p ≡ 0)
      → run k f o stream no_log size d ≡ ok (log, d')
      → Reads pread (contents d') size
      → Check.run pread rb size (map fields log) ≡ ok tt
  fill_then_verify o f stream size d d' log rb pread sync pos small iters dio enough zeroes e
        reads =
      accepts_replay (contents d') size rb pread log reads pos small
        (All-map (IsDrawn 0 (setup o size).file_size) (IsInside size)
          (IsDrawn-IsInside (setup o size).file_size size (size-setup o size)) log filled.0)
        (λ p here.
          subst (λ z. overlay log p (some z) ≡ some (contents d' p)) (zeroes p here) (filled.2 p))
    where
      filled : Filled k contents st o.max_iter (setup o size).file_size d (ok (log, d'))
      filled =
          subst (Filled k contents st o.max_iter (setup o size).file_size d) e
            (run-Filled k contents st o f stream size d sync pos (omega arith) iters dio enough)
