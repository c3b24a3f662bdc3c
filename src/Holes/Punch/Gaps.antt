-- ===== src/Holes/Punch/Gaps.antt =====
-- `ph_prep_file` of punch_holes.c: where the next write starts.
use ocfs2_test.Common.{
  ℕ, ◌+◌, ◌^◌, ◌<◌, ◌≡◌, refl, subst, false, some, Option, List, [], ◌∷◌, ok, arith,
}
use ocfs2_test.Kernel.{Kernel, Stores}
use ocfs2_test.Holes.{WriteUnit}
use ocfs2_test.Holes.Extent.{covers}
use ocfs2_test.Holes.Replay.{overlay}
use ocfs2_test.Holes.Fill.Program.{Replaylog, no_log}
use ocfs2_test.Holes.Punch.{populate}
use ocfs2_test.Holes.Punch.Populate.{Accepts, Placed, IsPopulated, Populated, populate-Populated}

-- Writes from `start` on leave the bytes below `start` alone.
overlay-Placed :
    (start : ℕ) (ws : List WriteUnit) (p : ℕ) (v : Option ℕ)
    → Placed start ws
    → p < start
    → overlay ws p v ≡ v
unfolding overlay
overlay-Placed start [] p v h low = refl
overlay-Placed start (w ∷ ws) p v (at, later) low =
    rw apart (overlay-Placed (start + (w.offset + w.len)) ws p v later (omega arith))
  where
    apart : covers w p ≡ false
    apart = ground (arith, at)

overlay_gap :
    (w0 w1 : WriteUnit) (ws : List WriteUnit) (v : Option ℕ)
    → Placed 0 (w0 ∷ w1 ∷ ws)
    → 0 < w0.len
    → overlay (w0 ∷ w1 ∷ ws) (w0.len + w1.len) v ≡ v
unfolding overlay
overlay_gap w0 w1 ws v (at0, (at1, later)) pos =
    rw (apart0, apart1)
      (overlay-Placed (0 + (w0.offset + w0.len) + (w1.offset + w1.len)) ws (w0.len + w1.len) v later
        (omega (arith, at0, at1)))
  where
    apart0 : covers w0 (w0.len + w1.len) ≡ false
    apart0 = ground (arith, at0)

    apart1 : covers w1 (w0.len + w1.len) ≡ false
    apart1 = ground (arith, at0, at1)

some-injective : (a b : ℕ) → some a ≡ some b → a ≡ b
some-injective a b e = cc

module _ (k : Kernel) (contents : k.Disk → ℕ → ℕ) (st : Stores k contents) (acc : Accepts k) where
  -- `start += wu.w_offset + wu.w_len` counts the offset twice from the second write on: without a replay
  -- log and without asynchronous I/O, for a file below 2^63 bytes on a disk that accepts every write and
  -- stores it, the byte just behind the second write of a loop of `ph_prep_file` that ends is never
  -- written, whatever the random numbers are.
  pub populate_gap :
      (n f : ℕ) (stream : ℕ → ℕ) (size i j : ℕ) (d d' : k.Disk) (w0 w1 : WriteUnit)
      (ws : List WriteUnit) (log : Replaylog)
      → size < 2 ^ 63
      → populate k n f false stream size no_log 0 i d ≡ ok (w0 ∷ w1 ∷ ws, log, j, d')
      → contents d' (w0.len + w1.len) ≡ contents d (w0.len + w1.len)
  populate_gap n f stream size i j d d' w0 w1 ws log fits e =
      some-injective (contents d' (w0.len + w1.len)) (contents d (w0.len + w1.len))
        (cc (done.same (w0.len + w1.len), gap))
    where
      done : IsPopulated k contents st acc 0 size d (w0 ∷ w1 ∷ ws) log d'
      done =
          subst (Populated k contents st acc 0 size d) e
            (populate-Populated k contents st acc f stream size fits n 0 i d)

      gap :
          overlay (w0 ∷ w1 ∷ ws) (w0.len + w1.len) (some (contents d (w0.len + w1.len)))
          ≡ some (contents d (w0.len + w1.len))
      gap =
          overlay_gap w0 w1 ws (some (contents d (w0.len + w1.len))) done.placed
            done.inside.0.filled
