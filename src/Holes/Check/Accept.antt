-- ===== src/Holes/Check/Accept.antt =====
-- verify_holes on a file that the writes of its log have made from zeroes.
use ocfs2_test.Common.{
  ℕ, ◌≤◌, ◌<◌, ◌^◌, ◌≡◌, refl, false, none, some, List, [], ◌∷◌, map, ltb, if◌then◌else◌, All,
  All-map, ok, arith, Bool-cases, inl, inr,
}
use ocfs2_test.Kernel.{Read}
use ocfs2_test.Holes.{WriteUnit}
use ocfs2_test.Holes.Extent.{end_of, covers, IsExtent}
use ocfs2_test.Holes.Tree.{RbTree}
use ocfs2_test.Holes.Replay.{fields, overlay}
use ocfs2_test.Holes.Check.{run, Reads}
use ocfs2_test.Holes.Check.Run.{Agrees, run_iff}

-- A write with a byte at least that lies in the file.
pub record IsInside (size : ℕ) (w : WriteUnit) : Type 0 where
  pub filled : 0 < w.len
  pub ends : end_of w ≤ size

-- Past the end of the file no write of the log has a byte.
overlay-outside :
    (size : ℕ) (log : List WriteUnit) (p : ℕ)
    → All (IsInside size) log
    → size ≤ p
    → overlay log p none ≡ none
unfolding overlay
overlay-outside size [] p v h = refl
overlay-outside size (w ∷ ws) p v h = rw apart (overlay-outside size ws p v.1 h)
  where
    apart : covers w p ≡ false
    apart = ground (arith, v.0)

IsInside-IsExtent : (size : ℕ) → size < 2 ^ 32 → (w : WriteUnit) → IsInside size w → IsExtent w
IsInside-IsExtent size small w d = record {
  filled = d.filled;
  len_fits = omega (arith, d.ends);
  end_fits = omega (arith, d.ends);
}

pub accepts_replay :
    (file : ℕ → ℕ) (size : ℕ) (rb : RbTree) (pread : ℕ → ℕ → Read) (log : List WriteUnit)
    → Reads pread file size
    → 0 < size
    → size < 2 ^ 32
    → All (IsInside size) log
    → ((p : ℕ) → p < size → overlay log p (some 0) ≡ some (file p))
    → run pread rb size (map fields log) ≡ ok tt
accepts_replay file size rb pread log reads pos small inside same =
    (run_iff file size rb pread log reads pos small extents).1 agrees
  where
    extents : All IsExtent log
    extents = All-map (IsInside size) IsExtent (IsInside-IsExtent size small) log inside

    agrees : Agrees file size (λ p. overlay log p (if ltb p size then some 0 else none))
    agrees p c q = elim (Bool-cases (ltb p size)) [
      | inl here ↦ (ground arith, ground (arith, same p (ground arith), rw here at q))
      | inr past ↦ cc (overlay-outside size log p inside (ground arith), rw past at q)
    ]
