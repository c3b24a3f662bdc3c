-- ===== src/Lvb/Progress.antt =====
-- lvb_torture on a lock and barriers that work: when a rank can go on.
use ocfs2_test.Common.{
  ℕ, ◌+◌, ◌%◌, ◌<◌, ◌≡◌, refl, ◌∙◌, sym, subst, Bool, true, false, ◌==◌, if◌then◌else◌, arith,
  Bool-cases, inl, inr,
}
use ocfs2_test.Lvb.{
  Pc, head, locked_first, in_barrier, passed, locked_second, compared, written, unlocked, in_second,
  gone, aborted, System, writes, has_pr, holds_ex, holds, Move, lock_ex, enter_writer, enter_reader,
  lock_pr, see_old, see_new, write_lvb, unlock_writer, unlock_reader, enter_second, in_mpi, Step,
  move, update,
}
use ocfs2_test.Lvb.Invariant.{IsBefore, IsBehind, has_written, clash}

abbrev pub is_gone : Pc → Bool
is_gone gone = true
is_gone _ = false

pub is_gone-gone : (p : Pc) → is_gone p ≡ true → p ≡ gone
is_gone-gone p h = grind arith

pub before-has_pr :
    (max_iter t : ℕ) (w : Bool) (p : Pc) → IsBefore max_iter t w p → has_pr p ≡ false
before-has_pr max_iter t w head b = refl
before-has_pr max_iter t w gone b = refl
before-has_pr max_iter t w locked_first b = refl
before-has_pr max_iter t w in_barrier b = refl
before-has_pr max_iter t w passed b = refl
before-has_pr max_iter t w locked_second b = elim b [ ]
before-has_pr max_iter t w compared b = elim b [ ]
before-has_pr max_iter t w written b = refl
before-has_pr max_iter t w unlocked b = refl
before-has_pr max_iter t w in_second b = refl
before-has_pr max_iter t w aborted b = refl

module _ (n max_iter : ℕ) (some_rank : 0 < n) where
  abbrev pub CanStep : System → Type 0
  CanStep s = (s' : System) × Step n max_iter s s'

  pub moves :
      (s : System) (j : ℕ) (p p' : Pc) (lvb : ℕ)
      → j < n
      → s.pc j ≡ p
      → Move n max_iter j s p lvb p'
      → CanStep s
  moves s j p p' lvb low e m = (
    record { lvb = lvb; pc = update s.pc j p'; iter = s.iter },
    move j lvb low (subst (λ q. Move n max_iter j s q lvb p') (sym e) m),
  )

  -- A rank before the first barrier that is not in it and has a round to do.
  pub step_before :
      (s : System) (j t : ℕ) (p : Pc)
      → j < n
      → t < max_iter
      → s.iter j ≡ t
      → (writes n s j ≡ true → s.pc j ≡ head → (i : ℕ) → i < n → holds n s i ≡ false)
      → s.pc j ≡ p
      → in_mpi p ≡ false
      → IsBefore max_iter t (t % n == j) p
      → CanStep s
  step_before s j t head low lt e free at m b = elim (Bool-cases (writes n s j)) [
    | inl w ↦
        moves s j head locked_first s.lvb low at (lock_ex (omega (arith, e, lt)) w (free w at))
    | inr r ↦ moves s j head in_barrier s.lvb low at (enter_reader (omega (arith, e, lt)) r)
  ]
  step_before s j t locked_first low lt e free at m b =
      moves s j locked_first in_barrier s.lvb low at enter_writer
  step_before s j t gone low lt e free at m b = absurd (omega (arith, b, lt))
  step_before s j t in_barrier low lt e free at m b = clash refl m
  step_before s j t passed low lt e free at m b = elim b [ ]
  step_before s j t locked_second low lt e free at m b = elim b [ ]
  step_before s j t compared low lt e free at m b = elim b [ ]
  step_before s j t written low lt e free at m b = elim b [ ]
  step_before s j t unlocked low lt e free at m b = elim b [ ]
  step_before s j t in_second low lt e free at m b = clash refl m
  step_before s j t aborted low lt e free at m b = elim b [ ]

  -- The writer behind the first barrier.
  pub step_writer :
      (s : System) (j t : ℕ) (d : Bool) (p : Pc)
      → j < n
      → s.iter j ≡ t
      → writes n s j ≡ true
      → s.pc j ≡ p
      → s.lvb ≡ (if has_written p then t + 1 else t)
      → in_mpi p ≡ false
      → IsBehind true d p
      → CanStep s
  step_writer s j t d passed low e w at v m b =
      moves s j passed compared s.lvb low at (see_old w (v ∙ sym e))
  step_writer s j t d compared low e w at v m b =
      moves s j compared written (s.iter j + 1) low at (write_lvb w)
  step_writer s j t d written low e w at v m b =
      moves s j written unlocked s.lvb low at unlock_writer
  step_writer s j t d unlocked low e w at v m b =
      moves s j unlocked in_second s.lvb low at enter_second
  step_writer s j t d locked_second low e w at v m b = clash refl b.0
  step_writer s j t d in_second low e w at v m b = clash refl m
  step_writer s j t d in_barrier low e w at v m b = clash refl m
  step_writer s j t d head low e w at v m b = elim b [ ]
  step_writer s j t d locked_first low e w at v m b = elim b [ ]
  step_writer s j t d gone low e w at v m b = elim b [ ]
  step_writer s j t d aborted low e w at v m b = elim b [ ]

  -- A reader behind the first barrier, when the writer waits for the end of the round.
  pub step_reader :
      (s : System) (j t : ℕ) (d : Bool) (p : Pc)
      → j < n
      → s.iter j ≡ t
      → writes n s j ≡ false
      → s.pc j ≡ p
      → s.lvb ≡ t + 1
      → ((i : ℕ) → i < n → holds_ex n s i ≡ false)
      → in_mpi p ≡ false
      → IsBehind false d p
      → CanStep s
  step_reader s j t d passed low e r at v free m b =
      moves s j passed locked_second s.lvb low at (lock_pr r free)
  step_reader s j t d locked_second low e r at v free m b =
      moves s j locked_second compared s.lvb low at (see_new (omega (arith, v, e)))
  step_reader s j t d compared low e r at v free m b =
      moves s j compared unlocked s.lvb low at (unlock_reader r)
  step_reader s j t d unlocked low e r at v free m b =
      moves s j unlocked in_second s.lvb low at enter_second
  step_reader s j t d written low e r at v free m b = clash b refl
  step_reader s j t d in_second low e r at v free m b = clash refl m
  step_reader s j t d in_barrier low e r at v free m b = clash refl m
  step_reader s j t d head low e r at v free m b = elim b [ ]
  step_reader s j t d locked_first low e r at v free m b = elim b [ ]
  step_reader s j t d gone low e r at v free m b = elim b [ ]
  step_reader s j t d aborted low e r at v free m b = elim b [ ]
