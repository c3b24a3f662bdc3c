-- ===== src/Holes/Punch/Populate.antt =====
-- `ph_prep_file` of punch_holes.c: which bytes of the file the random writes cover.
use ocfs2_test.Common.{
  All-map, ℕ, zero, suc, ◌+◌, ◌^◌, ◌<◌, ◌≡◌, refl, ◌∙◌, ap, false, some, List, [], ◌∷◌, ltb, ◌==◌,
  if◌then◌else◌, replicate, All, Result, ok, failed, aborted, out_of_fuel, ◌>>=◌, arith, Bool-cases,
  inl, inr,
}
use ocfs2_test.Kernel.{Kernel, wrote, Stores}
use ocfs2_test.Holes.{WriteUnit, add64}
use ocfs2_test.Holes.Extent.{covers}
use ocfs2_test.Holes.Replay.{clear_hole, overlay}
use ocfs2_test.Holes.Fill.Bounds.{IsDrawn}
use ocfs2_test.Holes.Fill.Program.{Replaylog, no_log}
use ocfs2_test.Holes.Fill.Trip.{splice-replicate, clear_hole-IsDrawn}
use ocfs2_test.Holes.Punch.{random_write, next_write, is_random, move_to, write_unit, populate}
use ocfs2_test.Holes.Punch.Bounds.{Drawn, random_write-Drawn}

-- The disk accepts every write.
pub record Accepts (k : Kernel) : Type 0 where
  pub accepts :
      (buf : List ℕ) (off : ℕ) (d : k.Disk)
      → (n : ℕ) × (d' : k.Disk) × (k.pwrite buf off d ≡ (wrote n, d'))

-- Each write is at the value that `start` has for it.
abbrev pub Placed : ℕ → List WriteUnit → Type 0
Placed start [] = Unit
Placed start (w ∷ ws) = (w.offset ≡ start) × Placed (start + (w.offset + w.len)) ws

pub move_to-IsDrawn :
    (start size : ℕ) (w : WriteUnit)
    → start < size
    → size < 2 ^ 63
    → IsDrawn 0 size w
    → IsDrawn start size (move_to start size w)
unfolding move_to
move_to-IsDrawn start size w here fits d = record {
  filled = ground (arith, d.filled, d.short);
  short = ground (arith, d.filled, d.short);
  starts = ground arith;
  ends = ground (arith, d.filled, d.short);
  low = d.low;
  high = d.high;
}

offset-move_to : (start size : ℕ) (w : WriteUnit) → (move_to start size w).offset ≡ start
unfolding move_to
offset-move_to start size w = refl

module _ (k : Kernel) (contents : k.Disk → ℕ → ℕ) (st : Stores k contents) (acc : Accepts k) where
  write_unit_lem :
      (w : WriteUnit) (d : k.Disk) (p : ℕ)
      → contents (write_unit k false w d) p ≡ (if covers w p then w.char else contents d p)
  unfolding write_unit
  write_unit_lem w d p =
      let (n, d', e) = acc.accepts (replicate w.len w.char) w.offset d in
      rw e (
        st.pwrite_full (replicate w.len w.char) w.offset n d d' e p
        ∙ splice-replicate (contents d) w p)

  -- What the loop has done from `start` on.
  pub record IsPopulated (start size : ℕ) (d : k.Disk) (ws : List WriteUnit) (log : Replaylog)
      (d' : k.Disk) : Type 0 where
    pub inside : All (IsDrawn start size) ws
    pub placed : Placed start ws
    pub random : log ≡ no_log
    pub same : (p : ℕ) → overlay ws p (some (contents d p)) ≡ some (contents d' p)

  abbrev pub Populated : ℕ → ℕ → k.Disk → Result (List WriteUnit × Replaylog × ℕ × k.Disk) → Type 0
  Populated start size d (ok (ws, log, i, d')) = IsPopulated start size d ws log d'
  Populated start size d failed = ⊥
  Populated start size d aborted = ⊥
  Populated start size d out_of_fuel = Unit

  Populated-cons :
      (start size : ℕ) (w : WriteUnit) (d d1 : k.Disk)
      (r : Result (List WriteUnit × Replaylog × ℕ × k.Disk))
      → w.offset ≡ start
      → IsDrawn start size w
      → ((p : ℕ) → contents d1 p ≡ (if covers w p then w.char else contents d p))
      → Populated (start + (w.offset + w.len)) size d1 r
      → Populated start size d (r >>= λ (written, log'', j, d''). ok (w ∷ written, log'', j, d''))
  unfolding overlay
  Populated-cons start size w d d1 (ok (ws, log, i, d')) at drawn one h = record {
    inside = (drawn, All-map (IsDrawn next size) (IsDrawn start size) later ws h.inside);
    placed = (at, h.placed);
    random = h.random;
    same = λ p. ap (overlay ws p) (first p) ∙ h.same p;
  }
    where
      next : ℕ
      next = start + (w.offset + w.len)

      later : (v : WriteUnit) → IsDrawn next size v → IsDrawn start size v
      later v b = record {
        filled = b.filled;
        short = b.short;
        starts = omega (arith, b.starts);
        ends = b.ends;
        low = b.low;
        high = b.high;
      }

      first :
          (p : ℕ)
          → (if covers w p then some (clear_hole w).char else some (contents d p))
            ≡ some (contents d1 p)
      first p = ground (arith, one p, clear_hole-IsDrawn start size w drawn)
  Populated-cons start size w d d1 failed at drawn one h = h
  Populated-cons start size w d d1 aborted at drawn one h = h
  Populated-cons start size w d d1 out_of_fuel at drawn one h = tt

  module _ (f : ℕ) (stream : ℕ → ℕ) (size : ℕ) (fits : size < 2 ^ 63) where
    abbrev step_of :
        ℕ → ℕ → k.Disk → Result (WriteUnit × ℕ) → Result (List WriteUnit × Replaylog × ℕ × k.Disk)
    step_of n start d r = (r >>= λ (w, i'). ok (w, no_log, i')) >>= λ (w, log', i').
        (let w' = move_to start size w in
          let again = populate k n f false stream size log' start i' d in
          let rest =
            populate k n f false stream size log' (add64 start (add64 w'.offset w'.len)) i'
              (write_unit k false w' d)
            >>= λ (written, log'', j, d''). ok (w' ∷ written, log'', j, d'') in
          if w'.len == 0 then again else rest)

    Drawn-step :
        (n start : ℕ) (d : k.Disk) (r : Result (WriteUnit × ℕ))
        → start < size
        → ((start' i' : ℕ) (d1 : k.Disk)
            → Populated start' size d1 (populate k n f false stream size no_log start' i' d1))
        → Drawn size r
        → Populated start size d (step_of n start d r)
    Drawn-step n start d (ok (w, i')) here next drawn =
        rw (some_byte, wraps)
          (Populated-cons start size w' d (write_unit k false w' d)
            (populate k n f false stream size no_log (start + (w'.offset + w'.len)) i'
              (write_unit k false w' d))
            (offset-move_to start size w) moved (write_unit_lem w' d)
            (next (start + (w'.offset + w'.len)) i' (write_unit k false w' d)))
      where
        w' : WriteUnit
        w' = move_to start size w

        moved : IsDrawn start size w'
        moved = move_to-IsDrawn start size w here fits drawn

        some_byte : ((move_to start size w).len == 0) ≡ false
        some_byte = ground (arith, moved.filled)

        wraps :
            add64 start (add64 (move_to start size w).offset (move_to start size w).len)
            ≡ start + ((move_to start size w).offset + (move_to start size w).len)
        wraps = ground (arith, moved.ends)
    Drawn-step n start d failed here next h = h
    Drawn-step n start d aborted here next h = h
    Drawn-step n start d out_of_fuel here next h = tt

    -- The loop of `ph_prep_file` without a replay log and without asynchronous I/O, for a file below
    -- 2^63 bytes, never fails an `assert` or returns an error, on a disk that accepts every write and
    -- stores it. If it ends, each of its writes is where `start` was, inside the file, and the file has
    -- the last write of the log at each byte, or what it had before.
    pub populate-Populated :
        (n start i : ℕ) (d : k.Disk)
        → Populated start size d (populate k n f false stream size no_log start i d)
    unfolding populate next_write is_random overlay
    populate-Populated zero start i d = tt
    populate-Populated (suc n) start i d = elim (Bool-cases (ltb start size)) [
      | inl here ↦ rw here (
          Drawn-step n start d (random_write f stream size i) (ground arith)
            (λ start' i' d1. populate-Populated n start' i' d1)
            (random_write-Drawn f stream size i (ground arith) fits))
      | inr past ↦ rw past (record { inside = tt; placed = tt; random = refl; same = λ p. refl })
    ]
