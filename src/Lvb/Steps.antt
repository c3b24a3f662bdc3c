-- ===== src/Lvb/Steps.antt =====
-- The invariant of lvb_torture over all ranks, step by step.
use native.Mathlib.Nat.{mod-lt}
use ocfs2_test.Common.{
  ℕ, ◌+◌, ◌%◌, ◌≤◌, ◌<◌, ◌≡◌, refl, ◌∙◌, ap, subst, Bool, true, false, ◌==◌, if◌then◌else◌, arith,
  Bool-cases, inl, inr,
}
use ocfs2_test.Lvb.{
  Pc, head, locked_first, in_barrier, passed, locked_second, compared, written, unlocked, in_second,
  gone, aborted, System, holds_ex, Move, in_mpi, resume, next_iter, update, Step, move, release,
  Reach, start, later,
}
use ocfs2_test.Lvb.Invariant.{
  IsBefore, IsBehind, has_written, is_done, Inv, before, behind, clash, IsBehind-mono,
  writer-is_done, is_done-has_written, Move-IsBefore, reader-Move, writer-Move,
}

before-in_mpi :
    (max_iter t : ℕ) (w : Bool) (p : Pc)
    → IsBefore max_iter t w p
    → in_mpi p ≡ true
    → (p ≡ in_barrier) × (t < max_iter)
before-in_mpi max_iter t w in_barrier b m = (refl, b)
before-in_mpi max_iter t w head b m = clash m refl
before-in_mpi max_iter t w locked_first b m = clash m refl
before-in_mpi max_iter t w gone b m = clash m refl
before-in_mpi max_iter t w passed b m = elim b [ ]
before-in_mpi max_iter t w locked_second b m = elim b [ ]
before-in_mpi max_iter t w compared b m = elim b [ ]
before-in_mpi max_iter t w written b m = elim b [ ]
before-in_mpi max_iter t w unlocked b m = elim b [ ]
before-in_mpi max_iter t w in_second b m = elim b [ ]
before-in_mpi max_iter t w aborted b m = elim b [ ]

pub behind-in_mpi : (w d : Bool) (p : Pc) → IsBehind w d p → in_mpi p ≡ true → p ≡ in_second
behind-in_mpi w d in_second b m = refl
behind-in_mpi w d in_barrier b m = elim b [ ]
behind-in_mpi w d head b m = clash m refl
behind-in_mpi w d locked_first b m = clash m refl
behind-in_mpi w d gone b m = clash m refl
behind-in_mpi w d passed b m = clash m refl
behind-in_mpi w d locked_second b m = clash m refl
behind-in_mpi w d compared b m = clash m refl
behind-in_mpi w d written b m = clash m refl
behind-in_mpi w d unlocked b m = clash m refl
behind-in_mpi w d aborted b m = clash m refl

-- A property of every rank after one of them has moved.
each_update :
    (n i : ℕ) (pc : ℕ → Pc) (p : Pc) (P : ℕ → Pc → Type 0)
    → P i p
    → ((j : ℕ) → j < n → P j (pc j))
    → (j : ℕ) → j < n
    → P j (update pc i p j)
each_update n i pc p P here rest j low = elim (Bool-cases (j == i)) [
  | inl e ↦ (let same : j ≡ i = ground (arith, e) in rw (e, same) here)
  | inr e ↦ rw e (rest j low)
]

module _ (n max_iter : ℕ) (some_rank : 0 < n) where
  move_before :
      (i t : ℕ) (s : System) (p : Pc) (lvb : ℕ)
      → i < n
      → t ≤ max_iter
      → s.lvb ≡ t
      → ((j : ℕ) → j < n → (s.iter j ≡ t) × IsBefore max_iter t (t % n == j) (s.pc j))
      → Move n max_iter i s (s.pc i) lvb p
      → Inv n max_iter (record { lvb = lvb; pc = update s.pc i p; iter = s.iter })
  move_before i t s p lvb low le v each m =
      let (same, b) =
        Move-IsBefore n max_iter i t s (s.pc i) p lvb (each i low).0 le m (each i low).1 in
      before t le (same ∙ v) (
        each_update n i s.pc p (λ j q. (s.iter j ≡ t) × IsBefore max_iter t (t % n == j) q)
          ((each i low).0, b) each)

  move_behind :
      (i t : ℕ) (s : System) (p : Pc) (lvb : ℕ)
      → i < n
      → t < max_iter
      → s.lvb ≡ (if has_written (s.pc (t % n)) then t + 1 else t)
      → ((j : ℕ) → j < n → (s.iter j ≡ t) × IsBehind (t % n == j) (is_done (s.pc (t % n))) (s.pc j))
      → Move n max_iter i s (s.pc i) lvb p
      → Inv n max_iter (record { lvb = lvb; pc = update s.pc i p; iter = s.iter })
  move_behind i t s p lvb low lt v each m = elim (Bool-cases (t % n == i)) [
    | inl e ↦
        (let same : t % n ≡ i = ground (arith, e) in
          let (v', b, grows) =
            writer-Move n max_iter i t (is_done (s.pc (t % n))) s (s.pc i) p lvb
              (rw ((each i low).0, e) refl) (each i low).0
              (subst (λ j. s.lvb ≡ (if has_written (s.pc j) then t + 1 else t)) same v) m
              (rw e at (each i low).1) in
          behind t lt (rw e v') (
            rw e (
              each_update n i s.pc p (λ j q. (s.iter j ≡ t) × IsBehind (t % n == j) (is_done p) q)
                ((each i low).0, rw e (b (is_done p)))
                (λ j h. (
                  (each j h).0,
                  IsBehind-mono (t % n == j) (is_done (s.pc (t % n))) (is_done p) (s.pc j)
                      (λ d. grows (subst (λ z. is_done (s.pc z) ≡ true) same d)) (each j h).1,
                )))))
    | inr e ↦
        (let (same, b) =
            reader-Move n max_iter i t (is_done (s.pc (t % n))) s (s.pc i) p lvb
              (rw ((each i low).0, e) refl) (each i low).0
              (λ d. rw (is_done-has_written (s.pc (t % n)) d) at v) (λ free. writer_free free) m
              (rw e at (each i low).1) in
          behind t lt (rw e (same ∙ v)) (
            rw e (
              each_update n i s.pc p
                (λ j q. (s.iter j ≡ t) × IsBehind (t % n == j) (is_done (s.pc (t % n))) q)
                ((each i low).0, rw e b) each)))
  ]
    where
      w : ℕ
      w = t % n

      itself : (w == w) ≡ true
      itself = ground arith

      writer_fact : (s.iter w ≡ t) × IsBehind (t % n == w) (is_done (s.pc w)) (s.pc w)
      writer_fact = each w (mod-lt t some_rank)

      writer_free : ((j : ℕ) → j < n → holds_ex n s j ≡ false) → is_done (s.pc w) ≡ true
      writer_free free =
          writer-is_done (is_done (s.pc w)) (s.pc w) (rw itself at writer_fact.1)
            (rw (writer_fact.0, itself) at (free w (mod-lt t some_rank)))

  release_before :
      (t : ℕ) (s : System)
      → ((j : ℕ) → j < n → in_mpi (s.pc j) ≡ true)
      → s.lvb ≡ t
      → ((j : ℕ) → j < n → (s.iter j ≡ t) × IsBefore max_iter t (t % n == j) (s.pc j))
      → Inv n max_iter (record {
        lvb = s.lvb;
        pc = λ j. resume (s.pc j);
        iter = λ j. next_iter (s.pc j) (s.iter j);
      })
  release_before t s all v each =
      behind t (at w (mod-lt t some_rank)).1 (rw ((at w (mod-lt t some_rank)).0) v)
        (λ j h. rw ((at j h).0) ((each j h).0, tt))
    where
      w : ℕ
      w = t % n

      at : (j : ℕ) → j < n → (s.pc j ≡ in_barrier) × (t < max_iter)
      at j h = before-in_mpi max_iter t (t % n == j) (s.pc j) (each j h).1 (all j h)

  release_behind :
      (t : ℕ) (s : System)
      → t < max_iter
      → ((j : ℕ) → j < n → in_mpi (s.pc j) ≡ true)
      → s.lvb ≡ (if has_written (s.pc (t % n)) then t + 1 else t)
      → ((j : ℕ) → j < n → (s.iter j ≡ t) × IsBehind (t % n == j) (is_done (s.pc (t % n))) (s.pc j))
      → Inv n max_iter (record {
        lvb = s.lvb;
        pc = λ j. resume (s.pc j);
        iter = λ j. next_iter (s.pc j) (s.iter j);
      })
  release_behind t s lt all v each =
      before (t + 1) (omega (arith, lt)) (rw (at (t % n) (mod-lt t some_rank)) at v)
        (λ j h. rw (at j h) (ap (λ z. z + 1) (each j h).0, tt))
    where
      at : (j : ℕ) → j < n → s.pc j ≡ in_second
      at j h = behind-in_mpi (t % n == j) (is_done (s.pc (t % n))) (s.pc j) (each j h).1 (all j h)

  Step-Inv : {s s' : System} → Step n max_iter s s' → Inv n max_iter s → Inv n max_iter s'
  Step-Inv {s} (move i lvb {p} low m) (before t le v each) = move_before i t s p lvb low le v each m
  Step-Inv {s} (move i lvb {p} low m) (behind t lt v each) = move_behind i t s p lvb low lt v each m
  Step-Inv {s} (release all) (before t le v each) = release_before t s all v each
  Step-Inv {s} (release all) (behind t lt v each) = release_behind t s lt all v each

  -- In every state that the ranks can reach they are in the same round, on the same side of its
  -- first barrier, and the value block is the number of rounds that have been written.
  pub Reach-Inv : {s : System} → Reach n max_iter s → Inv n max_iter s
  Reach-Inv start = before 0 (omega arith) refl (λ j h. (refl, tt))
  Reach-Inv (later r step) = Step-Inv step (Reach-Inv r)
