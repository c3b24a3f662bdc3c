-- ===== src/Mmap/Progress.antt =====
-- multi_mmap: the ranks never block one another for good.
use ocfs2_test.Common.{
  ℕ, ◌≤◌, ◌<◌, ◌≡◌, ◌≢◌, ◌⊎◌, inl, inr, refl, sym, subst, Bool, true, false, ◌==◌, arith,
  Bool-cases, all_or_one,
}
use ocfs2_test.Mmap.{
  Job, Turn, next_turn, write_block, read_block, expected_pattern, Pc, head, written, in_barrier,
  passed, gone, failed, writes, System, Move, leave, write, enter_writer, enter_reader, end_writer,
  read_same, read_other, update, Step, move, release, Reach, start, later,
}
use ocfs2_test.Mmap.Invariant.{IsJob, Inv}
use ocfs2_test.Mmap.Steps.{Reach-Inv}
use ocfs2_test.Mmap.Safety.{no_rank_fails}

-- Which passes a rank can be in.
abbrev InPass : Job → Pc → Turn → Type 0
InPass o written t = t.this_pass < o.max_passes
InPass o in_barrier t = t.this_pass < o.max_passes
InPass o gone t = o.max_passes ≤ t.this_pass
InPass o _ t = Unit

Move-InPass :
    (o : Job) (i : ℕ) (t t' : Turn) (file file' : ℕ → ℕ) (p q : Pc)
    → Move o i file t p file' q t'
    → InPass o p t
    → InPass o q t'
Move-InPass o i t t' file file' p q (leave past) h = past
Move-InPass o i t t' file file' p q (write round w) h = round
Move-InPass o i t t' file file' p q enter_writer h = h
Move-InPass o i t t' file file' p q (enter_reader round w) h = round
Move-InPass o i t t' file file' p q (end_writer w) h = tt
Move-InPass o i t t' file file' p q (read_same w e) h = tt
Move-InPass o i t t' file file' p q (read_other w e) h = tt

Step-InPass :
    (o : Job) {s s' : System}
    → Step o s s'
    → ((j : ℕ) → j < o.num_procs → InPass o (s.pc j) (s.turn j))
    → (j : ℕ) → j < o.num_procs
    → InPass o (s'.pc j) (s'.turn j)
Step-InPass o {s} (move i file t {p} low m) h j below = elim (Bool-cases (j == i)) [
  | inl y ↦ rw y (Move-InPass o i (s.turn i) t s.file file (s.pc i) p m (h i low))
  | inr n ↦ rw n (h j below)
]
Step-InPass o {s} (release all) h j below = tt

Reach-InPass :
    (o : Job) (file : ℕ → ℕ) {s : System}
    → Reach o file s
    → (j : ℕ) → j < o.num_procs
    → InPass o (s.pc j) (s.turn j)
Reach-InPass o file start j below = tt
Reach-InPass o file (later r step) j below = Step-InPass o step (Reach-InPass o file r) j below

abbrev waits : Pc → Bool
waits in_barrier = true
waits gone = true
waits _ = false

abbrev is_gone : Pc → Bool
is_gone gone = true
is_gone _ = false

is_gone-gone : (p : Pc) → is_gone p ≡ true → p ≡ gone
is_gone-gone p h = grind arith

waits-in_barrier : (p : Pc) → waits p ≡ true → is_gone p ≡ false → p ≡ in_barrier
waits-in_barrier p h g = grind arith

module _ (o : Job) (job : IsJob o) (file : ℕ → ℕ) where
  abbrev CanStep : System → Type 0
  CanStep s = (s' : System) × Step o s s'

  moves :
      (i : ℕ) (s : System) (p q : Pc) (file' : ℕ → ℕ) (t : Turn)
      → i < o.num_procs
      → s.pc i ≡ p
      → Move o i s.file (s.turn i) p file' q t
      → CanStep s
  moves i s p q file' t low e m = (
    record { file = file'; pc = update s.pc i q; turn = update s.turn i t },
    move i file' t low (subst (λ r. Move o i s.file (s.turn i) r file' q t) (sym e) m),
  )

  -- A rank that is neither in the barrier nor gone.
  rank_can :
      (i : ℕ) (s : System) (p : Pc)
      → i < o.num_procs
      → s.pc i ≡ p
      → waits p ≡ false
      → p ≢ failed
      → (p ≡ passed → read_block o (s.turn i) s.file ≡ expected_pattern o (s.turn i))
      → CanStep s
  rank_can i s head low e w sound same = elim (round_left (s.turn i)) [
    | inl past ↦ moves i s head gone s.file (s.turn i) low e (leave past)
    | inr round ↦ elim (Bool-cases (writes o (s.turn i) i)) [
      | inl y ↦
          moves i s head written (write_block o (s.turn i) s.file) (s.turn i) low e (write round y)
      | inr n ↦ moves i s head in_barrier s.file (s.turn i) low e (enter_reader round n)
    ]
  ]
    where
      round_left : (t : Turn) → (o.max_passes ≤ t.this_pass) ⊎ (t.this_pass < o.max_passes)
      round_left t = ground arith
  rank_can i s written low e w sound same =
      moves i s written in_barrier s.file (s.turn i) low e enter_writer
  rank_can i s passed low e w sound same = elim (Bool-cases (writes o (s.turn i) i)) [
    | inl y ↦ moves i s passed head s.file (next_turn o (s.turn i)) low e (end_writer y)
    | inr n ↦ moves i s passed head s.file (next_turn o (s.turn i)) low e (read_same n (same refl))
  ]
  rank_can i s in_barrier low e w sound same = cc
  rank_can i s gone low e w sound same = cc
  rank_can i s failed low e w sound same = absurd (sound refl)

  -- In every state that the ranks can reach one of them can take a step, or the barrier opens, unless
  -- all have left the last pass.
  pub some_rank_steps :
      {s : System}
      → Reach o file s
      → ((s' : System) × Step o s s') ⊎ ((j : ℕ) → j < o.num_procs → s.pc j ≡ gone)
  some_rank_steps {s} r = elim (all_or_one o.num_procs (λ j. waits (s.pc j))) [
    | inr (i, low, w) ↦ inl (rank_can i s (s.pc i) low refl w (safe i low).0 (safe i low).1)
    | inl still ↦ elim (all_or_one o.num_procs (λ j. is_gone (s.pc j))) [
      | inl all ↦ inr (λ j h. is_gone-gone (s.pc j) (all j h))
      | inr (i, low, g) ↦ inl (
        record { file = s.file; pc = λ j. passed; turn = s.turn },
        release (λ j h.
            waits-in_barrier (s.pc j) (still j h)
              (not_gone j h i low (waits-in_barrier (s.pc i) (still i low) g))),
      )
    ]
  ]
    where
      inv : Inv o s
      inv = Reach-Inv o job file r

      safe :
          (i : ℕ)
          → i < o.num_procs
          → (s.pc i ≢ failed)
            × (s.pc i ≡ passed → read_block o (s.turn i) s.file ≡ expected_pattern o (s.turn i))
      safe i low = no_rank_fails o job file r i low

      not_gone :
          (j : ℕ)
          → j < o.num_procs
          → (i : ℕ) → i < o.num_procs
          → s.pc i ≡ in_barrier
          → is_gone (s.pc j) ≡ false
      not_gone j h i low e = elim (Bool-cases (is_gone (s.pc j))) [
        | inr n ↦ n
        | inl y ↦
            (let here : s.turn i ≡ inv.cur = rw e at (inv.seats i low) in
              let there : s.turn j ≡ inv.cur = rw (is_gone-gone (s.pc j) y) at (inv.seats j h) in
              let round : (s.turn i).this_pass < o.max_passes =
                rw e at (Reach-InPass o file r i low) in
              let past : o.max_passes ≤ (s.turn j).this_pass =
                rw (is_gone-gone (s.pc j) y) at (Reach-InPass o file r j h) in
              absurd (omega (arith, rw here at round, rw there at past)))
      ]
