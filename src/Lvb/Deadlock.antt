-- ===== src/Lvb/Deadlock.antt =====
-- lvb_torture on a lock and barriers that work: the ranks as a whole.
use native.Mathlib.Nat.{mod-lt}
use ocfs2_test.Common.{
  ℕ, ◌+◌, ◌%◌, ◌≤◌, ◌<◌, ◌≡◌, refl, Bool, true, false, ◌==◌, if◌then◌else◌, arith, Bool-cases, ◌⊎◌,
  inl, inr, all_or_one,
}
use ocfs2_test.Lvb.{
  Pc, head, in_second, gone, System, writes, holds_ex, holds, leave, in_mpi, Step, release, Reach,
  resume, next_iter,
}
use ocfs2_test.Lvb.Invariant.{IsBefore, IsBehind, has_written, is_done, Inv, before, behind, clash}
use ocfs2_test.Lvb.Steps.{Reach-Inv, behind-in_mpi}
use ocfs2_test.Lvb.Progress.{
  is_gone, is_gone-gone, before-has_pr, CanStep, moves, step_before, step_writer, step_reader,
}

module _ (n max_iter : ℕ) (some_rank : 0 < n) where
  abbrev AllGone : System → Type 0
  AllGone s = (j : ℕ) → j < n → s.pc j ≡ gone

  released :
      (s : System) → ((j : ℕ) → j < n → in_mpi (s.pc j) ≡ true) → CanStep n max_iter some_rank s
  released s all = (
    record { lvb = s.lvb; pc = λ j. resume (s.pc j); iter = λ j. next_iter (s.pc j) (s.iter j) },
    release all,
  )

  -- Behind the last round a rank that has not left its loop is at its head.
  at_head :
      (t : ℕ) (w : Bool) (p : Pc)
      → max_iter ≤ t
      → is_gone p ≡ false
      → IsBefore max_iter t w p
      → p ≡ head
  at_head t w p le g b = grind (arith, b)

  before_can :
      (s : System) (t : ℕ)
      → t ≤ max_iter
      → ((j : ℕ) → j < n → (s.iter j ≡ t) × IsBefore max_iter t (t % n == j) (s.pc j))
      → CanStep n max_iter some_rank s ⊎ AllGone s
  before_can s t le each = elim (round_left t) [
    | inl lt ↦ inl (elim (all_or_one n (λ j. in_mpi (s.pc j))) [
      | inl all ↦ released s all
      | inr (j, low, m) ↦
          step_before n max_iter some_rank s j t (s.pc j) low lt (each j low).0
            (λ w at. free j low w at) refl m (each j low).1
    ])
    | inr past ↦ elim (all_or_one n (λ j. is_gone (s.pc j))) [
      | inl all ↦ inr (λ j h. is_gone-gone (s.pc j) (all j h))
      | inr (j, low, g) ↦ inl (
          moves n max_iter some_rank s j head gone s.lvb low
            (at_head t (t % n == j) (s.pc j) past g (each j low).1)
            (leave (omega (arith, (each j low).0, past))))
    ]
  ]
    where
      round_left : (t : ℕ) → (t < max_iter) ⊎ (max_iter ≤ t)
      round_left t = ground arith

      -- A writer at the head of its loop finds the lock free.
      free :
          (j : ℕ)
          → j < n
          → writes n s j ≡ true
          → s.pc j ≡ head
          → (i : ℕ) → i < n
          → holds n s i ≡ false
      free j low w at i h = elim (Bool-cases (writes n s i)) [
        | inr r ↦ rw r (before-has_pr max_iter t (t % n == i) (s.pc i) (each i h).1)
        | inl w' ↦
            (let writer : t % n ≡ j = ground (arith, rw ((each j low).0) at w) in
              let writer' : t % n ≡ i = ground (arith, rw ((each i h).0) at w') in
              let same : i ≡ j = omega (arith, writer, writer') in rw w' (rw (same, at) refl))
      ]

  behind_can :
      (s : System) (t : ℕ)
      → s.lvb ≡ (if has_written (s.pc (t % n)) then t + 1 else t)
      → ((j : ℕ) → j < n → (s.iter j ≡ t) × IsBehind (t % n == j) (is_done (s.pc (t % n))) (s.pc j))
      → CanStep n max_iter some_rank s
  behind_can s t v each = elim (Bool-cases (in_mpi (s.pc w))) [
    | inr m ↦
        step_writer n max_iter some_rank s w t (is_done (s.pc w)) (s.pc w) (mod-lt t some_rank)
          fact.0 (rw (fact.0, itself) refl) refl v m (rw itself at fact.1)
    | inl m ↦ elim (all_or_one n (λ j. in_mpi (s.pc j))) [
      | inl all ↦ released s all
      | inr (j, low, m') ↦
          step_reader n max_iter some_rank s j t (is_done (s.pc w)) (s.pc j) low (each j low).0
            (rw ((each j low).0) (other j m m')) refl (rw (waits m) at v) (free (waits m)) m'
            (rw (other j m m') at (each j low).1)
    ]
  ]
    where
      w : ℕ
      w = t % n

      itself : (w == w) ≡ true
      itself = ground arith

      fact : (s.iter w ≡ t) × IsBehind (w == w) (is_done (s.pc w)) (s.pc w)
      fact = each w (mod-lt t some_rank)

      waits : in_mpi (s.pc w) ≡ true → s.pc w ≡ in_second
      waits m = behind-in_mpi (w == w) (is_done (s.pc w)) (s.pc w) fact.1 m

      -- A rank outside the barriers is not the writer, if that one is in them.
      other : (j : ℕ) → in_mpi (s.pc w) ≡ true → in_mpi (s.pc j) ≡ false → (w == j) ≡ false
      other j m m' = elim (Bool-cases (w == j)) [
        | inr e ↦ e
        | inl e ↦ (let same : w ≡ j = ground (arith, e) in clash (rw same at m) m')
      ]

      free : s.pc w ≡ in_second → (j : ℕ) → j < n → holds_ex n s j ≡ false
      free at j h = elim (Bool-cases (w == j)) [
        | inl e ↦ (let same : j ≡ w = ground (arith, e) in rw (same, fact.0, itself, at) refl)
        | inr e ↦ rw ((each j h).0, e) refl
      ]

  Inv-can : {s : System} → Inv n max_iter s → CanStep n max_iter some_rank s ⊎ AllGone s
  Inv-can {s} (before t le v each) = before_can s t le each
  Inv-can {s} (behind t lt v each) = inl (behind_can s t v each)

  -- No deadlock: in every state that the ranks can reach either some step is possible or all ranks
  -- have left the loop. There is a rank at least.
  pub no_deadlock :
      {s : System}
      → Reach n max_iter s
      → ((s' : System) × Step n max_iter s s') ⊎ ((j : ℕ) → j < n → s.pc j ≡ gone)
  no_deadlock r = Inv-can (Reach-Inv n max_iter some_rank r)
