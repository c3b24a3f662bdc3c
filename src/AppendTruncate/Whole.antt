-- ===== src/AppendTruncate/Whole.antt =====
-- The race of write_append_truncate.c where every `write` takes all that it is given.
use ocfs2_test.Common.{
  ℕ, suc, ◌+◌, ◌-◌, ◌≤◌, ◌≡◌, ◌⊎◌, inl, inr, refl, ◌∙◌, subst, Bool, true, false, List, length,
  length-replicate, replicate, ok, arith,
}
use ocfs2_test.Kernel.{wrote}
use ocfs2_test.AppendTruncate.{
  Round, Shared, RaceStep, append, truncate_once, Races, start, step, reset, check_result,
  end_round,
}
use ocfs2_test.AppendTruncate.Race.{Appends, IsRound}
use ocfs2_test.AppendTruncate.Verdict.{
  IsMemcmp, Outcome, all_before, all_after, seen, check_lem, race_After,
}

module _ (k : Shared) (contents : k.Disk → ℕ → ℕ) (appends : Appends k contents)
    (memcmp : List ℕ → List ℕ → ℕ) (is_memcmp : IsMemcmp memcmp) (o : Round) (round : IsRound o)
    (g f : ℕ) (enough : o.chunk_size ≤ g) (enough' : o.trunc_offset + o.append_size ≤ f)
    (read_buf : ℕ → ℕ) where
  -- Every `write` takes all that it is given.
  abbrev pub AllWhole : Type 0
  AllWhole = (buf : List ℕ) (n : ℕ) (d d' : k.Disk) → k.write buf d ≡ (wrote n, d') → n ≡ length buf

  abbrev AtOnce : ℕ × Bool × k.Disk → Type 0
  AtOnce (left, false, d) = (left ≡ 0) ⊎ (left ≡ o.append_size)
  AtOnce (left, true, d) =
      ((left ≡ 0) ⊎ (left ≡ o.append_size))
      × ((k.st_size d + left ≡ o.trunc_offset)
          ⊎ (k.st_size d + left ≡ o.trunc_offset + o.append_size))

  append_at_once :
      (left n : ℕ) (d d' : k.Disk)
      → AllWhole
      → k.write (replicate left b'A') d ≡ (wrote n, d')
      → (left - n ≡ 0) × (k.st_size d' + (left - n) ≡ k.st_size d + left)
  append_at_once left n d d' whole e =
      let (le, grown, now) = appends.write_ok (replicate left b'A') n d d' e in
      let all : n ≡ left =
        whole (replicate left b'A') n d d' e ∙ length-replicate {A = ℕ} left b'A' in
      (omega (arith, all), omega (arith, all, grown))

  RaceStep-AtOnce : (s t : ℕ × Bool × k.Disk) → AllWhole → RaceStep k o s t → AtOnce s → AtOnce t
  RaceStep-AtOnce _ _ whole (append left n false d d' e) h =
      inl (append_at_once (suc left) n d d' whole e).0
  RaceStep-AtOnce _ _ whole (append left n true d d' e) (h, sizes) =
      let (done, kept) = append_at_once (suc left) n d d' whole e in
      (inl done, elim sizes [ inl z ↦ inl (kept ∙ z) | inr z ↦ inr (kept ∙ z) ])
  RaceStep-AtOnce _ _ whole (truncate_once left d d' e) h =
      let (size, now) = appends.truncate_ok o.trunc_offset d d' e in
      (
        h,
        elim h [
          | inl none_left ↦ inl (omega (arith, size, none_left))
          | inr all_left ↦ inr (omega (arith, size, all_left))
        ],
      )

  Races-AtOnce : (s t : ℕ × Bool × k.Disk) → AllWhole → Races k o s t → AtOnce s → AtOnce t
  Races-AtOnce _ _ whole (start s) h = h
  Races-AtOnce _ _ whole (step s t u r x) h =
      RaceStep-AtOnce t u whole x (Races-AtOnce s t whole r h)

  -- If every `write` takes all that it is given, a round ends without an error: the append and the
  -- truncation come one after the other, and the check accepts both orders.
  pub whole_race_accepted :
      (d d0 d' : k.Disk)
      → AllWhole
      → reset k g o d ≡ ok d0
      → Races k o (o.append_size, false, d0) (0, true, d')
      → end_round k memcmp f o read_buf d' ≡ ok 0
  unfolding end_round
  whole_race_accepted d d0 d' whole e races =
      let (a, after) =
        race_After k contents appends memcmp is_memcmp o round g f enough enough' read_buf d d0 d' e
          races in
      let (checked, result) =
        check_lem k contents appends memcmp is_memcmp o round g f enough enough' read_buf a d'
          after in
      let (_, sizes) =
        Races-AtOnce (o.append_size, false, d0) (0, true, d') whole races (inr refl) in
      let outcome_at =
        Outcome memcmp is_memcmp o round
          (seen k contents appends memcmp is_memcmp o round g f enough enough' read_buf d')
          (k.st_size d') in
      let good : check_result memcmp o (k.st_size d')
            (seen k contents appends memcmp is_memcmp o round g f enough enough' read_buf d')
          ≡ 0 =
        elim sizes [
          | inl cut ↦
              let every : a ≡ o.append_size = omega (arith, cut, after.size) in
              all_before memcmp is_memcmp o round
                (seen k contents appends memcmp is_memcmp o round g f enough enough' read_buf d')
                (k.st_size d') (subst outcome_at every result)
          | inr uncut ↦
              let none_before : a ≡ 0 = omega (arith, uncut, after.size) in
              all_after memcmp is_memcmp o round
                (seen k contents appends memcmp is_memcmp o round g f enough enough' read_buf d')
                (k.st_size d') (subst outcome_at none_before result)
        ] in
      rw (checked, good) refl
