-- ===== src/AppendTruncate/Verdict.antt =====
-- What the check of write_append_truncate.c makes of the race.
use ocfs2_test.Kernel.Slices.{slice-replicate, slice_head, splice_in, get_or-slice, length-slice}
use ocfs2_test.Common.{
  ℕ, ◌+◌, ◌-◌, ◌≤◌, ◌<◌, ◌≡◌, ◌≢◌, ◌↔◌, ◌⊎◌, inl, inr, refl, ◌∙◌, sym, ap, subst, true, false, List,
  replicate, ◌==◌, ok, arith,
}
use ocfs2_test.Kernel.{slice, splice}
use ocfs2_test.AppendTruncate.{Round, Shared, Races, reset, check_result, check}
use ocfs2_test.AppendTruncate.Race.{Appends, IsRound, Before, After, outcome, Races-Inv}
use ocfs2_test.AppendTruncate.Reset.{reset_lem, read_file_lem}

-- What the C library says of `memcmp`, whose `int` is given by its bits.
pub record IsMemcmp (memcmp : List ℕ → List ℕ → ℕ) : Type 0 where
  pub zero_iff : (xs ys : List ℕ) → (memcmp xs ys ≡ 0) ↔ (xs ≡ ys)

module _ (memcmp : List ℕ → List ℕ → ℕ) (is_memcmp : IsMemcmp memcmp) where
  equal :
      (m : ℕ → ℕ) (off n c : ℕ)
      → ((i : ℕ) → off ≤ i → i < off + n → m i ≡ c)
      → memcmp (slice m off n) (replicate n c) ≡ 0
  equal m off n c h =
      (is_memcmp.zero_iff (slice m off n) (replicate n c)).1 (slice-replicate m off n c h)

  differs :
      (m : ℕ → ℕ) (off n c : ℕ)
      → 0 < n
      → m off ≢ c
      → (memcmp (slice m off n) (replicate n c) == 0) ≡ false
  differs m off n c pos ne =
      let no_zero : memcmp (slice m off n) (replicate n c) ≢ 0 = λ e.
        ne (slice_head m off n c pos ((is_memcmp.zero_iff (slice m off n) (replicate n c)).0 e)) in
      ground (arith, no_zero)

  -- The result for the chunk is overwritten.
  chunk_not_checked :
      (o : Round) (read_buf : ℕ → ℕ)
      → o.chunk_size ≤ o.trunc_offset
      → ((p : ℕ) → o.chunk_size ≤ p → p < o.trunc_offset → read_buf p ≡ b'A')
      → check_result memcmp o o.trunc_offset read_buf ≡ 0
  unfolding check_result
  chunk_not_checked o read_buf le tail =
      let at : (o.trunc_offset == o.trunc_offset) ≡ true = ground arith in
      rw at (
        equal read_buf o.chunk_size (o.trunc_offset - o.chunk_size) b'A'
          (λ i a b. tail i a (omega arith)))

  module _ (o : Round) (round : IsRound o) (m : ℕ → ℕ) (size : ℕ) where
    -- The bytes of the file where `a` bytes were appended before the truncation.
    abbrev pub Outcome : ℕ → Type 0
    Outcome a =
        (size + a ≡ o.trunc_offset + o.append_size) × ((p : ℕ) → p < size → m p ≡ outcome o a p)

    pub all_before : Outcome o.append_size → check_result memcmp o size m ≡ 0
    all_before (len, same) =
        let at : size ≡ o.trunc_offset = omega (arith, len) in
        rw at (
          chunk_not_checked o m round.trunc_low
            (λ p a b. same p (omega (arith, at)) ∙ ground (arith, a, b, round.trunc_high)))

    pub all_after : Outcome 0 → check_result memcmp o size m ≡ 0
    unfolding check_result
    all_after (len, same) =
        let other : (size == o.trunc_offset) ≡ false = ground (arith, len, round.some_append) in
        let chunk =
          equal m 0 o.chunk_size b'C'
            (λ i a b. same i (omega (arith, len, b, round.trunc_low)) ∙ ground (arith, b)) in
        let gap =
          equal m o.chunk_size (o.trunc_offset - o.chunk_size) 0
            (λ i a b. same i (omega (arith, len, a, b)) ∙ ground (arith, a, b)) in
        let rest =
          equal m o.trunc_offset o.append_size b'A'
            (λ i a b. same i (omega (arith, len, b)) ∙ ground (arith, a, round.trunc_low)) in
        rw (other, gap, rest, chunk) refl

    split :
        (a : ℕ)
        → 0 < a
        → a < o.append_size
        → o.chunk_size < o.trunc_offset
        → Outcome a
        → check_result memcmp o size m ≡ 1
    unfolding check_result
    split a pos low apart (len, same) =
        let other : (size == o.trunc_offset) ≡ false = ground (arith, len, low) in
        let letter : m o.chunk_size ≡ b'A' =
          same o.chunk_size (omega (arith, len, low, apart)) ∙ ground (arith, pos, apart) in
        let gap =
          differs m o.chunk_size (o.trunc_offset - o.chunk_size) 0 (omega (arith, apart))
            (λ e. nonzero (m o.chunk_size) letter e) in
        rw (other, gap) refl
      where
        nonzero : (n : ℕ) → n ≡ b'A' → n ≢ 0
        nonzero n e z = omega (arith, e, z)

module _ (k : Shared) (contents : k.Disk → ℕ → ℕ) (appends : Appends k contents)
    (memcmp : List ℕ → List ℕ → ℕ) (is_memcmp : IsMemcmp memcmp) (o : Round) (round : IsRound o)
    (g f : ℕ) (enough : o.chunk_size ≤ g) (enough' : o.trunc_offset + o.append_size ≤ f)
    (read_buf : ℕ → ℕ) where
  -- What rank 0 reads.
  abbrev pub seen : k.Disk → ℕ → ℕ
  seen d = splice read_buf 0 (slice (contents d) 0 (k.st_size d))

  pub check_lem :
      (a : ℕ) (d : k.Disk)
      → After k contents o a 0 d
      → (check k memcmp f o read_buf d ≡ ok (check_result memcmp o (k.st_size d) (seen d)))
        × Outcome memcmp is_memcmp o round (seen d) (k.st_size d) a
  unfolding check
  check_lem a d after =
      let read =
        read_file_lem k contents appends f (k.st_size d) 0 d
          (omega (arith, after.size, after.some_before, round.some_chunk, round.trunc_low))
          (omega (arith, after.size, enough')) (omega arith) in
      (
        rw read refl,
        (
          omega (arith, after.size),
          λ p h.
              splice_in read_buf 0 (slice (contents d) 0 (k.st_size d)) p (omega arith)
                (rw (length-slice (contents d) 0 (k.st_size d)) (omega (arith, h)))
              ∙ get_or-slice (contents d) 0 (k.st_size d) (p - 0) (omega (arith, h))
              ∙ ap (contents d) (at_zero p)
              ∙ after.bytes_are p h,
        ),
      )
    where
      at_zero : (i : ℕ) → 0 + (i - 0) ≡ i
      at_zero i = omega arith

  pub race_After :
      (d d0 d' : k.Disk)
      → reset k g o d ≡ ok d0
      → Races k o (o.append_size, false, d0) (0, true, d')
      → (a : ℕ) × After k contents o a 0 d'
  race_After d d0 d' e races =
      let (d1, e1, before) = reset_lem k contents appends g o d round enough in
      let same : d1 ≡ d0 = ok-injective d1 d0 (sym e1 ∙ e) in
      Races-Inv k contents o appends round (o.append_size, false, d0) (0, true, d') races
        (subst (Before k contents o o.append_size) same before)
    where
      ok-injective : (a b : k.Disk) → ok a ≡ ok b → a ≡ b
      ok-injective a b e = cc

  -- Whatever the order of the `write`s and the truncation was, the check finds no error exactly when
  -- the file ends where a truncation before all of the append, or behind all of it, leaves its end: an
  -- append of which a part came before the truncation and a part behind it is reported. If the
  -- truncation is behind the end of the chunk.
  pub race_verdict :
      (d d0 d' : k.Disk)
      → o.chunk_size < o.trunc_offset
      → reset k g o d ≡ ok d0
      → Races k o (o.append_size, false, d0) (0, true, d')
      → (e : ℕ) × (check k memcmp f o read_buf d' ≡ ok e)
        × ((e ≡ 0)
            ↔ ((k.st_size d' ≡ o.trunc_offset + o.append_size) ⊎ (k.st_size d' ≡ o.trunc_offset)))
  race_verdict d d0 d' apart e races =
      let (a, after) = race_After d d0 d' e races in
      let (checked, result) = check_lem a d' after in
      (
        check_result memcmp o (k.st_size d') (seen d'),
        checked,
        elim (which a after.some_before) [
          | inl none_before ↦
              let good = all_after memcmp is_memcmp o round (seen d') (k.st_size d') (
                subst (Outcome memcmp is_memcmp o round (seen d') (k.st_size d')) none_before
                  result) in
              (λ z. inl (omega (arith, after.size, none_before)), λ z. good)
          | inr (inl every) ↦
              let good =
                all_before memcmp is_memcmp o round (seen d') (k.st_size d') (
                  subst (Outcome memcmp is_memcmp o round (seen d') (k.st_size d')) every result) in
              (λ z. inr (omega (arith, after.size, every)), λ z. good)
          | inr (inr (pos, low)) ↦
              let bad =
                split memcmp is_memcmp o round (seen d') (k.st_size d') a pos low apart result in
              (
                λ z. absurd (omega (arith, z, bad)),
                λ z. elim z [
                  | inl whole ↦ absurd (omega (arith, whole, after.size, pos))
                  | inr cut ↦ absurd (omega (arith, cut, after.size, low))
                ],
              )
        ],
      )
    where
      which :
          (a : ℕ)
          → a + 0 ≤ o.append_size
          → (a ≡ 0) ⊎ ((a ≡ o.append_size) ⊎ ((0 < a) × (a < o.append_size)))
      which a h = ground (arith, h)
