-- ===== src/ExtendWrite/Sound.antt =====
-- What a file holds that verify.c of extend_and_write accepts.
use ocfs2_test.ExtendWrite.Blocks.{
  letter_of, count_as, count_bs, count_all, AreBlocks, ReadsBack, verify_complete,
}
use ocfs2_test.Kernel.Slices.{get_or-slice, length-slice}
use ocfs2_test.Common.{
  ℕ, zero, suc, ◌+◌, ◌-◌, ◌*◌, ◌≤◌, ◌<◌, ◌≡◌, ◌≢◌, ◌↔◌, inl, inr, refl, ◌∙◌, sym, ap, subst, Bool,
  true, false, ◌&&◌, ◌||◌, not, List, [], ◌∷◌, length, get_or, ltb, ◌==◌, if◌then◌else◌, min,
  Result, ok, failed, arith, Bool-cases, bind-ok,
}
use ocfs2_test.Kernel.{bytes, slice}
use ocfs2_test.ExtendWrite.{Appended, checkbuff, count_blocks, verify}

checkbuff_sound :
    (bs : List ℕ) (c i : ℕ) → checkbuff bs c ≡ true → i < length bs → get_or bs i 0 ≡ c
unfolding checkbuff
checkbuff_sound [] c i e h = absurd (omega arith)
checkbuff_sound (b ∷ bs) c zero e h = ground (arith, e)
checkbuff_sound (b ∷ bs) c (suc i) e h = checkbuff_sound bs c i (ground (arith, e)) (omega arith)

module _ (k : Appended) (contents : k.Disk → ℕ → ℕ) (size : k.Disk → ℕ)
    (reads : ReadsBack k contents size) (off : ℕ) (pos : 0 < off) (d : k.Disk) where
  -- What a read at a position gives.
  abbrev got : ℕ → List ℕ
  got position = slice (contents d) position (min off (size d - position))

  -- A block that is counted lies in the file and is of one letter.
  abbrev Counted : ℕ → Bool → Type 0
  Counted position c =
      (position + off ≤ size d) × ((q : ℕ) → q < off → contents d (position + q) ≡ letter_of c)

  counted :
      (position : ℕ) (c : Bool)
      → (length (got position) == off) ≡ true
      → checkbuff (got position) (get_or (got position) 0 0) ≡ true
      → get_or (got position) 0 0 ≡ letter_of c
      → Counted position c
  counted position c whole one_letter is_c =
      let len = length-slice (contents d) position (min off (size d - position)) in
      let n : min off (size d - position) ≡ off = ground (arith, whole, len) in
      (
        omega (arith, n, pos),
        λ q low.
            sym (
              get_or-slice (contents d) position (min off (size d - position)) q
                (omega (arith, n, low)))
            ∙ checkbuff_sound (got position) (get_or (got position) 0 0) q one_letter
                (omega (arith, n, low, len))
            ∙ is_c,
      )

  failed-ok : {A : Type 0} (v : A) → failed ≢ ok v
  failed-ok v e = cc

  ok-injective : {A : Type 0} (v w : A) → ok v ≡ ok w → v ≡ w
  ok-injective v w e = cc

  is_letter : (n m : ℕ) → (n == m) ≡ true → n ≡ m
  is_letter n m e = ground (arith, e)

  count_block_sound :
      (left position a b : ℕ) (r : ℕ × ℕ)
      → count_blocks k off (suc left) position a b d ≡ ok r
      → (c : Bool) × Counted position c
        × ((if c
              then count_blocks k off left (position + off) (suc a) b d
              else count_blocks k off left (position + off) a (suc b) d)
            ≡ ok r)
  unfolding count_blocks
  count_block_sound left position a b r e = elim (Bool-cases (length (got position) == off)) [
    | inr short ↦ absurd (failed-ok r (rw (full, count_blocks, short) at e))
    | inl whole ↦
        let len = is_letter (length (got position)) off whole in
        elim (Bool-cases (checkbuff (got position) first)) [
          | inr mixed ↦ elim (Bool-cases (not (first == b'A') && not (first == b'B'))) [
            | inl other ↦ absurd (failed-ok r (rw (full, count_blocks, whole, other) at e))
            | inr letter ↦ absurd (failed-ok r (rw (full, count_blocks, whole, letter, mixed) at e))
          ]
          | inl one_letter ↦ elim (Bool-cases (first == b'A')) [
            | inl an_a ↦ (
              true,
              counted position true whole one_letter (is_letter first b'A' an_a),
              rw (full, count_blocks, whole, an_a, one_letter, len) at e,
            )
            | inr no_a ↦ elim (Bool-cases (first == b'B')) [
              | inl a_b ↦ (
                false,
                counted position false whole one_letter (is_letter first b'B' a_b),
                rw (full, count_blocks, whole, no_a, a_b, one_letter, len) at e,
              )
              | inr no_b ↦ absurd (failed-ok r (rw (full, count_blocks, whole, no_a, no_b) at e))
            ]
          ]
        ]
  ]
    where
      first : ℕ
      first = get_or (got position) 0 0

      full : k.read off position d ≡ bytes (got position)
      full = reads.read_full off position d

  abbrev Found : ℕ → ℕ → ℕ → ℕ → ℕ × ℕ → Type 0
  Found left position a b r =
      (bs : List Bool) × (length bs ≡ left)
      × (position + off * left ≤ size d)
      × AreBlocks (contents d) off position bs
      × (r.0 ≡ a + count_as bs)
      × (r.1 ≡ b + count_bs bs)

  Found-suc :
      (left position a b : ℕ) (r : ℕ × ℕ) (c : Bool)
      → Counted position c
      → ((a b : ℕ)
          → count_blocks k off left (position + off) a b d ≡ ok r
          → Found left (position + off) a b r)
      → ((if c
            then count_blocks k off left (position + off) (suc a) b d
            else count_blocks k off left (position + off) a (suc b) d)
          ≡ ok r)
      → Found (suc left) position a b r
  unfolding count_as count_bs
  Found-suc left position a b r true (low, h) find e =
      let (bs, len, end, blocks, as', bs') = find (suc a) b e in
      (true ∷ bs, ap suc len, omega (arith, end), (h, blocks), omega (arith, as'), bs')
  Found-suc left position a b r false (low, h) find e =
      let (bs, len, end, blocks, as', bs') = find a (suc b) e in
      (false ∷ bs, ap suc len, omega (arith, end), (h, blocks), as', omega (arith, bs'))

  -- So are all blocks that are counted.
  count_blocks_sound :
      (left position a b : ℕ) (r : ℕ × ℕ)
      → position ≤ size d
      → count_blocks k off left position a b d ≡ ok r
      → Found left position a b r
  unfolding count_blocks count_as count_bs
  count_blocks_sound zero position a b r inside e =
      subst (Found 0 position a b) (ok-injective (a, b) r e)
        ([], refl, omega (arith, inside), tt, omega arith, omega arith)
  count_blocks_sound (suc left) position a b r inside e =
      let (c, (low, h), rest) = count_block_sound left position a b r e in
      Found-suc left position a b r c (low, h)
        (λ a' b' e'. count_blocks_sound left (position + off) a' b' r low e') rest

  pub verify_iff :
      (loops : ℕ)
      → (verify k off loops d ≡ ok tt) ↔ (
          (bs : List Bool) × (length bs ≡ 2 * loops)
          × (count_as bs ≡ loops)
          × (off * length bs ≤ size d)
          × AreBlocks (contents d) off 0 bs)
  unfolding verify
  verify_iff loops = (
    λ e.
        let (n, all, balanced) = bind-ok (count_blocks k off (2 * loops) 0 0 0 d) verdict tt e in
        let (bs, len, end, blocks, as', bs') =
          count_blocks_sound (2 * loops) 0 0 0 n (omega arith) all in
        (
          bs,
          len,
          ground (arith, balanced, as', bs', len, count_all bs),
          subst (λ z. off * z ≤ size d) (sym len) (omega (arith, end)),
          blocks,
        ),
    λ (bs, len, as_many, inside, blocks).
        verify_complete k contents size reads off pos d loops bs len as_many inside blocks,
  )
    where
      verdict : ℕ × ℕ → Result (Unit {0})
      verdict (numas, numbs) =
          if not (numas == numbs) || ltb numas loops || ltb numbs loops then failed else ok tt
