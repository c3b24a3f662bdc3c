-- ===== src/ExtendWrite/Blocks.antt =====
-- What verify.c of extend_and_write finds in a file of blocks.
use ocfs2_test.Kernel.Slices.{get_or-replicate, slice-replicate}
use ocfs2_test.Common.{
  ℕ, zero, suc, ◌+◌, ◌-◌, ◌*◌, ◌≤◌, ◌<◌, ◌≡◌, refl, ◌∙◌, sym, ap, Bool, true, false, ◌&&◌, ◌||◌,
  not, List, [], ◌∷◌, length, length-replicate, replicate, ltb, ◌==◌, if◌then◌else◌, min, ok,
  failed, arith,
}
use ocfs2_test.Kernel.{bytes, slice}
use ocfs2_test.ExtendWrite.{Appended, checkbuff, count_blocks, verify}

-- The blocks of the parent are `true`.
abbrev pub letter_of : Bool → ℕ
letter_of true = b'A'
letter_of false = b'B'

unfoldable pub count_as : List Bool → ℕ
count_as [] = 0
count_as (true ∷ bs) = suc (count_as bs)
count_as (false ∷ bs) = count_as bs

unfoldable pub count_bs : List Bool → ℕ
count_bs [] = 0
count_bs (true ∷ bs) = count_bs bs
count_bs (false ∷ bs) = suc (count_bs bs)

pub count_all : (bs : List Bool) → count_as bs + count_bs bs ≡ length bs
unfolding count_as count_bs
count_all [] = refl
count_all (true ∷ bs) = omega (arith, count_all bs)
count_all (false ∷ bs) = omega (arith, count_all bs)

-- The bytes of a file from a position on are whole blocks of these letters.
abbrev pub AreBlocks : (ℕ → ℕ) → ℕ → ℕ → List Bool → Type 0
AreBlocks m off position [] = Unit
AreBlocks m off position (b ∷ bs) =
    ((q : ℕ) → q < off → m (position + q) ≡ letter_of b) × AreBlocks m off (position + off) bs

checkbuff-replicate : (n c : ℕ) → checkbuff (replicate n c) c ≡ true
unfolding checkbuff
checkbuff-replicate zero c = refl
checkbuff-replicate (suc n) c = ground (arith, checkbuff-replicate n c)

-- A file that reads undisturbed, up to its end.
pub record ReadsBack (k : Appended) (contents : k.Disk → ℕ → ℕ) (size : k.Disk → ℕ) : Type 0 where
  pub read_full :
      (count position : ℕ) (d : k.Disk)
      → k.read count position d
        ≡ bytes (slice (contents d) position (min count (size d - position)))

module _ (k : Appended) (contents : k.Disk → ℕ → ℕ) (size : k.Disk → ℕ)
    (reads : ReadsBack k contents size) (off : ℕ) (pos : 0 < off) (d : k.Disk) where
  -- A block of one letter is counted.
  count_block :
      (c : Bool) (left position a b : ℕ)
      → position + off ≤ size d
      → ((q : ℕ) → q < off → contents d (position + q) ≡ letter_of c)
      → count_blocks k off (suc left) position a b d ≡ (
          if c
          then count_blocks k off left (position + off) (suc a) b d
          else count_blocks k off left (position + off) a (suc b) d)
  unfolding count_blocks
  count_block c left position a b inside h =
      let got : k.read off position d ≡ bytes (replicate off (letter_of c)) =
        reads.read_full off position d
        ∙ ap (λ n. bytes (slice (contents d) position n)) cut
        ∙ ap bytes (block c h) in
      rw
        (
          got,
          count_blocks,
          length-replicate {A = ℕ} off (letter_of c),
          same,
          get_or-replicate off (letter_of c) 0 pos,
          checkbuff-replicate off (letter_of c),
        )
        (known c)
    where
      cut : min off (size d - position) ≡ off
      cut = omega (arith, inside)

      same : (off == off) ≡ true
      same = ground arith

      block :
          (c : Bool)
          → ((q : ℕ) → q < off → contents d (position + q) ≡ letter_of c)
          → slice (contents d) position off ≡ replicate off (letter_of c)
      block c h = slice-replicate (contents d) position off (letter_of c) (λ i lo hi.
          let at : position + (i - position) ≡ i = omega (arith, lo) in
          ap (contents d) (sym at) ∙ h (i - position) (omega (arith, lo, hi)))

      known :
          (c : Bool)
          → (if not (letter_of c == b'A') && not (letter_of c == b'B')
              then failed
              else if letter_of c == b'A'
              then count_blocks k off left (position + off) (suc a) b d
              else count_blocks k off left (position + off) a (suc b) d)
            ≡ (if c
                then count_blocks k off left (position + off) (suc a) b d
                else count_blocks k off left (position + off) a (suc b) d)
      known true = refl
      known false = refl

  count_blocks_complete :
      (bs : List Bool) (position a b : ℕ)
      → position + off * length bs ≤ size d
      → AreBlocks (contents d) off position bs
      → count_blocks k off (length bs) position a b d ≡ ok (a + count_as bs, b + count_bs bs)
  unfolding count_as count_bs count_blocks
  count_blocks_complete [] position a b inside h =
      let e : a ≡ a + 0 = omega arith in
      let e' : b ≡ b + 0 = omega arith in ap (λ z. ok (z, b)) e ∙ ap (λ z. ok (a + 0, z)) e'
  count_blocks_complete (true ∷ bs) position a b inside (h, hs) =
      let e : suc a + count_as bs ≡ a + suc (count_as bs) = omega arith in
      count_block true (length bs) position a b (omega (arith, inside)) h
      ∙ count_blocks_complete bs (position + off) (suc a) b (omega (arith, inside)) hs
      ∙ ap (λ z. ok (z, b + count_bs bs)) e
  count_blocks_complete (false ∷ bs) position a b inside (h, hs) =
      let e : suc b + count_bs bs ≡ b + suc (count_bs bs) = omega arith in
      count_block false (length bs) position a b (omega (arith, inside)) h
      ∙ count_blocks_complete bs (position + off) a (suc b) (omega (arith, inside)) hs
      ∙ ap (λ z. ok (a + count_as bs, z)) e

  pub verify_complete :
      (loops : ℕ) (bs : List Bool)
      → length bs ≡ 2 * loops
      → count_as bs ≡ loops
      → off * length bs ≤ size d
      → AreBlocks (contents d) off 0 bs
      → verify k off loops d ≡ ok tt
  unfolding verify
  verify_complete loops bs len as_many inside blocks =
      rw (sym len)
        (rw (count_blocks_complete bs 0 0 0 (omega (arith, inside)) blocks) (rw refused refl))
    where
      refused :
          (not (0 + count_as bs == 0 + count_bs bs)
            || ltb (0 + count_as bs) loops
            || ltb (0 + count_bs bs) loops)
          ≡ false
      refused = ground (arith, as_many, len, count_all bs)
