-- ===== src/Inline/Rounds.antt =====
-- What the rounds of the loops of inline-data.c have in common: the bounds of the random numbers, and a
-- change of the file with the verification behind it.
use native.Mathlib.Nat.{mod-lt}
use ocfs2_test.Common.{
  refl, ℕ, ◌+◌, ◌*◌, ◌%◌, ◌^◌, ◌≤◌, ◌<◌, ◌≡◌, Bool, true, false, leb, max, arith, ◌>>=◌, add64,
  sub64, ◌&&◌, ◌==◌, Bool-cases, inl, inr,
}
use ocfs2_test.Kernel.{Kernel}
use ocfs2_test.Inline.{
  verify_pattern_fd, Sizes, State, pattern_sz, get_rand, truncate_pattern, extend_pattern, write_at,
}
use ocfs2_test.Inline.Inode.{Volume, File, Inlines}
use ocfs2_test.Inline.Agrees.{Ends, Ends-bind}
use ocfs2_test.Inline.Verify.{Agrees, Ends-verify_pattern_fd}
use ocfs2_test.Inline.Changes.{Ends-truncate_pattern, Ends-extend_pattern, Ends-write_at}
use ocfs2_test.Inline.Regular.{drawing}

-- The numbers of a volume: some data fit into an inode, which is no larger than a block, and twice as
-- much is in the bounds of the pattern.
pub record IsSizes (o : Sizes) : Type 0 where
  pub some_inline : 0 < o.max_inline_size
  pub in_block : o.max_inline_size ≤ o.blocksize
  pub in_pattern : 2 * o.max_inline_size ≤ pattern_sz
  pub some_page : 0 < o.page_size

draw_bounds :
    (x hi : ℕ)
    → 1 ≤ hi
    → hi < 2 ^ 31
    → (1 ≤ add64 1 (x % add64 (sub64 hi 1) 1)) × (add64 1 (x % add64 (sub64 hi 1) 1) ≤ hi)
draw_bounds x hi low high =
    let e : add64 (sub64 hi 1) 1 ≡ hi = omega (arith, low, high) in
    let r : x % hi < hi = mod-lt x {m = hi} (omega (arith, low)) in
    rw e (omega (arith, r, high), omega (arith, r, high))

module _ (k : Kernel) (v : Volume k) (o : Sizes) (stream : ℕ → ℕ) (view : k.Disk → File)
    (inlines : Inlines k v o.max_inline_size view) (sizes : IsSizes o) where
  open o use {max_inline_size}

  -- The file agrees with the pattern in its first `n` bytes and has no more, and its descriptor is
  -- no direct one.
  abbrev pub Good : ℕ → Bool → State k → Type 0
  Good n b s = Agrees k v o max_inline_size view inlines n b false s

  pub drawing-bounds :
      (hi : ℕ) (s : State k)
      → 1 ≤ hi
      → hi < 2 ^ 31
      → (1 ≤ (drawing k v o stream 1 hi s).0) × ((drawing k v o stream 1 hi s).0 ≤ hi)
  unfolding drawing get_rand
  drawing-bounds hi s low high = draw_bounds (stream s.drawn) hi low high

  pub drawing-Good :
      (lo hi n : ℕ) (b : Bool) (s : State k)
      → Good n b s
      → Good n b (drawing k v o stream lo hi s).1
  unfolding drawing
  drawing-Good lo hi n b s h = h

  pub verified :
      (n : ℕ) (b : Bool) (s : State k)
      → Good n b s
      → Ends (Good n b) (verify_pattern_fd k v o false n s)
  verified n b s h = Ends-verify_pattern_fd k v o max_inline_size view inlines n b false s h

  -- A write of the pattern that ends in the inode, and the verification of the `m` bytes there are.
  pub write_verified :
      (count offset n m : ℕ) (s : State k)
      → offset ≤ n
      → max n (offset + count) ≡ m
      → offset + count ≤ max_inline_size
      → Good n true s
      → Ends
          (Good m true)
          (write_at k v o count offset s >>= λ s1. verify_pattern_fd k v o false m s1)
  write_verified count offset n m s low e small h =
      let e' : leb (offset + count) max_inline_size ≡ true = ground (arith, small) in
      Ends-bind
        (rw (e, e') at
          (Ends-write_at k v o max_inline_size view inlines count offset n true false s low h))
        (verified m true)

  pub truncate_verified :
      (old new : ℕ) (s : State k)
      → new ≤ old
      → old ≤ max_inline_size
      → Good old true s
      → Ends
          (Good new true)
          (truncate_pattern k v o old new s >>= λ s1. verify_pattern_fd k v o false new s1)
  truncate_verified old new s le small h =
      let e : leb new max_inline_size ≡ true = ground (arith, le, small) in
      Ends-bind
        (rw e at (
          Ends-truncate_pattern k v o max_inline_size view inlines old new true false s le
            (omega (arith, small, sizes.in_pattern)) h))
        (verified new true)

  pub extend_verified :
      (old new : ℕ) (s : State k)
      → old ≤ new
      → new < 2 ^ 31
      → Good old true s
      → Ends
          (Good new (leb new max_inline_size))
          (extend_pattern k v o old new s >>= λ s1. verify_pattern_fd k v o false new s1)
  extend_verified old new s le small h =
      Ends-bind
        (Ends-extend_pattern k v o max_inline_size view inlines old new true false s le small h)
        (verified new (leb new max_inline_size))

  -- The place and the length of the random write of a child.
  below_max : (x hi : ℕ) → hi < 2 ^ 31 → add64 0 (x % add64 (sub64 hi 0) 1) ≤ hi
  below_max x hi h =
      let e : add64 (sub64 hi 0) 1 ≡ hi + 1 = omega (arith, h) in
      rw e (omega (arith, h, mod-lt x {m = hi + 1} (omega arith)))

  pub drawing-le : (hi : ℕ) (s : State k) → hi < 2 ^ 31 → (drawing k v o stream 0 hi s).0 ≤ hi
  unfolding drawing get_rand
  drawing-le hi s h = elim (Bool-cases (0 == 0 && hi == 0)) [
    | inl e ↦ rw e (omega arith)
    | inr e ↦ rw e (below_max (stream s.drawn) hi h)
  ]

  pub drawing-pattern :
      (lo hi : ℕ) (s : State k) → (drawing k v o stream lo hi s).1.pattern ≡ s.pattern
  unfolding drawing
  drawing-pattern lo hi s = refl
