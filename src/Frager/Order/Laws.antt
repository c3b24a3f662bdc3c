-- ===== src/Frager/Order/Laws.antt =====
-- The order of the writes of frager.c has each chunk once, and the draws come to an end.
use native.Mathlib.Nat.{mod-lt}
use ocfs2_test.Common.{
  ℕ, zero, suc, ◌+◌, ◌-◌, ◌%◌, ◌^◌, ◌≤◌, ◌<◌, ◌≡◌, refl, ◌∙◌, ap, subst, Bool, true, false, List,
  ◌==◌, length, length-set, length-replicate, get_or, set, replicate, add64, sub64, ok, arith,
  Bool-cases, inl, inr,
}
use ocfs2_test.FileVerify.Prepare.{get_rand_ul}
use ocfs2_test.Frager.Order.{place_chunk, place_chunks, in_order, write_order}
use ocfs2_test.Frager.Order.Count.{
  count, hit, length-in_order, count-set, count-replicate, count-in_order, count-in_order_above,
  free_place, get_or-set, EachOnce,
}

get_rand_ul-range :
    (stream : ℕ → ℕ) (n r : ℕ)
    → 1 < n
    → n < 2 ^ 64
    → get_rand_ul stream r 1 (sub64 n 1) ≡ suc (stream r % (n - 1))
unfolding get_rand_ul
get_rand_ul-range stream n r more small =
    let span : add64 (sub64 (sub64 n 1) 1) 1 ≡ n - 1 = omega arith in
    rw span (no_wrap (stream r % (n - 1)) (mod-lt (stream r) (omega arith)))
  where
    no_wrap : (v : ℕ) → v < n - 1 → add64 1 v ≡ suc v
    no_wrap v h = omega arith

-- In every `w` calls of `rand()`, from whichever on, each place is drawn.
pub record Fair (stream : ℕ → ℕ) (n w : ℕ) : Type 0 where
  pub drawn : (r v : ℕ) → v < n - 1 → (q : ℕ) × (q < w) × (stream (r + q) % (n - 1) ≡ v)

-- The map when the chunks below `i` have their places; 0 stands for a free one too.
record Placed (n i : ℕ) (map : List ℕ) : Type 0 where
  len : length map ≡ n
  first : get_or map 0 0 ≡ 0
  free : count 0 map + i ≡ suc n
  placed : (c : ℕ) → 0 < c → c < i → count c map ≡ 1
  absent : (c : ℕ) → i ≤ c → count c map ≡ 0

Placed-first : (n : ℕ) → 0 < n → Placed n 1 (set (replicate n 0) 0 0)
unfolding count
Placed-first zero h = absurd (omega arith)
Placed-first (suc m) h = record {
  len = ap suc (length-replicate m 0);
  first = refl;
  free = ground (arith, count-replicate 0 m 0);
  placed = λ c pos low. absurd (omega arith);
  absent = λ c le. ground (arith, le, count-replicate c m 0);
}

module _ (stream : ℕ → ℕ) (n w : ℕ) (fair : Fair stream n w) (small : n < 2 ^ 64) where
  abbrev Drawn : ℕ → List ℕ → ℕ → ℕ → Type 0
  Drawn f map i r =
      (r' : ℕ) × (index : ℕ) × (place_chunk stream n f map i r ≡ ok (set map index i, r'))
      × (0 < index)
      × (index < n)
      × (get_or map index 0 ≡ 0)

  hit_now :
      (f : ℕ) (map : List ℕ) (i r : ℕ)
      → 1 < n
      → (get_or map (suc (stream r % (n - 1))) 0 == 0) ≡ true
      → Drawn (suc f) map i r
  unfolding place_chunk
  hit_now f map i r more free = (
    suc r,
    suc (stream r % (n - 1)),
    rw (place_chunk, get_rand_ul-range stream n r more small, free) refl,
    omega arith,
    suc_below (stream r % (n - 1)) (mod-lt (stream r) (omega arith)),
    ground (arith, free),
  )
    where
      suc_below : (v : ℕ) → v < n - 1 → suc v < n
      suc_below v h = omega arith

  place_chunk_lem :
      (f : ℕ) (map : List ℕ) (i r q : ℕ)
      → 1 < n
      → q < f
      → get_or map (suc (stream (r + q) % (n - 1))) 0 ≡ 0
      → Drawn f map i r
  unfolding place_chunk
  place_chunk_lem zero map i r q more h e = absurd (omega arith)
  place_chunk_lem (suc f) map i r zero more h e =
      let at : r + 0 ≡ r = omega arith in
      let free : (get_or map (suc (stream r % (n - 1))) 0 == 0) ≡ true =
        ground (arith, rw at at e) in
      hit_now f map i r more free
  place_chunk_lem (suc f) map i r (suc q) more h e =
      let at : r + suc q ≡ suc r + q = omega arith in
      let (r', index, e2, pos, low, free) =
        place_chunk_lem f map i (suc r) q more (omega arith) (rw at at e) in
      elim (Bool-cases (get_or map (suc (stream r % (n - 1))) 0 == 0)) [
        | inl now ↦ hit_now f map i r more now
        | inr taken ↦ (
          r',
          index,
          rw (place_chunk, get_rand_ul-range stream n r more small, taken) e2,
          pos,
          low,
          free,
        )
      ]

  -- One more chunk has its place.
  Placed-set :
      (i index : ℕ) (map : List ℕ)
      → 0 < i
      → i < n
      → 0 < index
      → index < n
      → get_or map index 0 ≡ 0
      → Placed n i map
      → Placed n (suc i) (set map index i)
  Placed-set i index map some_placed low pos inside free at = record {
    len = length-set map index i ∙ at.len;
    first = get_or-set map index i 0 (omega arith) ∙ at.first;
    free = omega (arith, hit_other i 0 (omega arith), at.free, counts 0);
    placed = λ c pos' low'. elim (Bool-cases (i == c)) [
      | inl now ↦ ground (arith, now, pos', counts c, at.absent c)
      | inr before ↦ ground (arith, before, pos', low', counts c, at.placed c pos')
    ];
    absent = λ c le. ground (arith, le, some_placed, counts c, at.absent c (omega arith));
  }
    where
      counts : (c : ℕ) → count c (set map index i) + hit 0 c ≡ count c map + hit i c
      counts c = rw free at (count-set c map index i (omega (arith, at.len)))

      hit_other : (a b : ℕ) → b < a → hit a b ≡ 0
      hit_other a b h = ground (arith, h)

  place_chunks_lem :
      (m i r : ℕ) (map : List ℕ)
      → 0 < i
      → i + m ≡ n
      → Placed n i map
      → (map' : List ℕ) × (r' : ℕ) × (place_chunks stream n w map i m r ≡ ok (map', r'))
        × Placed n n map'
  unfolding place_chunks
  place_chunks_lem zero i r map pos all at =
      let full : i ≡ n = omega (arith, all) in (map, r, refl, subst (λ z. Placed n z map) full at)
  place_chunks_lem (suc m) i r map pos all at =
      let (j, low, free) = free_place map at.first (omega (arith, all, at.free)) in
      let (q, soon, drawn) = fair.drawn r j (omega (arith, low, at.len)) in
      let (r1, index, e, above, inside, zero_there) =
        place_chunk_lem w map i r q (omega (arith, all)) soon (rw drawn free) in
      let (map', r', e', done) =
        place_chunks_lem m (suc i) r1 (set map index i) (omega arith) (omega (arith, all))
          (Placed-set i index map pos (omega (arith, all)) above inside zero_there at) in
      (map', r', rw e e', done)

  -- If every place is drawn within every `w` calls of `rand()`, the order of the writes is found, in
  -- random mode with `w` draws for each chunk, and it has each chunk of the file once and no other. For
  -- a file of at least one chunk and fewer than 2^64.
  pub write_order_lem :
      (is_random : Bool) (r : ℕ)
      → 0 < n
      → (order : List ℕ) × (r' : ℕ) × (write_order stream w is_random n r ≡ ok (order, r'))
        × EachOnce n order
  unfolding write_order
  write_order_lem false r pos = (
    in_order 0 n,
    r,
    refl,
    record {
      len = length-in_order 0 n;
      once = λ c h. count-in_order c 0 n (omega arith) (omega arith);
      no_other = λ c h. count-in_order_above c 0 n (omega arith);
    },
  )
  write_order_lem true r pos =
      let some_chunks : (n == 0) ≡ false = ground (arith, pos) in
      let (order, r', e, at) =
        place_chunks_lem (n - 1) 1 r (set (replicate n 0) 0 0) (omega arith) (omega arith)
          (Placed-first n pos) in
      (
        order,
        r',
        rw some_chunks e,
        record {
          len = at.len;
          once = λ c low. elim (Bool-cases (c == 0)) [
            | inl bottom ↦ ground (arith, bottom, at.free)
            | inr above ↦ at.placed c (ground (arith, above)) low
          ];
          no_other = at.absent;
        },
      )
