-- ===== src/Truncate/Run.antt =====
-- `run` of verify_truncate.c: one iteration of the test on a disk that keeps what is written.
use Prim.Native.Nat.{bit_or}
use native.Mathlib.Nat.{mod-lt, div-add-mod'}
use ocfs2_test.Common.{
  ℕ, zero, suc, ◌+◌, ◌-◌, ◌*◌, ◌/◌, ◌%◌, ◌^◌, ◌≤◌, ◌<◌, ◌≡◌, ◌⊎◌, inl, inr, refl, ◌∙◌, sym, ap,
  subst, true, false, some, List, ◌++◌, length, length-append, length-take, length-replicate, take,
  replicate, get_or, ltb, ◌==◌, add64, sub64, ◌&&◌, ok, ◌>>=◌, arith, Bool-cases,
}
use ocfs2_test.Kernel.{Kernel, slice, Keeps}
use ocfs2_test.Kernel.Slices.{
  slice_list, get_or-take, get_or-replicate, get_or-append_left, get_or-append_right,
}
use ocfs2_test.Truncate.{
  Setup, get_rand_ull, one_less, last_of, truncated, file_truncate, extend, verify_truncate, run,
}
use ocfs2_test.Truncate.Prep.{IsSetup, Patterned, next_cluster, prep_file_lem}
use ocfs2_test.Truncate.Check.{verify_truncate_iff}

below_max : (x hi : ℕ) → hi < 2 ^ 63 → add64 0 (x % add64 (sub64 hi 0) 1) ≤ hi
below_max x hi h =
    let e : add64 (sub64 hi 0) 1 ≡ hi + 1 = omega (arith, h) in
    rw e (omega (arith, h, mod-lt x {m = hi + 1} (omega arith)))

-- `get_rand_ull (0, max)` is at most `max`.
get_rand_ull-le : (stream : ℕ → ℕ) (hi i : ℕ) → hi < 2 ^ 63 → (get_rand_ull stream 0 hi i).0 ≤ hi
unfolding get_rand_ull
get_rand_ull-le stream hi i h = elim (Bool-cases (0 == 0 && hi == 0)) [
  | inl e ↦ rw e (omega arith)
  | inr e ↦ rw e (
      below_max
        (bit_or (bit_or (stream i * 2 ^ 32 % 2 ^ 64) (stream (i + 1) * 2 ^ 16 % 2 ^ 64))
          (stream (i + 2)))
        hi h)
]

-- Stretches of a patterned file.
slice-Patterned :
    (o : Setup) (n i : ℕ) (file : ℕ → ℕ)
    → IsSetup o
    → Patterned o n file
    → i * o.clustersize + o.clustersize ≤ n
    → slice file (i * o.clustersize) o.clustersize ≡ o.pattern
slice-Patterned o n i file s h inside =
    subst (λ m. slice file (i * o.clustersize) m ≡ o.pattern) s.length_pattern
      (slice_list file o.pattern (i * o.clustersize) (λ j low.
        h i j (omega (arith, low, s.length_pattern))
          (omega (arith, low, inside, s.length_pattern))))

-- A cluster with `r` bytes of the pattern and zeroes behind them.
slice-last :
    (o : Setup) (q r : ℕ) (file : ℕ → ℕ)
    → IsSetup o
    → r ≤ o.clustersize
    → ((j : ℕ) → j < r → file (q * o.clustersize + j) ≡ get_or o.pattern j 0)
    → ((j : ℕ) → r ≤ j → j < o.clustersize → file (q * o.clustersize + j) ≡ 0)
    → slice file (q * o.clustersize) o.clustersize
      ≡ take r o.pattern ++ replicate (o.clustersize - r) 0
slice-last o q r file s le kept zeroed =
    subst (λ m. slice file (q * o.clustersize) m ≡ expected) len
      (slice_list file expected (q * o.clustersize) byte)
  where
    front : List ℕ
    front = take r o.pattern

    back : List ℕ
    back = replicate (o.clustersize - r) 0

    expected : List ℕ
    expected = front ++ back

    len_front : length front ≡ r
    len_front = omega (arith, length-take r o.pattern, s.length_pattern, le)

    len : length expected ≡ o.clustersize
    len = omega (
      arith,
      length-append front back,
      len_front,
      length-replicate {A = ℕ} (o.clustersize - r) 0,
      le,
    )

    before_or_after : (j : ℕ) → (j < r) ⊎ (r ≤ j)
    before_or_after j = ground arith

    byte : (j : ℕ) → j < length expected → file (q * o.clustersize + j) ≡ get_or expected j 0
    byte j h = elim (before_or_after j) [
      | inl before ↦
          kept j before
          ∙ sym (get_or-take o.pattern r j before)
          ∙ sym (get_or-append_left front back j (omega (arith, before, len_front)))
      | inr after ↦
          zeroed j after (omega (arith, h, len))
          ∙ sym (
              get_or-replicate (o.clustersize - r) 0 (j - length front)
                (omega (arith, after, h, len, len_front)))
          ∙ sym (get_or-append_right front back j (omega (arith, after, len_front)))
    ]

module _ (k : Kernel) (contents : k.Disk → ℕ → ℕ) (size : k.Disk → ℕ)
    (keeps : Keeps k contents size) (o : Setup) (s : IsSetup o) where
  -- Whole clusters are left.
  accepts_whole :
      (q : ℕ) (d : k.Disk)
      → Patterned o (q * o.clustersize) (contents d)
      → size d ≡ q * o.clustersize
      → verify_truncate k o (record { last_pattern = o.pattern; last_cluster = one_less q }) d
        ≡ ok tt
  unfolding verify_truncate
  accepts_whole zero d h end = refl
  accepts_whole (suc l) d h end =
      (verify_truncate_iff k contents size keeps o o.pattern l d
          (omega (arith, end, next_cluster l (suc l) o.clustersize (omega arith)))).1
        (
          λ i low.
              slice-Patterned o (suc l * o.clustersize) i (contents d) s h
                (next_cluster i (suc l) o.clustersize (omega (arith, low))),
          slice-Patterned o (suc l * o.clustersize) l (contents d) s h
              (next_cluster l (suc l) o.clustersize (omega arith)),
        )

  -- `r` bytes of the last cluster are left, and zeroes behind them.
  accepts_part :
      (q r : ℕ) (d : k.Disk)
      → r ≤ o.clustersize
      → Patterned o (q * o.clustersize + r) (contents d)
      → ((p : ℕ)
          → q * o.clustersize + r ≤ p
          → p < q * o.clustersize + o.clustersize
          → contents d p ≡ 0)
      → size d ≡ q * o.clustersize + o.clustersize
      → verify_truncate k o
          (record {
            last_pattern = take r o.pattern ++ replicate (o.clustersize - r) 0;
            last_cluster = some q;
          })
          d
        ≡ ok tt
  accepts_part q r d le h zeroed end =
      (verify_truncate_iff k contents size keeps o
          (take r o.pattern ++ replicate (o.clustersize - r) 0) q d (omega (arith, end))).1
        (
          λ i low.
              slice-Patterned o (q * o.clustersize + r) i (contents d) s h
                (omega (arith, next_cluster i q o.clustersize (omega (arith, low)))),
          slice-last o q r (contents d) s le (λ j low. h q j (omega arith) (omega arith))
              (λ j a b. zeroed (q * o.clustersize + j) (omega (arith, a)) (omega (arith, b))),
        )

  truncated_lem :
      (n : ℕ) (d d' : k.Disk) → k.ftruncate n d ≡ (true, d') → truncated k (k.ftruncate n d) ≡ ok d'
  unfolding truncated
  truncated_lem n d d' e = ap (truncated k) e

  -- What `file_truncate`, the extension and `verify_truncate` come to for a size in the file.
  tail_accepts :
      (new_size : ℕ) (d : k.Disk)
      → Patterned o new_size (contents d)
      → new_size ≤ size d
      → (file_truncate k o new_size d >>= λ (l, d2).
          extend k o new_size d2 >>= λ d3. verify_truncate k o l d3)
        ≡ ok tt
  unfolding file_truncate extend last_of
  tail_accepts new_size d h le =
      let q = new_size / o.clustersize in
      let r = new_size % o.clustersize in
      let parts : q * o.clustersize + r ≡ new_size = div-add-mod' new_size o.clustersize in
      let small : r < o.clustersize = mod-lt new_size s.some_byte in
      let (d2, e2, cut, size2) = keeps.ftruncate_keeps new_size d in
      let same : (p : ℕ) → p < new_size → contents d2 p ≡ contents d p = λ p low.
        cut p low
        ∙ (let in_file : ltb p (size d) ≡ true = ground (arith, low, le) in rw in_file refl) in
      let kept : Patterned o new_size (contents d2) =
        λ i j a b. same (i * o.clustersize + j) b ∙ h i j a b in
      elim (Bool-cases (r == 0)) [
        | inl e ↦
            (let whole : q * o.clustersize ≡ new_size = ground (arith, parts, e) in
              rw (truncated_lem new_size d d2 e2, e)
                (accepts_whole q d2 (subst (λ z. Patterned o z (contents d2)) (sym whole) kept)
                  (size2 ∙ sym whole)))
        | inr e ↦
            (let total = (q + 1) * o.clustersize in
              let (d3, e3, grown, size3) = keeps.ftruncate_keeps total d2 in
              let end : total ≡ q * o.clustersize + o.clustersize = omega arith in
              let old : (p : ℕ) → p < new_size → contents d3 p ≡ contents d2 p = λ p low.
                grown p (omega (arith, low, end, parts, small))
                ∙ (let in_file : ltb p (size d2) ≡ true = ground (arith, low, size2) in
                    rw in_file refl) in
              let zeroed : (p : ℕ)
                  → q * o.clustersize + r ≤ p
                  → p < q * o.clustersize + o.clustersize
                  → contents d3 p ≡ 0 =
                λ p a b.
                  grown p (omega (arith, b, end))
                  ∙ (let past : ltb p (size d2) ≡ false = ground (arith, a, size2, parts) in
                      rw past refl) in
              rw (truncated_lem new_size d d2 e2, e, truncated_lem total d2 d3 e3)
                (accepts_part q r d3 (omega (arith, small))
                  (λ i j a b.
                    old (i * o.clustersize + j) (omega (arith, b, parts))
                    ∙ kept i j a (omega (arith, b, parts)))
                  zeroed (size3 ∙ end)))
      ]

  -- On a disk that keeps what is written an iteration of verify_truncate ends with success, whatever
  -- the random numbers are; one round of the preparation per cluster and one more are enough.
  pub run_accepts :
      (f : ℕ) (stream : ℕ → ℕ) (i : ℕ) (d t : k.Disk)
      → o.clusters < f
      → run k f o stream i d t ≡ ok tt
  unfolding run
  run_accepts f stream i d t enough =
      let total = o.clusters * o.clustersize in
      let (d1, t1, e1, patterned, big) = prep_file_lem k contents size keeps o f d t s enough in
      let le : (get_rand_ull stream 0 total i).0 ≤ total =
        get_rand_ull-le stream total i (omega (arith, s.fits)) in
      rw e1 (
        tail_accepts (get_rand_ull stream 0 total i).0 d1
          (λ a b x y. patterned a b x (omega (arith, y, le))) (omega (arith, le, big)))
