-- ===== src/Truncate/Prep.antt =====
-- `prep_file_with_pattern` of verify_truncate.c: the file it leaves.
use native.Mathlib.Nat.{mul-le-mul_right}
use ocfs2_test.Common.{
  List, subst, ℕ, zero, suc, ◌+◌, ◌*◌, ◌^◌, ◌≤◌, ◌<◌, ◌≡◌, refl, ◌∙◌, ap, true, false, ltb, length,
  length-take, take, get_or, add64, ok, ◌⊎◌, inl, inr, arith,
}
use ocfs2_test.Kernel.{Kernel, wrote, splice, Keeps}
use ocfs2_test.Kernel.Slices.{splice_in, splice_out, get_or-take}
use ocfs2_test.Truncate.{Setup, wrote_some, prep_file}

-- The numbers of a run: a cluster has a byte, the file is no longer than a signed offset can say, and
-- the pattern has the length of a cluster.
pub record IsSetup (o : Setup) : Type 0 where
  pub some_byte : 0 < o.clustersize
  pub fits : o.clusters * o.clustersize < 2 ^ 63
  pub cluster_fits : o.clustersize < 2 ^ 63
  pub length_pattern : length o.pattern ≡ o.clustersize

-- The first `n` bytes of a file are the pattern, cluster after cluster.
abbrev pub Patterned : Setup → ℕ → (ℕ → ℕ) → Type 0
Patterned o n file =
    (i j : ℕ)
    → j < o.clustersize
    → i * o.clustersize + j < n
    → file (i * o.clustersize + j) ≡ get_or o.pattern j 0

pub next_cluster : (i k c : ℕ) → i < k → i * c + c ≤ k * c
next_cluster i k c h = omega (arith, mul-le-mul_right {m = suc i} {n = k} c (omega arith))

module _ (k : Kernel) (contents : k.Disk → ℕ → ℕ) (size : k.Disk → ℕ)
    (keeps : Keeps k contents size) where
  prep_step :
      (f total cs off : ℕ) (buf : List ℕ) (d t d' t' : k.Disk)
      → ltb off total ≡ true
      → ltb total (add64 off cs) ≡ false
      → wrote_some k (k.pwrite (take cs buf) off d) ≡ ok d'
      → wrote_some k (k.pwrite (take cs buf) off t) ≡ ok t'
      → prep_file k (suc f) false total cs buf off d t
        ≡ prep_file k f false total cs buf (add64 off cs) d' t'
  unfolding prep_file
  prep_step f total cs off buf d t d' t' here whole e e' = rw (prep_file, here, whole, e, e') refl

  prep_end :
      (f total cs off : ℕ) (buf : List ℕ) (d t : k.Disk)
      → ltb off total ≡ false
      → prep_file k (suc f) false total cs buf off d t ≡ ok (d, t)
  unfolding prep_file
  prep_end f total cs off buf d t past = rw (prep_file, past) refl

  wrote_some_lem :
      (buf : List ℕ) (off n : ℕ) (d d' : k.Disk)
      → k.pwrite buf off d ≡ (wrote n, d')
      → wrote_some k (k.pwrite buf off d) ≡ ok d'
  unfolding wrote_some
  wrote_some_lem buf off n d d' e = ap (wrote_some k) e

  Patterned-splice :
      (o : Setup) (n : ℕ) (file file' : ℕ → ℕ)
      → IsSetup o
      → Patterned o (n * o.clustersize) file
      → ((p : ℕ) → file' p ≡ splice file (n * o.clustersize) (take o.clustersize o.pattern) p)
      → Patterned o (n * o.clustersize + o.clustersize) file'
  Patterned-splice o n file file' s old new i j hj h = elim (order i n) [
    | inl lower ↦
        new (i * c + j)
        ∙ splice_out file (n * c) buf (i * c + j)
            (inl (omega (arith, next_cluster i n c lower, hj)))
        ∙ old i j hj (omega (arith, next_cluster i n c lower, hj))
    | inr (inl same) ↦ rw same (
        new (n * c + j)
        ∙ splice_in file (n * c) buf (n * c + j) (omega arith) (rw len (omega (arith, hj)))
        ∙ ap (λ z. get_or buf z 0) (omega arith)
        ∙ get_or-take o.pattern c j hj)
    | inr (inr higher) ↦ absurd (omega (arith, next_cluster n i c higher, h))
  ]
    where
      c : ℕ
      c = o.clustersize

      buf : List ℕ
      buf = take o.clustersize o.pattern

      len : length buf ≡ c
      len = omega (arith, length-take c o.pattern, s.length_pattern)

      order : (i n : ℕ) → (i < n) ⊎ ((i ≡ n) ⊎ (n < i))
      order i n = ground arith

  -- From the cluster `n` on.
  prep_from :
      (o : Setup) (f n m : ℕ) (d t : k.Disk)
      → IsSetup o
      → n + m ≡ o.clusters
      → m < f
      → Patterned o (n * o.clustersize) (contents d)
      → n * o.clustersize ≤ size d
      → (d' : k.Disk) × (t' : k.Disk) × (prep_file k f false
            (o.clusters * o.clustersize)
            o.clustersize
            o.pattern
            (n * o.clustersize)
            d
            t
          ≡ ok (d', t'))
        × Patterned o (o.clusters * o.clustersize) (contents d')
        × (o.clusters * o.clustersize ≤ size d')
  prep_from o zero n m d t s e h old big = absurd (omega arith)
  prep_from o (suc f) n zero d t s e h old big =
      let same : n * o.clustersize ≡ o.clusters * o.clustersize =
        ap (λ z. z * o.clustersize) (omega (arith, e)) in
      let past : ltb (n * o.clustersize) (o.clusters * o.clustersize) ≡ false =
        ground (arith, same) in
      (
        d,
        t,
        prep_end f (o.clusters * o.clustersize) o.clustersize (n * o.clustersize) o.pattern d t
            past,
        subst (λ z. Patterned o z (contents d)) same old,
        omega (arith, same, big),
      )
  prep_from o (suc f) n (suc m) d t s e h old big =
      let total = o.clusters * o.clustersize in
      let off = n * o.clustersize in
      let room : off + o.clustersize ≤ total =
        next_cluster n o.clusters o.clustersize (omega (arith, e)) in
      let chunk = take o.clustersize o.pattern in
      let (d1, e1, new, grown) = keeps.pwrite_keeps chunk off d in
      let (t1, e2, new', grown') = keeps.pwrite_keeps chunk off t in
      let len : length chunk ≡ o.clustersize =
        omega (arith, length-take o.clustersize o.pattern, s.length_pattern) in
      let after : off + o.clustersize ≡ suc n * o.clustersize = omega arith in
      let next : add64 off o.clustersize ≡ suc n * o.clustersize =
        omega (arith, after, room, s.fits) in
      let (d2, t2, e3, all, whole) =
        prep_from o f (suc n) m d1 t1 s (omega (arith, e)) (omega (arith, h))
          (subst (λ z. Patterned o z (contents d1)) after
            (Patterned-splice o n (contents d) (contents d1) s old new))
          (ground (arith, after, grown, len, s.some_byte)) in
      (
        d2,
        t2,
        prep_step f total o.clustersize off o.pattern d t d1 t1 (ground (arith, room, s.some_byte))
              (ground (arith, room, s.fits)) (wrote_some_lem chunk off (length chunk) d d1 e1)
              (wrote_some_lem chunk off (length chunk) t t1 e2)
            ∙ ap (λ z. prep_file k f false total o.clustersize o.pattern z d1 t1) next
            ∙ e3,
        all,
        whole,
      )

  -- `prep_file_with_pattern` ends after one round per cluster, and the file then is the pattern from
  -- cluster to cluster.
  pub prep_file_lem :
      (o : Setup) (f : ℕ) (d t : k.Disk)
      → IsSetup o
      → o.clusters < f
      → (d' : k.Disk) × (t' : k.Disk) × (prep_file k f false
            (o.clusters * o.clustersize)
            o.clustersize
            o.pattern
            0
            d
            t
          ≡ ok (d', t'))
        × Patterned o (o.clusters * o.clustersize) (contents d')
        × (o.clusters * o.clustersize ≤ size d')
  prep_file_lem o f d t s h =
      let start : 0 * o.clustersize ≡ 0 = omega arith in
      rw start at (
        prep_from o f 0 o.clusters d t s (omega arith) h (λ i j a b. absurd (omega (arith, b)))
          (omega arith))
