-- ===== src/Truncate/Check.antt =====
-- `verify_truncate` of verify_truncate.c: which files it accepts.
use native.Mathlib.Nat.{mul-le-mul_right}
use ocfs2_test.Common.{
  ℕ, zero, suc, ◌+◌, ◌-◌, ◌*◌, ◌≤◌, ◌<◌, ◌≡◌, ◌≢◌, ◌↔◌, ◌⊎◌, inl, inr, refl, ◌∙◌, sym, ap, subst,
  true, false, some, List, ◌++◌, append-nil, length, length-replicate, drop_all, replicate,
  same_bytes, same_bytes_refl, same_bytes_sound, Result, ok, failed, ◌>>=◌, arith, Bool-cases,
}
use ocfs2_test.Kernel.{Kernel, bytes, slice, Keeps}
use ocfs2_test.Kernel.Slices.{length-slice, slice_ext}
use ocfs2_test.Truncate.{
  Setup, read_into, check_cluster, check_clusters, check_last, verify_truncate,
}
use ocfs2_test.Truncate.Prep.{next_cluster}

failed_not_ok {ℓ} : {A : Type ℓ} {a : A} → failed ≢ ok a
failed_not_ok e = cc

module _ (k : Kernel) (contents : k.Disk → ℕ → ℕ) (size : k.Disk → ℕ)
    (keeps : Keeps k contents size) (o : Setup) where
  abbrev pub cluster : ℕ → k.Disk → List ℕ
  cluster i d = slice (contents d) (i * o.clustersize) o.clustersize

  -- Whether a result is the bytes of a cluster, or an error because they are not as expected.
  data Outcome (expected : List ℕ) (found : List ℕ) (r : Result (List ℕ)) : Type 0 where
    same : r ≡ ok found → found ≡ expected → Outcome expected found r
    other : r ≡ failed → found ≢ expected → Outcome expected found r

  read_whole :
      (buf : List ℕ) (i : ℕ) (d : k.Disk)
      → length buf ≡ o.clustersize
      → i * o.clustersize + o.clustersize ≤ size d
      → read_into k buf (k.pread o.clustersize (i * o.clustersize) d) ≡ ok (cluster i d)
  unfolding read_into
  read_whole buf i d len inside =
      ap (read_into k buf) (
        keeps.pread_keeps o.clustersize (i * o.clustersize) d
        ∙ ap (λ n. bytes (slice (contents d) (i * o.clustersize) n)) (omega arith))
      ∙ ap ok (
          ap (λ xs. cluster i d ++ xs)
            (drop_all (length (cluster i d)) buf
              (omega (arith, len, length-slice (contents d) (i * o.clustersize) o.clustersize)))
          ∙ append-nil (cluster i d))

  check_cluster_lem :
      (buf expected : List ℕ) (i : ℕ) (d : k.Disk)
      → length buf ≡ o.clustersize
      → i * o.clustersize + o.clustersize ≤ size d
      → Outcome expected (cluster i d) (check_cluster k o buf expected i d)
  unfolding check_cluster
  check_cluster_lem buf expected i d len inside =
      elim (Bool-cases (same_bytes (cluster i d) expected)) [
        | inl e ↦
            same (rw (read_whole buf i d len inside, e) refl)
              (same_bytes_sound (cluster i d) expected e)
        | inr e ↦ other (rw (read_whole buf i d len inside, e) refl) (λ same. absurd (
            true_not_false
              (sym (same_bytes_refl (cluster i d)) ∙ ap (same_bytes (cluster i d)) same ∙ e)))
      ]
    where
      true_not_false : true ≢ false
      true_not_false e = cc

  -- The result of the loop over `n` clusters from `i` on.
  data Loop (n i : ℕ) (d : k.Disk) (r : Result (List ℕ)) : Type 0 where
    all_same :
        (buf : List ℕ)
        → r ≡ ok buf
        → length buf ≡ o.clustersize
        → ((q : ℕ) → i ≤ q → q < i + n → cluster q d ≡ o.pattern)
        → Loop n i d r
    one_other : (q : ℕ) → r ≡ failed → i ≤ q → q < i + n → cluster q d ≢ o.pattern → Loop n i d r

  Loop-extend :
      (n i : ℕ) (d : k.Disk) (r : Result (List ℕ))
      → cluster i d ≡ o.pattern
      → Loop n (i + 1) d r
      → Loop (suc n) i d r
  Loop-extend n i d r first (all_same buf e len rest) = all_same buf e len (λ q a b.
      elim (first_or_later q a) [
        | inl e ↦ rw e first
        | inr later ↦ rest q later (omega (arith, b))
      ])
    where
      first_or_later : (q : ℕ) → i ≤ q → (q ≡ i) ⊎ (i + 1 ≤ q)
      first_or_later q a = ground (arith, a)
  Loop-extend n i d r first (one_other q e a b differs) =
      one_other q e (omega (arith, a)) (omega (arith, b)) differs

  Outcome-Loop :
      (n i : ℕ) (d : k.Disk) (r : Result (List ℕ)) (next : List ℕ → Result (List ℕ))
      → Outcome o.pattern (cluster i d) r
      → Loop n (i + 1) d (next (cluster i d))
      → Loop (suc n) i d (r >>= next)
  Outcome-Loop n i d r next (same e first) rest =
      rw e (Loop-extend n i d (next (cluster i d)) first rest)
  Outcome-Loop n i d r next (other e differs) rest =
      one_other i (rw e refl) (omega arith) (omega arith) differs

  check_clusters_lem :
      (n i : ℕ) (buf : List ℕ) (d : k.Disk)
      → length buf ≡ o.clustersize
      → (i + n) * o.clustersize ≤ size d
      → Loop n i d (check_clusters k o n i buf d)
  unfolding check_clusters
  check_clusters_lem zero i buf d len inside = all_same buf refl len (λ q a b. absurd (omega arith))
  check_clusters_lem (suc n) i buf d len inside =
      Outcome-Loop n i d (check_cluster k o buf o.pattern i d)
        (λ buf'. check_clusters k o n (i + 1) buf' d)
        (check_cluster_lem buf o.pattern i d len
          (omega (arith, inside, next_cluster i (i + suc n) o.clustersize (omega arith))))
        (check_clusters_lem n (i + 1) (cluster i d) d
          (length-slice (contents d) (i * o.clustersize) o.clustersize)
          (let e : i + suc n ≡ i + 1 + n = omega arith in rw e at inside))

  cluster-fsync : (i : ℕ) (d : k.Disk) → cluster i (k.fsync d) ≡ cluster i d
  cluster-fsync i d =
      slice_ext (contents (k.fsync d)) (contents d) (i * o.clustersize) o.clustersize
        (λ p a b. (keeps.fsync_keeps d).0 p)

  -- Both looks at the last cluster.
  last_step :
      (expected found : List ℕ) (r : Result (List ℕ)) (second : List ℕ → Result (List ℕ))
      → Outcome expected found r
      → Outcome expected found (second found)
      → (◌≡◌ {A = Result (Unit {0})} (r >>= λ buf. second buf >>= λ buf'. ok tt) (ok tt))
        ↔ (found ≡ expected)
  last_step expected found r second (same e f) (same e' f') = (λ h. f, λ h. rw (e, e') refl)
  last_step expected found r second (same e f) (other e' n) = absurd (n f)
  last_step expected found r second (other e n) y =
      (λ h. absurd (failed_not_ok (rw e at h)), λ h. absurd (n h))

  check_last_lem :
      (last_pattern : List ℕ) (last : ℕ) (buf : List ℕ) (d : k.Disk)
      → length buf ≡ o.clustersize
      → last * o.clustersize + o.clustersize ≤ size d
      → (check_last k o last_pattern last buf d ≡ ok tt) ↔ (cluster last d ≡ last_pattern)
  unfolding check_last
  check_last_lem last_pattern last buf d len inside =
      last_step last_pattern (cluster last d) (check_cluster k o buf last_pattern last d)
        (λ buf'. check_cluster k o buf' last_pattern last (k.fsync d))
        (check_cluster_lem buf last_pattern last d len inside)
        (subst
          (λ xs.
            Outcome last_pattern xs
              (check_cluster k o (cluster last d) last_pattern last (k.fsync d)))
          (cluster-fsync last d)
          (check_cluster_lem (cluster last d) last_pattern last (k.fsync d)
            (length-slice (contents d) (last * o.clustersize) o.clustersize)
            (omega (arith, inside, (keeps.fsync_keeps d).1))))

  clusters_then_last :
      (n : ℕ) (d : k.Disk) (r : Result (List ℕ)) (next : List ℕ → Result (Unit {0})) (P : Type 0)
      → Loop n 0 d r
      → ((buf : List ℕ) → length buf ≡ o.clustersize → (next buf ≡ ok tt) ↔ P)
      → ((r >>= next) ≡ ok tt) ↔ (((q : ℕ) → q < n → cluster q d ≡ o.pattern) × P)
  clusters_then_last n d r next P (all_same buf e len h) last = (
    λ ran. (λ q low. h q (omega arith) (omega (arith, low)), (last buf len).0 (rw e at ran)),
    λ both. rw e ((last buf len).1 both.1),
  )
  clusters_then_last n d r next P (one_other q e a b differs) last = (
    λ ran. absurd (failed_not_ok (rw e at ran)),
    λ both. absurd (differs (both.0 q (omega (arith, b)))),
  )

  -- `verify_truncate` accepts a file that reaches to the end of cluster `last` exactly when cluster
  -- `last` is the last pattern and the clusters before `last - 1` are the pattern. Cluster
  -- `last - 1` it does not look at.
  pub verify_truncate_iff :
      (last_pattern : List ℕ) (last : ℕ) (d : k.Disk)
      → last * o.clustersize + o.clustersize ≤ size d
      → (verify_truncate k o (record { last_pattern = last_pattern; last_cluster = some last }) d
          ≡ ok tt)
        ↔ (((q : ℕ)
              → q < last - 1
              → slice (contents d) (q * o.clustersize) o.clustersize ≡ o.pattern)
            × (slice (contents d) (last * o.clustersize) o.clustersize ≡ last_pattern))
  unfolding verify_truncate
  verify_truncate_iff last_pattern last d inside =
      clusters_then_last (last - 1) d
        (check_clusters k o (last - 1) 0 (replicate o.clustersize 0) d)
        (λ buf. check_last k o last_pattern last buf d) (cluster last d ≡ last_pattern)
        (check_clusters_lem (last - 1) 0 (replicate o.clustersize 0) d
          (length-replicate o.clustersize 0) (omega (arith, inside, before)))
        (λ buf len. check_last_lem last_pattern last buf d len inside)
    where
      before : (0 + (last - 1)) * o.clustersize ≤ last * o.clustersize
      before = mul-le-mul_right o.clustersize (omega arith)
