-- ===== src/Truncate/Tests.antt =====
-- Runs of verify_truncate, and the theorems about it at concrete inputs.
use ocfs2_test.Common.{
  ℕ, ◌+◌, ◌-◌, ◌*◌, ◌<◌, ◌≡◌, ◌↔◌, refl, some, [], ◌∷◌, ok, arith, if◌then◌else◌, ltb,
}
use ocfs2_test.Kernel.{slice}
use ocfs2_test.Kernel.Sized.{sized, sized-Keeps}
use ocfs2_test.Truncate.{
  Setup, get_rand_ull, last_of, prep_file, wrote_some, check_cluster, check_clusters, check_last,
  read_into, file_truncate, truncated, extend, verify_truncate, run,
}
use ocfs2_test.Truncate.Prep.{IsSetup}
use ocfs2_test.Truncate.Check.{verify_truncate_iff}
use ocfs2_test.Truncate.Run.{run_accepts}

abbrev small : Setup
small = record { clustersize = 4; clusters = 5; pattern = 65 ∷ 66 ∷ 67 ∷ 68 ∷ [] }

small-IsSetup : IsSetup small
small-IsSetup = record {
  some_byte = omega arith;
  fits = omega arith;
  cluster_fits = omega arith;
  length_pattern = refl;
}

abbrev nothing : ℕ × (ℕ → ℕ)
nothing = (0, λ p. 0)

run_ends : run sized 6 small (λ i. 7) 0 nothing nothing ≡ ok tt
unfolding run get_rand_ull last_of prep_file wrote_some check_cluster check_clusters check_last
    read_into file_truncate truncated extend verify_truncate slice
run_ends = refl

run_accepts_example : run sized 6 small (λ i. 3 * i + 1) 0 nothing nothing ≡ ok tt
run_accepts_example =
    run_accepts sized (λ d. d.1) (λ d. d.0) sized-Keeps small small-IsSetup 6 (λ i. 3 * i + 1) 0
      nothing nothing (omega arith)

-- The file of 12 bytes whose cluster 1 is damaged.
abbrev damaged : ℕ × (ℕ → ℕ)
damaged = (12, λ p. if ltb p 4 then 65 + p else if ltb p 8 then 0 else 65 + (p - 8))

-- It is accepted.
damaged_accepted :
    verify_truncate sized small
      (record { last_pattern = 65 ∷ 66 ∷ 67 ∷ 68 ∷ []; last_cluster = some 2 })
      damaged
    ≡ ok tt
unfolding check_cluster check_clusters check_last read_into verify_truncate slice
damaged_accepted = refl

verify_truncate_iff_example :
    (verify_truncate sized small
        (record { last_pattern = 65 ∷ 66 ∷ 67 ∷ 68 ∷ []; last_cluster = some 2 })
        damaged
      ≡ ok tt)
    ↔ (((q : ℕ) → q < 1 → slice damaged.1 (q * 4) 4 ≡ 65 ∷ 66 ∷ 67 ∷ 68 ∷ [])
        × (slice damaged.1 8 4 ≡ 65 ∷ 66 ∷ 67 ∷ 68 ∷ []))
verify_truncate_iff_example =
    verify_truncate_iff sized (λ d. d.1) (λ d. d.0) sized-Keeps small (65 ∷ 66 ∷ 67 ∷ 68 ∷ []) 2
      damaged (omega arith)
