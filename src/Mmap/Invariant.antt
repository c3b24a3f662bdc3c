-- ===== src/Mmap/Invariant.antt =====
-- The invariant of multi_mmap: all ranks are in one round, or just behind the barrier of the one
-- before.
use native.Mathlib.Nat.{mul-le-mul_right}
use ocfs2_test.Common.{
  ℕ, ◌+◌, ◌*◌, ◌%◌, ◌^◌, ◌≤◌, ◌<◌, ◌≡◌, ◌≢◌, ◌⊎◌, inl, inr, subst, ◌∙◌, Bool, true, false, ltb,
  length, length-replicate, arith, suc, Bool-cases,
}
use ocfs2_test.Kernel.{slice}
use ocfs2_test.Kernel.Slices.{slice-splice, slice-splice_apart}
use ocfs2_test.Mmap.{
  Job, Turn, next_turn, expected_pattern, offset, write_block, read_block, Pc, head, written,
  in_barrier, passed, gone, failed, writes, System,
}

-- There are two ranks at least, and the offsets are in bounds.
pub record IsJob (o : Job) : Type 0 where
  pub two_ranks : 2 ≤ o.num_procs
  pub offsets_fit : o.num_procs * o.blocksize < 2 ^ 32

-- The block of a turn is what its readers expect.
abbrev pub Holds : Job → Turn → (ℕ → ℕ) → Type 0
Holds o t file = read_block o t file ≡ expected_pattern o t

-- The turn of a rank, when those of this round and of the round before are given.
abbrev pub Sits : Turn → Turn → Pc → Turn → Type 0
Sits cur prev passed t = t ≡ prev
Sits cur prev failed t = ⊥
Sits cur prev head t = t ≡ cur
Sits cur prev written t = t ≡ cur
Sits cur prev in_barrier t = t ≡ cur
Sits cur prev gone t = t ≡ cur

abbrev pub has_written : Pc → Bool
has_written written = true
has_written in_barrier = true
has_written _ = false

-- What a rank behind the barrier may rely on.
pub record Old (o : Job) (cur prev : Turn) (file : ℕ → ℕ) : Type 0 where
  pub in_order : next_turn o prev ≡ cur
  pub old_range : prev.block < o.num_procs
  pub apart : prev.block ≢ cur.block
  pub old_holds : Holds o prev file

pub record Inv (o : Job) (s : System) : Type 0 where
  pub cur : Turn
  pub prev : Turn
  pub in_range : cur.block < o.num_procs
  pub old : (j : ℕ) → j < o.num_procs → s.pc j ≡ passed → Old o cur prev s.file
  pub new :
      (j : ℕ)
      → j < o.num_procs
      → has_written (s.pc j) ≡ true
      → writes o cur j ≡ true
      → Holds o cur s.file
  pub seats : (j : ℕ) → j < o.num_procs → Sits cur prev (s.pc j) (s.turn j)

module _ (o : Job) (job : IsJob o) where
  offset_lem : (t : Turn) → t.block < o.num_procs → offset o t ≡ t.block * o.blocksize
  offset_lem t h = omega (
    arith,
    job.offsets_fit,
    mul-le-mul_right {m = t.block} {n = o.num_procs} o.blocksize (omega (arith, h)),
  )

  length-expected_pattern : (t : Turn) → length (expected_pattern o t) ≡ o.blocksize
  length-expected_pattern t = length-replicate {A = ℕ} o.blocksize ((t.startchar + t.block) % 2 ^ 8)

  -- A write is read back, and leaves the other blocks.
  pub Holds-write_block : (t : Turn) (file : ℕ → ℕ) → Holds o t (write_block o t file)
  Holds-write_block t file =
      subst (λ n. slice (write_block o t file) (offset o t) n ≡ expected_pattern o t)
        (length-expected_pattern t) (slice-splice file (offset o t) (expected_pattern o t))

  pub Holds-write_other :
      (t u : Turn) (file : ℕ → ℕ)
      → t.block < o.num_procs
      → u.block < o.num_procs
      → t.block ≢ u.block
      → Holds o t file
      → Holds o t (write_block o u file)
  Holds-write_other t u file ht hu ne h =
      slice-splice_apart file (offset o u) (expected_pattern o u) (offset o t) o.blocksize
        (disjoint order)
      ∙ h
    where
      order : (suc t.block ≤ u.block) ⊎ (suc u.block ≤ t.block)
      order = ground (arith, ne)

      disjoint :
          (suc t.block ≤ u.block) ⊎ (suc u.block ≤ t.block)
          → (offset o t + o.blocksize ≤ offset o u)
            ⊎ (offset o u + length (expected_pattern o u) ≤ offset o t)
      disjoint (inl lower) = inl (
          omega (
            arith,
            offset_lem t ht,
            offset_lem u hu,
            mul-le-mul_right {m = suc t.block} {n = u.block} o.blocksize lower,
          ))
      disjoint (inr higher) = inr (
          omega (
            arith,
            offset_lem t ht,
            offset_lem u hu,
            length-expected_pattern u,
            mul-le-mul_right {m = suc u.block} {n = t.block} o.blocksize higher,
          ))

  pub next_turn-block :
      (t : Turn)
      → t.block < o.num_procs
      → ((next_turn o t).block < o.num_procs) × (t.block ≢ (next_turn o t).block)
  next_turn-block t h = elim (Bool-cases (ltb (t.block + 1) o.num_procs)) [
    | inl e ↦ rw e (ground (arith, e), λ same. absurd (omega (arith, same)))
    | inr e ↦
        rw e (omega (arith, job.two_ranks), λ same. absurd (ground (arith, e, same, job.two_ranks)))
  ]
