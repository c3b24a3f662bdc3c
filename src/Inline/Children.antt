-- ===== src/Inline/Children.antt =====
-- programs/inline-data/inline-data.c: the tests of several processes on one file and of several
-- files, `concurrent_rw_test` and `multi_file_rw_test`.
use ocfs2_test.Common.{
  ℕ, zero, suc, ◌+◌, ◌-◌, ◌≤◌, ◌<◌, ◌≡◌, true, false, ◌==◌, if◌then◌else◌, Result, ok, failed,
  ◌>>=◌,
}
use ocfs2_test.Kernel.{Kernel}
use ocfs2_test.Inline.Inode.{Volume}
use ocfs2_test.Inline.{Sizes, State, write_at, prep_file, verify_pattern_fd}
use ocfs2_test.Inline.Regular.{drawing, check_inlined}

module _ (k : Kernel) (v : Volume k) (o : Sizes) (stream : ℕ → ℕ) where
  open o use {max_inline_size}

  -- The random write of a child.
  unfoldable pub rewrite_somewhere : State k → Result (State k)
  rewrite_somewhere s =
      let (rand_offset, s1) = drawing k v o stream 0 (max_inline_size - 1) s in
      let (rand_count, s2) = drawing k v o stream 1 (max_inline_size - rand_offset) s1 in
      write_at k v o rand_count rand_offset s2

  -- A child of `multi_file_rw_test`, which has a file of its own: its loop with `n` rounds left, and
  -- the whole. The result of `fsync` is not looked at.
  unfoldable pub own_file_loop : ℕ → State k → Result (State k)
  own_file_loop zero s = ok s
  own_file_loop (suc n) s = rewrite_somewhere s >>= λ s1.
      verify_pattern_fd k v o false max_inline_size s1 >>= λ s2.
      check_inlined k v o stream true
        (record { pattern = s2.pattern; disk = (v.fsync s2.disk).1; drawn = s2.drawn })
      >>= λ s3. own_file_loop n s3

  unfoldable pub own_file : ℕ → State k → Result (State k)
  own_file file_nums s =
      prep_file k v o stream max_inline_size s >>= λ s1. own_file_loop file_nums s1

-- A process of `concurrent_rw_test`: at the head of its loop, behind its write, at its end, and the
-- end with status 1, for the father -1.
pub data Place : Type 0 where
  at_head : Place
  has_rewritten : Place
  exited : Place
  exited_1 : Place

-- The children and the father: each has its place, its rounds so far and its calls of `rand()`. They
-- share the file; the pattern is the same in all.
pub record Family (k : Kernel) : Type 0 where
  pub disk : k.Disk
  pub place : ℕ → Place
  pub father : Place
  pub rounds : ℕ → ℕ
  pub father_rounds : ℕ
  pub drawn : ℕ → ℕ

abbrev pub at_index {ℓ} : {A : Type ℓ} → (ℕ → A) → ℕ → A → ℕ → A
at_index f i a j = if j == i then a else f j

module _ (k : Kernel) (v : Volume k) (o : Sizes) (stream : ℕ → ℕ) (child_nums : ℕ)
    (pattern : ℕ → ℕ) where
  -- What process `i` works on.
  abbrev pub seen_by : Family k → ℕ → State k
  seen_by s i = record { pattern = pattern; disk = s.disk; drawn = s.drawn i }

  abbrev pub seen_by_father : Family k → State k
  seen_by_father s = record { pattern = pattern; disk = s.disk; drawn = 0 }

  -- A child after a step: its place, rounds and calls of `rand()`, and the file.
  abbrev pub child_at : Family k → ℕ → Place → ℕ → State k → Family k
  child_at s i p n t = record {
    disk = t.disk;
    place = at_index s.place i p;
    father = s.father;
    rounds = at_index s.rounds i n;
    father_rounds = s.father_rounds;
    drawn = at_index s.drawn i t.drawn;
  }

  abbrev pub father_at : Family k → Place → ℕ → Family k
  father_at s p n = record {
    disk = s.disk;
    place = s.place;
    father = p;
    rounds = s.rounds;
    father_rounds = n;
    drawn = s.drawn;
  }

  -- One step of one process; the calls of the system do not overlap.
  pub data FamilyStep (s : Family k) : Family k → Type 0 where
    child_writes :
        (i : ℕ) (t : State k)
        → s.place i ≡ at_head
        → s.rounds i < child_nums
        → rewrite_somewhere k v o stream (seen_by s i) ≡ ok t
        → FamilyStep s (child_at s i has_rewritten (s.rounds i) t)
    child_write_fails :
        (i : ℕ)
        → s.place i ≡ at_head
        → s.rounds i < child_nums
        → rewrite_somewhere k v o stream (seen_by s i) ≡ failed
        → FamilyStep s (child_at s i exited_1 (s.rounds i) (seen_by s i))
    child_verifies :
        (i : ℕ) (t : State k)
        → s.place i ≡ has_rewritten
        → verify_pattern_fd k v o false o.max_inline_size (seen_by s i) ≡ ok t
        → FamilyStep s (child_at s i at_head (s.rounds i + 1) t)
    child_verify_fails :
        (i : ℕ)
        → s.place i ≡ has_rewritten
        → verify_pattern_fd k v o false o.max_inline_size (seen_by s i) ≡ failed
        → FamilyStep s (child_at s i exited_1 (s.rounds i) (seen_by s i))
    child_exits :
        (i : ℕ)
        → s.place i ≡ at_head
        → child_nums ≤ s.rounds i
        → FamilyStep s (child_at s i exited (s.rounds i) (seen_by s i))
    father_verifies :
        (t : State k)
        → s.father ≡ at_head
        → s.father_rounds < child_nums
        → verify_pattern_fd k v o false o.max_inline_size (seen_by_father s) ≡ ok t
        → FamilyStep s (father_at s at_head (s.father_rounds + 1))
    father_verify_fails :
        s.father ≡ at_head
        → s.father_rounds < child_nums
        → verify_pattern_fd k v o false o.max_inline_size (seen_by_father s) ≡ failed
        → FamilyStep s (father_at s exited_1 s.father_rounds)
    father_ends :
        s.father ≡ at_head
        → child_nums ≤ s.father_rounds
        → FamilyStep s (father_at s exited s.father_rounds)

  -- The children when they are forked, with the random numbers of the father.
  abbrev pub forked : State k → Family k
  forked t = record {
    disk = t.disk;
    place = λ i. at_head;
    father = at_head;
    rounds = λ i. 0;
    father_rounds = 0;
    drawn = λ i. t.drawn;
  }

  pub data Reached (t : State k) : Family k → Type 0 where
    at_fork : Reached t (forked t)
    after : {s s' : Family k} → Reached t s → FamilyStep s s' → Reached t s'
