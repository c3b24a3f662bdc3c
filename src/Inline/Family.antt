-- ===== src/Inline/Family.antt =====
-- The tests of several processes of inline-data.c: every order of their writes keeps the file in
-- agreement with the pattern.
use ocfs2_test.Common.{
  ℕ, ◌+◌, ◌-◌, ◌≤◌, ◌≡◌, ◌≢◌, refl, sym, ap, subst, ◌∙◌, true, false, leb, max, ◌==◌, arith, Result,
  ok, failed, aborted, out_of_fuel, Bool-cases, inl, inr,
}
use ocfs2_test.Kernel.{Kernel}
use ocfs2_test.Inline.{Sizes, State, verify_pattern_fd}
use ocfs2_test.Inline.Inode.{Volume, File, Inlines}
use ocfs2_test.Inline.Agrees.{Same, Ends}
use ocfs2_test.Inline.Verify.{verify_pattern_fd_iff}
use ocfs2_test.Inline.Changes.{Ends-write_at, write_at-pattern}
use ocfs2_test.Inline.Rounds.{IsSizes, drawing-bounds, drawing-le, drawing-Good, drawing-pattern}
use ocfs2_test.Inline.Passes.{Full}
use ocfs2_test.Inline.Regular.{drawing}
use ocfs2_test.Inline.Children.{
  rewrite_somewhere, Place, at_head, has_rewritten, exited, exited_1, Family, seen_by,
  seen_by_father, child_at, FamilyStep, child_writes, child_write_fails, child_verifies,
  child_verify_fails, child_exits, father_verifies, father_verify_fails, father_ends, Reached,
  at_fork, after,
}

-- The value of a result, and of two equal ones.
value_or {ℓ} : {A : Type ℓ} → A → Result A → A
value_or d (ok a) = a
value_or d failed = d
value_or d aborted = d
value_or d out_of_fuel = d

ok_inj {ℓ} : {A : Type ℓ} {a b : A} → ok a ≡ ok b → a ≡ b
unfolding value_or
ok_inj {a = a} e = ap (value_or a) e

failed_not_ok {ℓ} : {A : Type ℓ} {a : A} → failed ≢ ok a
failed_not_ok e = cc

module _ (k : Kernel) (v : Volume k) (o : Sizes) (stream : ℕ → ℕ) (view : k.Disk → File)
    (inlines : Inlines k v o.max_inline_size view) (sizes : IsSizes o) where
  open o use {max_inline_size}

  abbrev pub Whole : State k → Type 0
  Whole = Full k v o stream view inlines sizes

  -- A random write stays inside the file and keeps the pattern.
  pub Ends-rewrite_somewhere :
      (s : State k)
      → Whole s
      → Ends (λ t. Whole t × (t.pattern ≡ s.pattern)) (rewrite_somewhere k v o stream s)
  unfolding rewrite_somewhere
  Ends-rewrite_somewhere s h =
      let (off, s1) = drawing k v o stream 0 (max_inline_size - 1) s in
      let (count, s2) = drawing k v o stream 1 (max_inline_size - off) s1 in
      let in_file : off ≤ max_inline_size - 1 =
        drawing-le k v o stream view inlines sizes (max_inline_size - 1) s
          (omega (arith, sizes.in_pattern)) in
      let (low, high) =
        drawing-bounds k v o stream view inlines sizes (max_inline_size - off) s1
          (omega (arith, in_file, sizes.some_inline)) (omega (arith, sizes.in_pattern)) in
      let e : max max_inline_size (off + count) ≡ max_inline_size = omega (arith, in_file, high) in
      let e' : leb (off + count) max_inline_size ≡ true =
        ground (arith, in_file, high, sizes.some_inline) in
      let h2 =
        drawing-Good k v o stream view inlines sizes 1 (max_inline_size - off) max_inline_size true
          s1
          (drawing-Good k v o stream view inlines sizes 0 (max_inline_size - 1) max_inline_size true
            s h) in
      let (t, r, good) =
        rw (e, e') at
          (Ends-write_at k v o max_inline_size view inlines count off max_inline_size true false s2
            (omega (arith, in_file)) h2) in
      let (t', r', same) = write_at-pattern k v o max_inline_size view inlines count off s2 in
      (
        t,
        r,
        (
          good,
          ap (λ u. u.pattern) (ok_inj (sym r ∙ r'))
              ∙ same
              ∙ drawing-pattern k v o stream view inlines sizes 1 (max_inline_size - off) s1
              ∙ drawing-pattern k v o stream view inlines sizes 0 (max_inline_size - 1) s,
        ),
      )

  -- The file agrees with the pattern, and no process has ended with an error.
  record Sound (pattern : ℕ → ℕ) (s : Family k) : Type 0 where
    agrees : Same pattern max_inline_size true false (view s.disk)
    children_pass : (i : ℕ) → s.place i ≢ exited_1
    father_passes : s.father ≢ exited_1

  -- A test of the file that all share.
  test_passes :
      (pattern : ℕ → ℕ) (t : State k)
      → Same pattern max_inline_size true false (view t.disk)
      → t.pattern ≡ pattern
      → verify_pattern_fd k v o false max_inline_size t ≡ ok t
  test_passes pattern t h e =
      (verify_pattern_fd_iff k v o max_inline_size view inlines max_inline_size t).1
        (omega (arith, h.size_is), λ p low. h.same p low ∙ ap (λ f. f p) (sym e))

  child_at-Sound :
      (child_nums : ℕ) (pattern : ℕ → ℕ) (s : Family k) (i n : ℕ) (p : Place) (t : State k)
      → Sound pattern s
      → p ≢ exited_1
      → Same pattern max_inline_size true false (view t.disk)
      → Sound pattern (child_at k v o stream child_nums pattern s i p n t)
  child_at-Sound child_nums pattern s i n p t sound fine h = record {
    agrees = h;
    children_pass = λ j e. elim (Bool-cases (j == i)) [
      | inl y ↦ fine (rw y at e)
      | inr y ↦ sound.children_pass j (rw y at e)
    ];
    father_passes = sound.father_passes;
  }

  FamilyStep-Sound :
      (child_nums : ℕ) (pattern : ℕ → ℕ) (s s' : Family k)
      → Sound pattern s
      → FamilyStep k v o stream child_nums pattern s s'
      → Sound pattern s'
  FamilyStep-Sound m pattern s s' sound (child_writes i t here round e) =
      let (t', r, (whole, same)) =
        Ends-rewrite_somewhere (seen_by k v o stream m pattern s i) sound.agrees in
      let equal : t' ≡ t = ok_inj (sym r ∙ e) in
      child_at-Sound m pattern s i (s.rounds i) has_rewritten t sound (λ x. cc)
        (subst (λ u. Same pattern max_inline_size true false (view u.disk)) equal
          (subst (λ f. Same f max_inline_size true false (view t'.disk)) same whole))
  FamilyStep-Sound m pattern s s' sound (child_write_fails i here round e) =
      let (t', r, both) =
        Ends-rewrite_somewhere (seen_by k v o stream m pattern s i) sound.agrees in
      absurd (failed_not_ok (sym e ∙ r))
  FamilyStep-Sound m pattern s s' sound (child_verifies i t here e) =
      let seen = seen_by k v o stream m pattern s i in
      let equal : seen ≡ t = ok_inj (sym (test_passes pattern seen sound.agrees refl) ∙ e) in
      child_at-Sound m pattern s i (s.rounds i + 1) at_head t sound (λ x. cc)
        (subst (λ u. Same pattern max_inline_size true false (view u.disk)) equal sound.agrees)
  FamilyStep-Sound m pattern s s' sound (child_verify_fails i here e) =
      let seen = seen_by k v o stream m pattern s i in
      absurd (failed_not_ok (sym e ∙ test_passes pattern seen sound.agrees refl))
  FamilyStep-Sound m pattern s s' sound (child_exits i here past) =
      child_at-Sound m pattern s i (s.rounds i) exited (seen_by k v o stream m pattern s i) sound
        (λ x. cc) sound.agrees
  FamilyStep-Sound m pattern s s' sound (father_verifies t here round e) = record {
    agrees = sound.agrees;
    children_pass = sound.children_pass;
    father_passes = λ x. cc;
  }
  FamilyStep-Sound m pattern s s' sound (father_verify_fails here round e) =
      let seen = seen_by_father k v o stream m pattern s in
      absurd (failed_not_ok (sym e ∙ test_passes pattern seen sound.agrees refl))
  FamilyStep-Sound m pattern s s' sound (father_ends here past) = record {
    agrees = sound.agrees;
    children_pass = sound.children_pass;
    father_passes = λ x. cc;
  }

  Reached-Sound :
      (child_nums : ℕ) (t : State k) {s : Family k}
      → Whole t
      → Reached k v o stream child_nums t.pattern t s
      → Sound t.pattern s
  Reached-Sound m t h at_fork = record {
    agrees = h;
    children_pass = λ i e. cc;
    father_passes = λ e. cc;
  }
  Reached-Sound m t {s} h (after r step) =
      FamilyStep-Sound m t.pattern _ s (Reached-Sound m t h r) step

  -- On a volume that keeps small files in their inodes, start from a file that has all
  -- `max_inline_size` bytes of the pattern, as `prep_file` leaves it. In whatever order the children
  -- of `concurrent_rw_test` write and all processes verify, one call at a time, the file has the size
  -- and the bytes of the pattern and its data stay in the inode; no child exits with status 1, and
  -- the father does not return -1.
  pub no_process_fails :
      (child_nums : ℕ) (t : State k) {s : Family k}
      → Full k v o stream view inlines sizes t
      → Reached k v o stream child_nums t.pattern t s
      → (Same t.pattern max_inline_size true false (view s.disk))
        × ((i : ℕ) → s.place i ≢ exited_1)
        × (s.father ≢ exited_1)
  no_process_fails child_nums t h r =
      let sound = Reached-Sound child_nums t h r in
      (sound.agrees, sound.children_pass, sound.father_passes)
