-- ===== src/Inline/Verify.antt =====
-- `verify_pattern` of inline-data-utils.c and what is built on it: which files are accepted.
use ocfs2_test.Common.{
  ℕ, zero, suc, ◌+◌, ◌-◌, ◌≤◌, ◌<◌, ◌≡◌, ◌≢◌, ◌↔◌, ◌⊎◌, inl, inr, refl, sym, ap, subst, ◌∙◌, Bool,
  true, false, some, ltb, ◌==◌, get_or, length, min, arith, ok, failed, Bool-cases,
}
use ocfs2_test.Kernel.{Kernel, bytes, slice}
use ocfs2_test.Kernel.Slices.{length-slice, get_or-slice}
use ocfs2_test.Inline.{
  Sizes, State, mapping_size, verify_pattern, verify_read, verify_pattern_fd, verify_pattern_mmap,
  is_file_inlined, should_inlined_or_not,
}
use ocfs2_test.Inline.Inode.{Volume, File, Inlines, work_place, dirent}
use ocfs2_test.Inline.Regular.{check_inlined}
use ocfs2_test.Inline.Agrees.{Same, Ends, Ends-bind}

failed_not_ok {ℓ} : {A : Type ℓ} {a : A} → failed ≢ ok a
failed_not_ok e = cc

verify_pattern_sound :
    (n i : ℕ) (buf pattern : ℕ → ℕ)
    → verify_pattern n i buf pattern ≡ true
    → (p : ℕ) → i ≤ p
    → p < i + n
    → buf p ≡ pattern p
unfolding verify_pattern
verify_pattern_sound zero i buf pattern h p a b = absurd (omega arith)
verify_pattern_sound (suc n) i buf pattern h p a b = elim first [
  | inl e ↦ rw e (ground (arith, h))
  | inr later ↦
      verify_pattern_sound n (i + 1) buf pattern (ground (arith, h)) p later (omega (arith, b))
]
  where
    first : (p ≡ i) ⊎ (i + 1 ≤ p)
    first = ground (arith, a)

verify_pattern_complete :
    (n i : ℕ) (buf pattern : ℕ → ℕ)
    → ((p : ℕ) → i ≤ p → p < i + n → buf p ≡ pattern p)
    → verify_pattern n i buf pattern ≡ true
unfolding verify_pattern
verify_pattern_complete zero i buf pattern h = refl
verify_pattern_complete (suc n) i buf pattern h = ground (
  arith,
  h i (omega arith) (omega arith),
  verify_pattern_complete n (i + 1) buf pattern
      (λ p a b. h p (omega (arith, a)) (omega (arith, b))),
)

pub mapping_size_lem :
    (f page size m : ℕ)
    → 0 < page
    → 0 < f
    → size < m + f
    → Ends (λ r. size ≤ r) (mapping_size f page size m)
unfolding mapping_size
mapping_size_lem zero page size m h fuel low = absurd (omega (arith, fuel))
mapping_size_lem (suc f) page size m h fuel low = elim (Bool-cases (ltb m size)) [
  | inl e ↦
      rw e
        (mapping_size_lem f page size (m + page) h (ground (arith, e, low)) (omega (arith, h, low)))
  | inr e ↦ rw e (m, refl, ground (arith, e))
]

module _ (k : Kernel) (v : Volume k) (o : Sizes) (limit : ℕ) (view : k.Disk → File)
    (inlines : Inlines k v limit view) where
  abbrev pub Agrees : ℕ → Bool → Bool → State k → Type 0
  Agrees n b t s = Same s.pattern n b t (view s.disk)

  -- What a read of `m` bytes from the start of the file comes to.
  verify_read_iff :
      (size m : ℕ) (s : State k) (file : ℕ → ℕ)
      → (verify_read k v o size s (bytes (slice file 0 m)) ≡ ok s)
        ↔ ((m ≡ size) × ((p : ℕ) → p < size → file p ≡ s.pattern p))
  unfolding verify_read
  verify_read_iff size m s file = elim (Bool-cases (length (slice file 0 m) == size)) [
    | inl e ↦
        (let whole : m ≡ size = ground (arith, e, length-slice file 0 m) in
          elim (Bool-cases (verify_pattern size 0 (λ i. get_or (slice file 0 m) i 0) s.pattern)) [
            | inl e' ↦ (
              λ ran. (
                whole,
                λ p low.
                    sym (at_start p (omega (arith, low, whole)))
                    ∙ verify_pattern_sound size 0 (λ i. get_or (slice file 0 m) i 0) s.pattern e' p
                        (omega arith) (omega (arith, low)),
              ),
              λ both. rw (e, e') refl,
            )
            | inr e' ↦ (
              λ ran. absurd (failed_not_ok (rw (e, e') at ran)),
              λ both. absurd (
                  true_not_false (
                    sym (
                      verify_pattern_complete size 0 (λ i. get_or (slice file 0 m) i 0) s.pattern
                        (λ p a b.
                          at_start p (omega (arith, b, whole)) ∙ both.1 p (omega (arith, b))))
                    ∙ e')),
            )
          ])
    | inr e ↦ (
      λ ran. absurd (failed_not_ok (rw e at ran)),
      λ both. absurd (ground (arith, e, both.0, length-slice file 0 m)),
    )
  ]
    where
      at_start : (p : ℕ) → p < m → get_or (slice file 0 m) p 0 ≡ file p
      at_start p low = get_or-slice file 0 m p low ∙ (let e : 0 + p ≡ p = omega arith in ap file e)

      true_not_false : true ≢ false
      true_not_false e = cc

  -- `verify_pattern_fd` accepts exactly the files that are long enough and begin with the pattern, on
  -- a volume whose `pread` gives all bytes that there are.
  pub verify_pattern_fd_iff :
      (size : ℕ) (s : State k)
      → (verify_pattern_fd k v o false size s ≡ ok s) ↔ (
          (size ≤ (view s.disk).size)
          × ((p : ℕ) → p < size → (view s.disk).content p ≡ s.pattern p))
  unfolding verify_pattern_fd
  verify_pattern_fd_iff size s =
      let both = verify_read_iff size (min size ((view s.disk).size - 0)) s (view s.disk).content in
      rw (inlines.pread_inlines size 0 s.disk) (
        λ ran. (omega (arith, (both.0 ran).0), (both.0 ran).1),
        λ h. both.1 (omega (arith, h.0), h.1),
      )

  pub Ends-verify_pattern_fd :
      (n : ℕ) (b t : Bool) (s : State k)
      → Agrees n b t s
      → Ends (Agrees n b t) (verify_pattern_fd k v o false n s)
  Ends-verify_pattern_fd n b t s h =
      (s, (verify_pattern_fd_iff n s).1 (omega (arith, h.size_is), h.same), h)

  pub Ends-verify_direct :
      (n : ℕ) (b t : Bool) (s : State k)
      → n ≤ o.blocksize
      → Agrees n b t s
      → Ends (Agrees n b t) (verify_pattern_fd k v o true n s)
  unfolding verify_pattern_fd
  Ends-verify_direct n b t s le h = (
    s,
    rw (inlines.pread_inlines o.blocksize 0 s.disk) (
        (verify_read_iff n (min o.blocksize ((view s.disk).size - 0)) s (view s.disk).content).1
          (omega (arith, h.size_is, le), h.same)),
    h,
  )

  -- `verify_pattern_mmap` accepts every file, whatever the pattern is, as the result of the comparison
  -- is not used; the loop that rounds up to whole pages ends. The volume is one whose `mmap` succeeds,
  -- and a page has a byte at least.
  pub verify_pattern_mmap_accepts :
      (size : ℕ) (s : State k) → 0 < o.page_size → verify_pattern_mmap k v o size s ≡ ok s
  unfolding verify_pattern_mmap
  verify_pattern_mmap_accepts size s page =
      let (m, e, big) =
        mapping_size_lem (suc size) o.page_size size o.page_size page (omega arith) (omega arith) in
      rw (e, inlines.mmap_inlines m s.disk) refl

  is_file_inlined_lem :
      (dir ino : ℕ) (b : Bool) (s : State k)
      → v.lookup v.root_blkno work_place (v.sync s.disk) ≡ some dir
      → v.lookup dir dirent (v.sync s.disk) ≡ some ino
      → v.read_inode ino (v.sync s.disk) ≡ some b
      → is_file_inlined k v o s
        ≡ ok (b, record { pattern = s.pattern; disk = v.sync s.disk; drawn = s.drawn })
  unfolding is_file_inlined
  is_file_inlined_lem dir ino b s e e' e'' = rw (is_file_inlined, e, e', e'') refl

  should_inlined_or_not_same : (b : Bool) (s : State k) → should_inlined_or_not k v o b b s ≡ ok s
  unfolding should_inlined_or_not
  should_inlined_or_not_same true s = refl
  should_inlined_or_not_same false s = refl

  -- `is_file_inlined` on the file that there is.
  is_file_inlined-Agrees :
      (n : ℕ) (b t : Bool) (s : State k)
      → Agrees n b t s
      → Ends (λ r. (r.0 ≡ b) × Agrees n b t r.1) (is_file_inlined k v o s)
  is_file_inlined-Agrees n b t s h =
      let d = v.sync s.disk in
      let s1 : State k = record { pattern = s.pattern; disk = d; drawn = s.drawn } in
      let (dir, found) = inlines.lookup_inlines v.root_blkno work_place d in
      let (ino, found') = inlines.lookup_inlines dir dirent d in
      let same : Same s.pattern n b t (view d) =
        subst (Same s.pattern n b t) (sym (inlines.sync_inlines s.disk)) h in
      (
        (b, s1),
        is_file_inlined_lem dir ino b s found found'
            (inlines.read_inode_inlines ino d ∙ ap some same.inlined_is),
        (refl, same),
      )

  pub Ends-check_inlined :
      (stream : ℕ → ℕ) (n : ℕ) (b t : Bool) (s : State k)
      → Agrees n b t s
      → Ends (Agrees n b t) (check_inlined k v o stream b s)
  unfolding check_inlined
  Ends-check_inlined stream n b t s h =
      Ends-bind (is_file_inlined-Agrees n b t s h)
        (λ (c, s1) both. (s1, rw both.0 (should_inlined_or_not_same b s1), both.1))

  pub check_inlined_failed :
      (stream : ℕ → ℕ) (n : ℕ) (t : Bool) (s : State k)
      → Agrees n true t s
      → check_inlined k v o stream false s ≡ failed
  unfolding check_inlined should_inlined_or_not
  check_inlined_failed stream n t s h =
      let ((c, s1), e, both) = is_file_inlined-Agrees n true t s h in rw (e, both.0) refl
