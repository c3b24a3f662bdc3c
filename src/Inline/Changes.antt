-- ===== src/Inline/Changes.antt =====
-- The operations of inline-data-utils.c that change the file: each keeps it in agreement with the
-- pattern.
use ocfs2_test.Common.{
  ℕ, suc, ◌+◌, ◌-◌, ◌^◌, ◌≤◌, ◌<◌, ◌≡◌, refl, sym, ap, subst, ◌∙◌, Bool, true, false, ◌&&◌, not,
  leb, ltb, ◌==◌, if◌then◌else◌, length, max, arith, Result, ok, ◌>>=◌, Bool-cases, inl, inr, sub64,
}
use ocfs2_test.Kernel.{Kernel, wrote, slice}
use ocfs2_test.Kernel.Slices.{length-slice}
use ocfs2_test.Inline.{
  Sizes, State, clear, fill_pattern, succeeds, truncate_pattern, extend_pattern, replied,
  try_reserve, try_punch_hole, wrote_all, write_at, mmap_write_at, prep_file_no_fill, prep_file,
}
use ocfs2_test.Inline.Inode.{Volume, File, Inlines, Reserves, Succeeds, created, resized}
use ocfs2_test.Inline.Agrees.{
  Same, Same-resized, Same-written, Same-reserved, Same-punched, Same-map_written, Ends, Ends-bind,
}
use ocfs2_test.Inline.Verify.{Agrees, mapping_size_lem}

module _ (k : Kernel) (v : Volume k) (o : Sizes) (limit : ℕ) (view : k.Disk → File)
    (inlines : Inlines k v limit view) where
  abbrev Good : ℕ → Bool → Bool → State k → Type 0
  Good = Agrees k v o limit view inlines

  pub Ends-succeeds :
      (n drawn : ℕ) (b t : Bool) (pattern : ℕ → ℕ) (r : Bool × k.Disk) (f : File)
      → Succeeds view r f
      → Same pattern n b t f
      → Ends (Good n b t) (succeeds k v o pattern drawn r)
  unfolding succeeds
  Ends-succeeds n drawn b t pattern r f (d, e, same) h = rw e (
    record { pattern = pattern; disk = d; drawn = drawn },
    refl,
    subst (Same pattern n b t) (sym same) h,
  )

  pub Ends-truncate_pattern :
      (old new : ℕ) (b t : Bool) (s : State k)
      → new ≤ old
      → old < 2 ^ 31
      → Good old b t s
      → Ends (Good new (b && leb new limit) t) (truncate_pattern k v o old new s)
  unfolding truncate_pattern
  Ends-truncate_pattern old new b t s le small h =
      Ends-succeeds new s.drawn (b && leb new limit) t (clear new (sub64 old new) s.pattern)
        (k.ftruncate new s.disk) (resized limit new (view s.disk))
        (inlines.ftruncate_inlines new s.disk)
        (Same-resized limit new old s.pattern (clear new (sub64 old new) s.pattern) b t
          (view s.disk) h (λ p low. ground (arith, low, le)))

  pub Ends-extend_pattern :
      (old new : ℕ) (b t : Bool) (s : State k)
      → old ≤ new
      → new < 2 ^ 31
      → Good old b t s
      → Ends (Good new (b && leb new limit) t) (extend_pattern k v o old new s)
  unfolding extend_pattern
  Ends-extend_pattern old new b t s le small h =
      let whole : sub64 new old ≡ new - old = omega (arith, le, small) in
      rw whole (
        Ends-succeeds new s.drawn (b && leb new limit) t (clear old (new - old) s.pattern)
          (k.ftruncate new s.disk) (resized limit new (view s.disk))
          (inlines.ftruncate_inlines new s.disk)
          (Same-resized limit new old s.pattern (clear old (new - old) s.pattern) b t (view s.disk)
            h (λ p low. ground (arith, low, le))))

  -- What the ioctls of reservation come to: they are there.
  abbrev pub Replied : ℕ → Bool → Bool → Bool × State k → Type 0
  Replied n b t r = (r.0 ≡ true) × Good n b t r.1

  pub Ends-try_reserve :
      Reserves k v limit view
      → (offset count n : ℕ) (b t : Bool) (s : State k) → Good n b t s
      → Ends (Replied n (b && leb (offset + count) limit) t) (try_reserve k v o offset count s)
  unfolding try_reserve replied
  Ends-try_reserve reserves offset count n b t s h =
      let (d, e, same) = reserves.resvsp_reserves offset count s.disk in
      rw e (
        (true, record { pattern = s.pattern; disk = d; drawn = s.drawn }),
        refl,
        (
          refl,
          subst (Same s.pattern n (b && leb (offset + count) limit) t) (sym same)
              (Same-reserved limit offset count n s.pattern b t (view s.disk) h),
        ),
      )

  pub Ends-try_punch_hole :
      Reserves k v limit view
      → (offset count n : ℕ) (b t : Bool) (s : State k) → Good n b t s
      → Ends (Replied n b t) (try_punch_hole k v o offset count s)
  unfolding try_punch_hole replied
  Ends-try_punch_hole reserves offset count n b t s h =
      let (d, e, same) = reserves.unresvsp_reserves offset count s.disk in
      rw e (
        (true, record { pattern = clear offset count s.pattern; disk = d; drawn = s.drawn }),
        refl,
        (
          refl,
          subst (Same (clear offset count s.pattern) n b t) (sym same)
              (Same-punched offset count n s.pattern b t (view s.disk) h),
        ),
      )

  wrote_all_lem :
      (pattern : ℕ → ℕ) (drawn count n : ℕ) (d : k.Disk)
      → n ≡ count
      → wrote_all k v o pattern drawn count (wrote n, d)
        ≡ ok (record { pattern = pattern; disk = d; drawn = drawn })
  unfolding wrote_all
  wrote_all_lem pattern drawn count n d e =
      let yes : (n == count) ≡ true = ground (arith, e) in rw yes refl

  pub Ends-write_at :
      (count offset n : ℕ) (b t : Bool) (s : State k)
      → offset ≤ n
      → Good n b t s
      → Ends
          (Good (max n (offset + count)) (b && (leb (offset + count) limit && not t)) t)
          (write_at k v o count offset s)
  unfolding write_at
  Ends-write_at count offset n b t s le h =
      let buf = slice s.pattern offset count in
      let (d, e, same) = inlines.pwrite_inlines buf offset s.disk in
      (
        record { pattern = s.pattern; disk = d; drawn = s.drawn },
        ap (wrote_all k v o s.pattern s.drawn count) e
            ∙ wrote_all_lem s.pattern s.drawn count (length buf) d
                (length-slice s.pattern offset count),
        subst
            (Same s.pattern (max n (offset + count)) (b && (leb (offset + count) limit && not t)) t)
            (sym same) (Same-written limit offset count n s.pattern b t (view s.disk) h le),
      )

  pub write_at-pattern :
      (count offset : ℕ) (s : State k)
      → Ends (λ t. t.pattern ≡ s.pattern) (write_at k v o count offset s)
  unfolding write_at
  write_at-pattern count offset s =
      let buf = slice s.pattern offset count in
      let (d, e, same) = inlines.pwrite_inlines buf offset s.disk in
      (
        record { pattern = s.pattern; disk = d; drawn = s.drawn },
        ap (wrote_all k v o s.pattern s.drawn count) e
            ∙ wrote_all_lem s.pattern s.drawn count (length buf) d
                (length-slice s.pattern offset count),
        refl,
      )

  pub Ends-mmap_write_at :
      (n : ℕ) (b t : Bool) (pattern : ℕ → ℕ) (s : State k)
      → 0 < o.page_size
      → Same pattern n b t (view s.disk)
      → Ends (Good n false t) (mmap_write_at k v o n 0 s)
  unfolding mmap_write_at
  Ends-mmap_write_at n b t pattern s page h =
      let (m, e, big) =
        mapping_size_lem (suc (n + 0)) o.page_size (n + 0) o.page_size page (omega arith)
          (omega arith) in
      let inside : 0 + length (slice s.pattern 0 n) ≤ (view s.disk).size =
        omega (arith, length-slice s.pattern 0 n, h.size_is) in
      rw (e, inlines.mmap_inlines m s.disk)
        (
          record {
            pattern = s.pattern;
            disk = k.mmap_set (slice s.pattern 0 n) 0 s.disk;
            drawn = s.drawn;
          },
          refl,
          subst (Same s.pattern n false t)
              (sym (inlines.mmap_set_inlines (slice s.pattern 0 n) 0 s.disk inside))
              (Same-map_written n pattern s.pattern b t (view s.disk) h),
        )

  -- A new file is empty.
  Same-created : (pattern : ℕ → ℕ) (t : Bool) → Same pattern 0 true t (created t)
  Same-created pattern t = record {
    size_is = refl;
    same = λ p low. absurd (omega arith);
    inlined_is = refl;
    direct_is = refl;
  }

  -- The start of `prep_file_no_fill`, and what follows it.
  Ends-create_write :
      {Q : State k → Type 0} (count : ℕ) (t : Bool) (s : State k)
      (next : State k → Result (State k))
      → ((s2 : State k) → Good count (leb count limit && not t) t s2 → Ends Q (next s2))
      → Ends Q (
          succeeds k v o s.pattern s.drawn (v.create t s.disk) >>= λ s1.
          write_at k v o count 0 s1 >>= next)
  Ends-create_write count t s next rest =
      let none_before : 0 + count ≡ count = omega arith in
      let longest : max 0 count ≡ count = omega arith in
      Ends-bind {P = Good 0 true t}
        (Ends-succeeds 0 s.drawn true t s.pattern (v.create t s.disk) (created t)
          (inlines.create_inlines t s.disk) (Same-created s.pattern t))
        (λ s1 h.
          Ends-bind {P = Good count (leb count limit && not t) t}
            (rw (none_before, longest) at (Ends-write_at count 0 0 true t s1 (omega arith) h)) rest)

  pub Ends-prep_file_no_fill :
      (size : ℕ) (s : State k)
      → size ≤ limit
      → Ends (Good size true false) (prep_file_no_fill k v o size false s)
  unfolding prep_file_no_fill
  Ends-prep_file_no_fill size s le =
      let whole : ltb size size ≡ false = ground arith in
      let small : leb size limit ≡ true = ground (arith, le) in
      Ends-create_write size false s
        (λ s2.
          if ltb size size
          then succeeds k v o s2.pattern s2.drawn (k.ftruncate size s2.disk)
          else ok s2)
        (λ s2 h. rw whole (s2, refl, rw small at h))

  pub Ends-prep_file :
      (stream : ℕ → ℕ) (size : ℕ) (s : State k)
      → size ≤ limit
      → Ends (Good size true false) (prep_file k v o stream size s)
  unfolding prep_file
  Ends-prep_file stream size s le =
      Ends-prep_file_no_fill size (fill_pattern k v o stream size s) le

  pub Ends-prep_direct :
      (size : ℕ) (s : State k)
      → size ≤ o.blocksize
      → Ends (Good size false true) (prep_file_no_fill k v o size true s)
  unfolding prep_file_no_fill
  Ends-prep_direct size s le =
      let never : leb o.blocksize limit && not true ≡ false = ground arith in
      Ends-create_write o.blocksize true s
        (λ s2.
          if ltb size o.blocksize
          then succeeds k v o s2.pattern s2.drawn (k.ftruncate size s2.disk)
          else ok s2)
        (λ s2 h. elim (Bool-cases (ltb size o.blocksize)) [
          | inl e ↦ rw e (
              Ends-succeeds size s2.drawn false true s2.pattern (k.ftruncate size s2.disk)
                (resized limit size (view s2.disk)) (inlines.ftruncate_inlines size s2.disk)
                (Same-resized limit size o.blocksize s2.pattern s2.pattern false true (view s2.disk)
                  (rw never at h) (λ p low. ground (arith, low, le))))
          | inr e ↦
              (let equal : o.blocksize ≡ size = ground (arith, e, le) in
                rw e (s2, refl, rw (never, equal) at h))
        ])
