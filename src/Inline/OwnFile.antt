-- ===== src/Inline/OwnFile.antt =====
-- A child of `multi_file_rw_test` of inline-data.c, on a file of its own.
use ocfs2_test.Common.{ℕ, zero, suc, ◌≡◌, refl, sym, ap, subst, ◌∙◌, true, false}
use ocfs2_test.Kernel.{Kernel}
use ocfs2_test.Inline.{Sizes, State}
use ocfs2_test.Inline.Inode.{Volume, File, Inlines}
use ocfs2_test.Inline.Agrees.{Same, Ends, Ends-bind}
use ocfs2_test.Inline.Rounds.{IsSizes, verified}
use ocfs2_test.Inline.Passes.{Full, checked, prepared}
use ocfs2_test.Inline.Children.{own_file_loop, own_file}
use ocfs2_test.Inline.Family.{Ends-rewrite_somewhere}

module _ (k : Kernel) (v : Volume k) (o : Sizes) (stream : ℕ → ℕ) (view : k.Disk → File)
    (inlines : Inlines k v o.max_inline_size view) (sizes : IsSizes o) where
  open o use {max_inline_size}

  view-fsync : (d : k.Disk) → view (v.fsync d).1 ≡ view d
  view-fsync d = let (d', e, same) = inlines.fsync_inlines d in ap (λ r. view r.1) e ∙ same

  Ends-own_file_loop :
      (n : ℕ) (s : State k)
      → Full k v o stream view inlines sizes s
      → Ends (Full k v o stream view inlines sizes) (own_file_loop k v o stream n s)
  unfolding own_file_loop
  Ends-own_file_loop zero s h = (s, refl, h)
  Ends-own_file_loop (suc n) s h =
      Ends-bind (Ends-rewrite_somewhere k v o stream view inlines sizes s h) (λ s1 h1.
        Ends-bind (verified k v o stream view inlines sizes max_inline_size true s1 h1.0) (λ s2 h2.
          Ends-bind
            (checked k v o stream view inlines sizes max_inline_size true
              (record { pattern = s2.pattern; disk = (v.fsync s2.disk).1; drawn = s2.drawn })
              (subst (Same s2.pattern max_inline_size true false) (sym (view-fsync s2.disk)) h2))
            (λ s3 h3. Ends-own_file_loop n s3 h3)))

  -- On a volume that keeps small files in their inodes a child of `multi_file_rw_test` comes to the end
  -- of its loop, and its file agrees with its pattern and is still in the inode.
  pub own_file_passes :
      (file_nums : ℕ) (s : State k)
      → Ends (Full k v o stream view inlines sizes) (own_file k v o stream file_nums s)
  unfolding own_file
  own_file_passes file_nums s =
      Ends-bind (prepared k v o stream view inlines sizes s) (Ends-own_file_loop file_nums)
