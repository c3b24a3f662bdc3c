-- ===== src/Holes/Check/Run.antt =====
-- verify_holes as a whole: which files it accepts for which logs.
use ocfs2_test.Common.{
  ℕ, ◌-◌, ◌%◌, ◌≤◌, ◌<◌, ◌^◌, ◌≡◌, ◌∙◌, sym, ap, none, some, Option, List, [], ◌∷◌, map, ltb,
  if◌then◌else◌, ok, All, arith, ◌↔◌,
}
use ocfs2_test.Holes.{WriteUnit, to_u32}
use ocfs2_test.Holes.Extent.{end_of, byte_at, IsExtent, Precedes, IsSorted}
use ocfs2_test.Holes.Tree.{inorder, RbTree}
use ocfs2_test.Holes.Replay.{fields, overlay}
use ocfs2_test.Holes.Replay.Laws.{init_tree_lem, read_log_lem}
use ocfs2_test.Kernel.{Read}
use ocfs2_test.Holes.Check.{check_file, run, Reads}
use ocfs2_test.Holes.Check.Laws.{Holds, check_file_iff}

IsSorted-IsExtent : (xs : List WriteUnit) → IsSorted xs → All IsExtent xs
IsSorted-IsExtent [] s = tt
IsSorted-IsExtent (x ∷ xs) s = (s.0, IsSorted-IsExtent xs s.2)

byte_at-after :
    (x : WriteUnit) (xs : List WriteUnit) (p c : ℕ)
    → All (Precedes x) xs
    → byte_at xs p ≡ some c
    → end_of x ≤ p
unfolding byte_at
byte_at-after x [] p c h e = cc
byte_at-after x (y ∷ ys) p c h e = ground (arith, byte_at-after x ys p c h.1, h.0)

module _ (file : ℕ → ℕ) (size : ℕ) where
  -- Each byte that the extents speak of lies in the file and has the value that they say.
  abbrev pub Agrees : (ℕ → Option ℕ) → Type 0
  Agrees bytes = (p c : ℕ) → bytes p ≡ some c → (p < size) × (file p ≡ c)

  Holds-Agrees : (xs : List WriteUnit) → All (Holds file size) xs → Agrees (byte_at xs)
  unfolding byte_at
  Holds-Agrees [] h p c e = cc
  Holds-Agrees (x ∷ xs) h p c e = ground (arith, Holds-Agrees xs h.1 p c, h.0.0, h.0.1 p)

  Agrees-Holds :
      (xs : List WriteUnit) → IsSorted xs → Agrees (byte_at xs) → All (Holds file size) xs
  unfolding byte_at
  Agrees-Holds [] s a = tt
  Agrees-Holds (x ∷ xs) s a = (
    (ground (arith, a (end_of x - 1) x.char, s.0), λ p lo hi. ground (arith, a p x.char)),
    Agrees-Holds xs s.2 (λ p c e. ground (arith, a p c, byte_at-after x xs p c s.1)),
  )

  run-Agrees :
      (rb : RbTree) (pread : ℕ → ℕ → Read) (log : List WriteUnit)
      → Reads pread file size
      → 0 < to_u32 size
      → All IsExtent log
      → (run pread rb size (map fields log) ≡ ok tt)
        ↔ Agrees (λ p. overlay log p (if ltb p (to_u32 size) then some 0 else none))
  unfolding run
  run-Agrees rb pread log r pos v =
      let (s, e, ready, zeroes) = init_tree_lem rb size pos in
      let (s', e', ready', bytes) = read_log_lem rb log s v ready in
      let xs = inorder s'.chunk_root in
      let checked = check_file_iff pread file size r xs (IsSorted-IsExtent xs ready'.sorted) in
      let same : (p : ℕ)
          → byte_at xs p ≡ overlay log p (if ltb p (to_u32 size) then some 0 else none) =
        λ p. bytes p ∙ ap (overlay log p) (zeroes p) in
      let result : run pread rb size (map fields log) ≡ check_file pread xs = rw e (rw e') in
      (
        λ h p c q. Holds-Agrees xs (checked.0 (sym result ∙ h)) p c (same p ∙ q),
        λ a. result ∙ checked.1 (Agrees-Holds xs ready'.sorted (λ p c q. a p c (sym (same p) ∙ q))),
      )

  -- verify_holes accepts a file exactly when each byte is that of the last write of the log that
  -- covers it, or zero where no write does, and no write of the log goes past the end of the file.
  -- For a file of less than 4 GiB that is not empty, and a log of writes with at least a byte each
  -- whose ends are 64-bit offsets.
  pub run_iff :
      (rb : RbTree) (pread : ℕ → ℕ → Read) (log : List WriteUnit)
      → Reads pread file size
      → 0 < size
      → size < 2 ^ 32
      → All IsExtent log
      → (run pread rb size (map fields log) ≡ ok tt)
        ↔ Agrees (λ p. overlay log p (if ltb p size then some 0 else none))
  run_iff rb pread log r pos small v = rw (width) at (run-Agrees rb pread log r (omega arith) v)
    where
      width : to_u32 size ≡ size
      width = omega arith

  -- A file of 4 GiB or more whose size is not a multiple of 4 GiB passes with an empty log as soon
  -- as its first (size mod 4 GiB) bytes are zero, whatever the others are.
  pub run_misses_tail :
      (rb : RbTree) (pread : ℕ → ℕ → Read)
      → Reads pread file size
      → 2 ^ 32 ≤ size
      → 0 < size % 2 ^ 32
      → ((p : ℕ) → p < size % 2 ^ 32 → file p ≡ 0)
      → run pread rb size [] ≡ ok tt
  unfolding overlay
  run_misses_tail rb pread r big part zeroes =
      (run-Agrees rb pread [] r part tt).1 (λ p c e. ground (arith, zeroes p))
