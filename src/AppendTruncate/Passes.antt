-- ===== src/AppendTruncate/Passes.antt =====
-- Which files the check of write_append_truncate.c lets pass, however they came to be.
use ocfs2_test.Common.{ℕ, ◌+◌, ◌≤◌, ◌<◌, ◌≡◌, ◌≢◌, ◌⊎◌, List, ltb, ◌==◌, if◌then◌else◌}
use ocfs2_test.AppendTruncate.{Round, Shared}
use ocfs2_test.AppendTruncate.Race.{Appends}
use ocfs2_test.AppendTruncate.Verdict.{IsMemcmp}

-- The bytes of a range are all `c`.
abbrev pub AllAre : (ℕ → ℕ) → ℕ → ℕ → ℕ → Type 0
AllAre m first end c = (p : ℕ) → first ≤ p → p < end → m p ≡ c

-- The bytes of `read_buf` that the check asks for, for a file of `size` bytes.
abbrev pub Passing : Round → ℕ → (ℕ → ℕ) → Type 0
Passing o size m =
    ((size ≡ o.trunc_offset) × AllAre m o.chunk_size o.trunc_offset b'A')
    ⊎ ((size ≢ o.trunc_offset)
        × AllAre m 0 o.chunk_size b'C'
        × AllAre m o.chunk_size o.trunc_offset 0
        × AllAre m o.trunc_offset (o.trunc_offset + o.append_size) b'A')

module _ (memcmp : List ℕ → List ℕ → ℕ) (is_memcmp : IsMemcmp memcmp) where
  -- `error` in the second case, of the results of the three comparisons.
  abbrev second_case : ℕ → ℕ → ℕ → ℕ
  second_case base gap tail =
      if gap == 0 then (if tail == 0 then (if base == 0 then 0 else 1) else 1) else 1

module _ (k : Shared) (contents : k.Disk → ℕ → ℕ) (appends : Appends k contents)
    (memcmp : List ℕ → List ℕ → ℕ) (is_memcmp : IsMemcmp memcmp) (o : Round)
    (read_buf : ℕ → ℕ) where
  -- The file, and behind its end what the buffer held before.
  abbrev pub buffer : k.Disk → ℕ → ℕ
  buffer d p = if ltb p (k.st_size d) then contents d p else read_buf p
