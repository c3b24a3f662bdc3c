-- ===== src/FileVerify/Places.antt =====
-- Where the writes of a disk land, for the loops of file_verify.c. On a file that was opened with
-- `O_APPEND`, POSIX has `pwrite` write at its offset all the same, and Linux writes at the end of the
-- file whatever the offset is.
use native.Mathlib.Nat.{mul-le-mul_right}
use ocfs2_test.Common.{ℕ, suc, ◌+◌, ◌*◌, ◌≤◌, ◌<◌, ◌≡◌, refl, List, length, take, arith, max}
use ocfs2_test.Kernel.{Kernel, wrote, splice}
use ocfs2_test.FileVerify.Store.{Lands}
use ocfs2_test.FileVerify.Transfer.Partial.{Gets}

-- A file that moves a byte at least with each call and loses none; a write with the offset `off` goes
-- to `place off size`.
pub record Sinks (k : Kernel) (contents : k.Disk → ℕ → ℕ) (size : k.Disk → ℕ) (place : ℕ → ℕ → ℕ)
    : Type 0 where
  pub pwrite_some :
      (buf : List ℕ) (off : ℕ) (d : k.Disk)
      → 0 < length buf
      → (n : ℕ) × (d' : k.Disk) × (0 < n)
        × (n ≤ length buf)
        × (k.pwrite buf off d ≡ (wrote n, d'))
        × ((p : ℕ) → contents d' p ≡ splice (contents d) (place off (size d)) (take n buf) p)
        × (size d' ≡ max (size d) (place off (size d) + n))
  pub gets : (d : k.Disk) → Gets k (contents d) (size d) d

-- As POSIX has it, and as Linux does.
abbrev pub at_offset : ℕ → ℕ → ℕ
at_offset off size = off

abbrev pub at_end : ℕ → ℕ → ℕ
at_end off size = size

module _ (k : Kernel) (contents : k.Disk → ℕ → ℕ) (size : k.Disk → ℕ) (n chunksize : ℕ) where
  pub Lands-offset :
      Sinks k contents size at_offset
      → Lands k contents size (λ off d. off) n chunksize (λ j c. c) (λ j s. s ≤ chunksize * n)
  Lands-offset sinks = record {
    puts = record {
      pwrite_some = λ buf off d pos.
          (let (m, d', a, b, e, now, grew) = sinks.pwrite_some buf off d pos in
            (m, d', a, b, e, now, refl, grew));
      grew_more = λ d d1 d2 e e' le a b. omega (arith, le, a, b);
    };
    lands = λ j c d sized. refl;
    grows =
        λ j c s low sized. omega (arith, sized, mul-le-mul_right {m = suc c} {n = n} chunksize low);
  }

  pub Lands-end :
      Sinks k contents size at_end
      → Lands k contents size (λ off d. size d) n chunksize (λ j c. j) (λ j s. s ≡ chunksize * j)
  Lands-end sinks = record {
    puts = record {
      pwrite_some = λ buf off d pos.
          (let (m, d', a, b, e, now, grew) = sinks.pwrite_some buf off d pos in
            (m, d', a, b, e, now, omega (arith, grew), grew));
      grew_more = λ d d1 d2 e e' le a b. omega (arith, le, a, b);
    };
    lands = λ j c d sized. sized;
    grows = λ j c s low sized. omega (arith, sized);
  }
