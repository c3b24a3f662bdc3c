-- ===== src/Kernel/Sized.antt =====
-- A kernel for the tests: its one file is kept in memory, with its size.
use ocfs2_test.Common.{ℕ, ◌+◌, ◌-◌, refl, true, ltb, ◌==◌, if◌then◌else◌, length, min, max}
use ocfs2_test.Kernel.{Kernel, bytes, wrote, slice, splice, Keeps}

abbrev pub sized : Kernel
sized = record {
  Disk = ℕ × (ℕ → ℕ);
  pwrite = λ buf off d. (
    wrote (length buf),
    (if length buf == 0 then d.0 else max d.0 (off + length buf), splice d.1 off buf),
  );
  pread = λ count off d. bytes (slice d.1 off (min count (d.0 - off)));
  mmap_set = λ buf off d. (d.0, splice d.1 off buf);
  io_setup = λ n d. (true, d);
  io_submit = λ cb d. (true, d);
  io_destroy = λ d. (true, d);
  io_getevents = λ lo hi d. (wrote hi, d);
  resvsp = λ off len d. (true, d);
  unresvsp = λ off len d. (true, d);
  ftruncate = λ n d. (true, (n, λ p. if ltb p d.0 then d.1 p else 0));
  fsync = λ d. d;
}

pub sized-Keeps : Keeps sized (λ d. d.1) (λ d. d.0)
sized-Keeps = record {
  pwrite_keeps = λ buf off d. (
    (if length buf == 0 then d.0 else max d.0 (off + length buf), splice d.1 off buf),
    refl,
    λ p. refl,
    refl,
  );
  pread_keeps = λ count off d. refl;
  ftruncate_keeps = λ n d. ((n, λ p. if ltb p d.0 then d.1 p else 0), refl, λ p h. refl, refl);
  fsync_keeps = λ d. (λ p. refl, refl);
}
