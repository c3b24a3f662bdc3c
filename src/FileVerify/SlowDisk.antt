-- ===== src/FileVerify/SlowDisk.antt =====
-- For the tests: a disk in memory that moves seven bytes at a time, with the place where its writes land,
-- a clock that stands still and a counter for `rand()`.
use ocfs2_test.Common.{ℕ, ◌+◌, ◌-◌, ◌≡◌, refl, true, length, max, min, take, arith}
use ocfs2_test.Kernel.{Kernel, bytes, wrote, slice, splice}
use ocfs2_test.FileVerify.Places.{Sinks}
use ocfs2_test.FileVerify.Units.{Ticks}

-- The bytes and the size of a file.
abbrev pub FileState : Type 0
FileState = (ℕ → ℕ) × ℕ

abbrev pub slow : (ℕ → ℕ → ℕ) → Kernel
slow place = record {
  Disk = FileState;
  pwrite = λ buf off d.
      (let n = min 7 (length buf) in
        let at = place off d.1 in (wrote n, (splice d.0 at (take n buf), max d.1 (at + n))));
  pread = λ count off d. bytes (slice d.0 off (min (min 7 count) (d.1 - off)));
  mmap_set = λ buf off d. d;
  io_setup = λ n d. (true, d);
  io_submit = λ cb d. (true, d);
  io_destroy = λ d. (true, d);
  io_getevents = λ lo hi d. (wrote hi, d);
  resvsp = λ off len d. (true, d);
  unresvsp = λ off len d. (true, d);
  ftruncate = λ n d. (true, d);
  fsync = λ d. d;
}

pub slow-Sinks : (place : ℕ → ℕ → ℕ) → Sinks (slow place) (λ d. d.0) (λ d. d.1) place
unfolding slice
slow-Sinks place = record {
  pwrite_some = λ buf off d pos. (
    min 7 (length buf),
    (
      splice d.0 (place off d.1) (take (min 7 (length buf)) buf),
      max d.1 (place off d.1 + min 7 (length buf)),
    ),
    omega arith,
    omega arith,
    refl,
    λ p. refl,
    refl,
  );
  gets = λ d. record {
    pread_some = λ count off pos inside.
        (let e : min (min 7 count) (d.1 - off) ≡ min 7 count = omega arith in
          (min 7 count, omega arith, omega arith, rw e refl));
    pread_past =
        λ count off past. (let e : min (min 7 count) (d.1 - off) ≡ 0 = omega arith in rw e refl);
  };
}

abbrev pub counting : ℕ → ℕ
counting r = r

abbrev pub noon : ℕ → ℕ × ℕ
noon t = (43200, 5)

pub noon-Ticks : Ticks noon
noon-Ticks = record {
  after_epoch = λ t. omega arith;
  seconds_fit = λ t. omega arith;
  microseconds = λ t. omega arith;
}

abbrev pub zeroes : ℕ → ℕ
zeroes p = 0

abbrev pub empty_file : FileState
empty_file = (zeroes, 0)
