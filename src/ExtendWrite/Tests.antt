-- ===== src/ExtendWrite/Tests.antt =====
-- A file in memory, and the theorems about extend_and_write at a block of each process.
use ocfs2_test.Common.{ℕ, ◌+◌, ◌-◌, List, length, min, replicate}
use ocfs2_test.Kernel.{bytes, wrote, slice, splice}
use ocfs2_test.ExtendWrite.{Appended}

-- The bytes and the size of a file.
abbrev FileState : Type 0
FileState = (ℕ → ℕ) × ℕ

abbrev append : List ℕ → FileState → FileState
append buf d = (splice d.0 d.1 buf, d.1 + length buf)

abbrev in_memory : Appended
in_memory = record {
  Disk = FileState;
  write = λ buf d. (wrote (length buf), append buf d);
  fsync = λ d. d;
  read = λ count position d. bytes (slice d.0 position (min count (d.1 - position)));
}

abbrev contents : FileState → ℕ → ℕ
contents d = d.0

abbrev size : FileState → ℕ
size d = d.1

abbrev blank : FileState
blank = (λ p. 0, 0)

abbrev after_child : FileState
after_child = append (replicate 2 b'B') blank

abbrev after_both : FileState
after_both = append (replicate 2 b'A') after_child
