-- ===== src/Inline/Tests.antt =====
-- A volume that is kept in memory, runs of inline-data on it, and the theorems at concrete inputs.
use ocfs2_test.Common.{
  ℕ, ◌+◌, ◌-◌, ◌<◌, ◌≤◌, ◌≡◌, ◌≢◌, ◌↔◌, refl, true, false, Bool, some, arith, Result, ok, failed,
  aborted, out_of_fuel, length, min, ◌==◌, if◌then◌else◌,
}
use ocfs2_test.Kernel.{Kernel, bytes, wrote, slice}
use ocfs2_test.Inline.{
  Sizes, State, get_rand, fill_from, fill_pattern, succeeds, wrote_all, write_at, verify_pattern,
  prep_file, try_reserve, pattern_sz, prep_file_no_fill, verify_read, verify_pattern_fd,
  is_file_inlined, should_inlined_or_not,
}
use ocfs2_test.Inline.Inode.{
  Volume, File, Inlines, Reserves, created, reopened, written, resized, reserved, punched,
  map_written, Request, resvsp, unresvsp, Reply, done, enotty,
}
use ocfs2_test.Inline.Agrees.{Same, Ends}
use ocfs2_test.Inline.Verify.{Agrees, verify_pattern_fd_iff}
use ocfs2_test.Inline.Rounds.{IsSizes}
use ocfs2_test.Inline.Regular.{
  drawing, check_inlined, double_write_loop, double_write, large_reservation, test_regular_file,
}
use ocfs2_test.Inline.Extents.{large_reservation_enotty}
use ocfs2_test.Inline.Passes.{Full}
use ocfs2_test.Inline.Children.{
  own_file, at_head, exited_1, father_at, father_verifies, forked, Reached, at_fork, after,
}
use ocfs2_test.Inline.Family.{no_process_fails}
use ocfs2_test.Inline.OwnFile.{own_file_passes}
use ocfs2_test.Inline.Whole.{test_regular_file_lem}

abbrev in_memory : Kernel
in_memory = record {
  Disk = File;
  pwrite = λ buf off d. (wrote (length buf), written 3 buf off d);
  pread = λ count off d. bytes (slice d.content off (min count (d.size - off)));
  mmap_set = λ buf off d. map_written buf off d;
  io_setup = λ n d. (true, d);
  io_submit = λ cb d. (true, d);
  io_destroy = λ d. (true, d);
  io_getevents = λ lo hi d. (wrote hi, d);
  resvsp = λ off len d. (true, reserved 3 off len d);
  unresvsp = λ off len d. (true, punched off len d);
  ftruncate = λ n d. (true, resized 3 n d);
  fsync = λ d. d;
}

abbrev answer : Request → ℕ → ℕ → File → Reply × File
answer resvsp off len d = (done, reserved 3 off len d)
answer unresvsp off len d = (done, punched off len d)

abbrev volume_with : (Request → ℕ → ℕ → File → Reply × File) → Volume in_memory
volume_with ioctl = record {
  create = λ direct d. (true, created direct);
  open_direct = λ d. (true, reopened d);
  fsync = λ d. (true, d);
  fdatasync = λ d. (true, d);
  sync = λ d. d;
  mmap = λ n d. true;
  mapped = λ d. d.content;
  ioctl = ioctl;
  root_blkno = 5;
  lookup = λ dir name d. some 6;
  read_inode = λ n d. some d.inlined;
}

abbrev volume : Volume in_memory
volume = volume_with answer

abbrev old_volume : Volume in_memory
old_volume = volume_with (λ r off len d. (enotty, d))

volume-Inlines :
    (ioctl : Request → ℕ → ℕ → File → Reply × File)
    → Inlines in_memory (volume_with ioctl) 3 (λ d. d)
volume-Inlines ioctl = record {
  create_inlines = λ direct d. (created direct, refl, refl);
  open_inlines = λ d. (reopened d, refl, refl);
  pwrite_inlines = λ buf off d. (written 3 buf off d, refl, refl);
  pread_inlines = λ count off d. refl;
  ftruncate_inlines = λ n d. (resized 3 n d, refl, refl);
  fsync_inlines = λ d. (d, refl, refl);
  fdatasync_inlines = λ d. (d, refl, refl);
  sync_inlines = λ d. refl;
  mmap_inlines = λ n d. refl;
  mmap_set_inlines = λ buf off d h. refl;
  lookup_inlines = λ dir name d. (6, refl);
  read_inode_inlines = λ n d. refl;
}

volume-Reserves : Reserves in_memory volume 3 (λ d. d)
volume-Reserves = record {
  resvsp_reserves = λ off len d. (reserved 3 off len d, refl, refl);
  unresvsp_reserves = λ off len d. (punched off len d, refl, refl);
}

abbrev tiny : Sizes
tiny = record { max_inline_size = 3; blocksize = 4; page_size = 2 }

tiny-IsSizes : IsSizes tiny
tiny-IsSizes = record {
  some_inline = omega arith;
  in_block = omega arith;
  in_pattern = omega arith;
  some_page = omega arith;
}

abbrev at_start : State in_memory
at_start = record { pattern = λ p. 0; disk = created false; drawn = 0 }

abbrev draws : ℕ → ℕ
draws i = i + 4

abbrev is_ok : {A : Type 0} → Result A → Bool
is_ok (ok a) = true
is_ok failed = false
is_ok aborted = false
is_ok out_of_fuel = false

-- A run.
double_write_ends : is_ok (double_write in_memory volume tiny draws at_start) ≡ true
unfolding double_write double_write_loop drawing get_rand fill_from fill_pattern succeeds wrote_all
    write_at verify_pattern prep_file_no_fill verify_read verify_pattern_fd is_file_inlined
    should_inlined_or_not check_inlined slice
double_write_ends = refl

test_regular_file_lem_example :
    Ends
      (Agrees in_memory volume tiny 3 (λ d. d) (volume-Inlines answer) 3 false true)
      (test_regular_file in_memory volume tiny draws 2 at_start)
test_regular_file_lem_example =
    test_regular_file_lem in_memory volume tiny draws (λ d. d) (volume-Inlines answer) tiny-IsSizes
      volume-Reserves 1 at_start (omega arith)

-- Two bytes in the file, and a pattern that differs from them in the second.
abbrev stored : State in_memory
stored = record {
  pattern = λ p. if p == 1 then 9 else p + 1;
  disk = record { size = 2; content = λ p. p + 1; inlined = true; direct = false };
  drawn = 0;
}

verify_pattern_fd_iff_example :
    (verify_pattern_fd in_memory volume tiny false 2 stored ≡ ok stored)
    ↔ ((2 ≤ 2) × ((p : ℕ) → p < 2 → p + 1 ≡ stored.pattern p))
verify_pattern_fd_iff_example =
    verify_pattern_fd_iff in_memory volume tiny 3 (λ d. d) (volume-Inlines answer) 2 stored

large_reservation_enotty_example :
    (s1 : State in_memory) × (prep_file in_memory old_volume tiny draws tiny.max_inline_size
        at_start
      ≡ ok s1)
    × (try_reserve in_memory old_volume tiny 0 pattern_sz s1 ≡ ok (false, s1))
    × Same s1.pattern tiny.max_inline_size true false s1.disk
    × (large_reservation in_memory old_volume tiny draws at_start ≡ failed)
large_reservation_enotty_example =
    large_reservation_enotty in_memory old_volume tiny draws (λ d. d)
      (volume-Inlines (λ r off len d. (enotty, d))) tiny-IsSizes at_start (λ off len d. refl)

-- A file that agrees with its pattern, and its processes after the father has verified it once.
abbrev zeroed : State in_memory
zeroed = record {
  pattern = λ p. 0;
  disk = record { size = 3; content = λ p. 0; inlined = true; direct = false };
  drawn = 0;
}

zeroed-Full : Full in_memory volume tiny draws (λ d. d) (volume-Inlines answer) tiny-IsSizes zeroed
zeroed-Full = record { size_is = refl; same = λ p low. refl; inlined_is = refl; direct_is = refl }

verified_once : Reached in_memory volume tiny draws 2 zeroed.pattern zeroed (
    father_at in_memory volume tiny draws 2 zeroed.pattern
      (forked in_memory volume tiny draws 2 zeroed.pattern zeroed)
      at_head
      1)
unfolding verify_pattern_fd verify_read verify_pattern slice
verified_once = after at_fork (father_verifies zeroed refl (omega arith) refl)

no_process_fails_example :
    (Same zeroed.pattern 3 true false zeroed.disk)
    × ((i : ℕ) → at_head ≢ exited_1)
    × (at_head ≢ exited_1)
no_process_fails_example =
    no_process_fails in_memory volume tiny draws (λ d. d) (volume-Inlines answer) tiny-IsSizes 2
      zeroed zeroed-Full verified_once

own_file_passes_example :
    Ends
      (Full in_memory volume tiny draws (λ d. d) (volume-Inlines answer) tiny-IsSizes)
      (own_file in_memory volume tiny draws 2 at_start)
own_file_passes_example =
    own_file_passes in_memory volume tiny draws (λ d. d) (volume-Inlines answer) tiny-IsSizes 2
      at_start
