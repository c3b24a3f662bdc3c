-- ===== src/Holes/Tests.antt =====
-- Runs of verify_holes, and the theorems about them at concrete inputs.
mod Fill
mod Punch
use ocfs2_test.Common.{
  ℕ, zero, suc, ◌+◌, ◌-◌, ◌*◌, ◌/◌, ◌%◌, ◌^◌, ◌≤◌, ◌<◌, ◌≡◌, ◌≢◌, refl, ◌↔◌, Bool, true, false,
  Option, none, some, List, [], ◌∷◌, map, leb, ltb, ◌==◌, ◌&&◌, ◌||◌, if◌then◌else◌, Result, ok,
  failed, aborted, arith, All,
}
use ocfs2_test.Kernel.{Kernel, Read, Stores}
use ocfs2_test.Holes.{WriteUnit, max_write_size}
use ocfs2_test.Holes.Extent.{end_of, covers, byte_at, IsExtent, IsSorted}
use ocfs2_test.Holes.Tree.{Tree, empty, node, root, inorder}
use ocfs2_test.Holes.Verify.{
  State, insert_chunk, restart, enter, descend, overlap, cut_before, cut_after,
}
use ocfs2_test.Holes.Verify.Search.{Found, descend_lem}
use ocfs2_test.Holes.Verify.Insert.{Inserted, insert_chunk_lem}
use ocfs2_test.Holes.Replay.{Scan, fields, init_tree, read_log, overlay, clear_hole}
use ocfs2_test.Holes.Replay.Laws.{IsReady, read_log_lem}
use ocfs2_test.Holes.Check
use ocfs2_test.Holes.Check.{check_chunk, good, Reads}
use ocfs2_test.Holes.Check.Laws.{Holds, check_chunk_iff}
use ocfs2_test.Holes.Check.Run.{Agrees, run_iff, run_misses_tail}
use ocfs2_test.Holes.Models.{plain_tree, read_of, read_of-Reads, memory, memory-Stores}

abbrev unit_at : ℕ → ℕ → ℕ → WriteUnit
unit_at c off len = record { char = c; offset = off; len = len }

-- Three extents of a file of 12 bytes.
abbrev three : State
three = record {
  chunk_root =
      node (node empty (unit_at b'A' 0 4) empty) (unit_at b'B' 4 3)
        (node empty (unit_at b'C' 7 5) empty);
  recurse_level = 0;
}

three-IsSorted : IsSorted (inorder three.chunk_root)
three-IsSorted = omega arith

-- The extents that an insertion leaves, in order.
abbrev order_of : Result State → List WriteUnit
order_of (ok s) = inorder s.chunk_root
order_of failed = []
order_of _ = []

-- A chunk that covers the second extent and parts of its neighbours.
insert_runs :
    order_of (insert_chunk plain_tree three (unit_at b'X' 2 7))
    ≡ unit_at b'A' 0 2 ∷ unit_at b'X' 2 7 ∷ unit_at b'C' 9 3 ∷ []
unfolding insert_chunk restart enter descend overlap cut_before cut_after
insert_runs = refl

insert_chunk_lem_example :
    (s : State) × (insert_chunk plain_tree three (unit_at b'X' 2 7) ≡ ok s)
    × Inserted (unit_at b'X' 2 7) three s
insert_chunk_lem_example =
    insert_chunk_lem plain_tree three (unit_at b'X' 2 7) (omega arith) three-IsSorted refl

descend_lem_example : Found 2 9 (inorder three.chunk_root) (descend 2 9 three.chunk_root root)
descend_lem_example = descend_lem 2 9 three.chunk_root (omega arith) three-IsSorted

-- Two writes, the second of them a hole punched into the first.
abbrev two_writes : List WriteUnit
two_writes = unit_at b'X' 1 4 ∷ unit_at b'@' 2 2 ∷ []

two_writes-IsExtent : All IsExtent two_writes
two_writes-IsExtent = omega arith

-- The file after them.
abbrev punched : ℕ → ℕ
punched p = if p == 1 || p == 4 then b'X' else 0

read_log_lem_example :
    (s : State) × (read_log plain_tree three (map fields two_writes) ≡ ok s)
    × IsReady s
    × ((p : ℕ)
        → byte_at (inorder s.chunk_root) p
          ≡ overlay two_writes p (byte_at (inorder three.chunk_root) p))
read_log_lem_example =
    read_log_lem plain_tree two_writes three two_writes-IsExtent
      (record { level = refl; sorted = three-IsSorted })

run_accepts : Check.run (read_of punched 6) plain_tree 6 (map fields two_writes) ≡ ok tt
unfolding Check.run init_tree read_log clear_hole Check.check_file check_chunk Check.check_from
    Check.slice Check.all_chars insert_chunk restart enter descend overlap cut_before cut_after
run_accepts = refl

run_refuses : Check.run (read_of (λ p. 0) 6) plain_tree 6 (map fields two_writes) ≡ failed
unfolding Check.run init_tree read_log clear_hole Check.check_file check_chunk Check.check_from
    Check.slice Check.all_chars insert_chunk restart enter descend overlap cut_before cut_after
run_refuses = refl

run_iff_example :
    (Check.run (read_of punched 6) plain_tree 6 (map fields two_writes) ≡ ok tt)
    ↔ Agrees punched 6 (λ p. overlay two_writes p (if ltb p 6 then some 0 else none))
run_iff_example =
    run_iff punched 6 plain_tree (read_of punched 6) two_writes (read_of-Reads punched 6)
      (omega arith) (omega arith) two_writes-IsExtent

-- A file of 4 GiB and 3 bytes, of which the fourth byte is not zero.
abbrev spoiled : ℕ → ℕ
spoiled p = if p == 3 then 1 else 0

spoiled_start : (p : ℕ) → p < (2 ^ 32 + 3) % 2 ^ 32 → spoiled p ≡ 0
spoiled_start p h = ground arith

run_misses_tail_example :
    Check.run (read_of spoiled (2 ^ 32 + 3)) plain_tree (2 ^ 32 + 3) [] ≡ ok tt
run_misses_tail_example =
    run_misses_tail spoiled (2 ^ 32 + 3) plain_tree (read_of spoiled (2 ^ 32 + 3))
      (read_of-Reads spoiled (2 ^ 32 + 3)) (omega arith) (omega arith) spoiled_start
