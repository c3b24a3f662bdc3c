-- ===== src/Holes/Tests/Punch.antt =====
-- Runs of punch_holes, and the theorems about it at concrete inputs.
use ocfs2_test.Common.{
  ℕ, ◌+◌, ◌*◌, ◌&&◌, ◌≡◌, ◌≤◌, refl, false, List, [], ◌∷◌, ◌++◌, map, ok, replicate, length, arith,
  leb, ltb, if◌then◌else◌,
}
use ocfs2_test.Kernel.{splice}
use ocfs2_test.Holes.{WriteUnit, magic_hole_char}
use ocfs2_test.Holes.Replay.{fields}
use ocfs2_test.Holes.Check
use ocfs2_test.Holes.Draw.{get_rand, draw}
use ocfs2_test.Holes.Fill.{asserts}
use ocfs2_test.Holes.Fill.Program.{no_log, replay_eof}
use ocfs2_test.Holes.Punch.{
  random_unit, random_write, next_write, is_random, move_to, write_unit, populate, punch_loop,
  punch_run,
}
use ocfs2_test.Holes.Punch.Populate.{Accepts, Populated, populate-Populated}
use ocfs2_test.Holes.Punch.Gaps.{populate_gap}
use ocfs2_test.Holes.Punch.Accepted.{punch_then_verify}
use ocfs2_test.Holes.Punch.Ends.{punch_run_returns}
use ocfs2_test.Holes.Models.{plain_tree, read_of, read_of-Reads, memory, memory-Stores}

memory-Accepts : Accepts memory
memory-Accepts = record { accepts = λ buf off d. (length buf, splice d off buf, refl) }

-- `rand()` counts from 5 in steps of 7.
abbrev numbers : ℕ → ℕ
numbers i = 5 + 7 * i

abbrev zeroes : ℕ → ℕ
zeroes p = 0

abbrev writes : List WriteUnit
writes =
    record { char = b'F'; offset = 0; len = 19 }
    ∷ record { char = b'['; offset = 19; len = 40 }
    ∷ record { char = b'p'; offset = 78; len = 22 }
    ∷ []

abbrev written : ℕ → ℕ
written =
    splice (splice (splice zeroes 0 (replicate 19 b'F')) 19 (replicate 40 b'[')) 78
      (replicate 22 b'p')

abbrev punched : ℕ → ℕ
punched p = if leb 75 p && ltb p (75 + 25) then 0 else written p

populate_runs :
    populate memory 4 1 false numbers 100 no_log 0 0 zeroes ≡ ok (writes, no_log, 9, written)
unfolding populate next_write is_random move_to write_unit random_write random_unit asserts draw
    get_rand
populate_runs = refl

abbrev hole : WriteUnit
hole = record { char = magic_hole_char; offset = 75; len = 25 }

punch_runs :
    punch_run memory 4 1 1 false numbers 100 no_log zeroes ≡ ok (writes ++ (hole ∷ []), punched)
unfolding punch_run punch_loop populate replay_eof next_write is_random move_to write_unit
    random_write random_unit asserts draw get_rand
punch_runs = refl

populate-Populated_example :
    Populated memory
      (λ d. d)
      memory-Stores
      memory-Accepts
      0
      100
      zeroes
      (populate memory 4 1 false numbers 100 no_log 0 0 zeroes)
populate-Populated_example =
    populate-Populated memory (λ d. d) memory-Stores memory-Accepts 1 numbers 100 (omega arith) 4 0
      0 zeroes

populate_gap_example : written (19 + 40) ≡ zeroes (19 + 40)
populate_gap_example =
    populate_gap memory (λ d. d) memory-Stores memory-Accepts 4 1 numbers 100 0 9 zeroes written
      (record { char = b'F'; offset = 0; len = 19 }) (record { char = b'['; offset = 19; len = 40 })
      (record { char = b'p'; offset = 78; len = 22 } ∷ []) no_log (omega arith) populate_runs

punch_then_verify_example :
    Check.run (read_of punched 100) plain_tree 100 (map fields (writes ++ (hole ∷ []))) ≡ ok tt
punch_then_verify_example =
    punch_then_verify memory (λ d. d) memory-Stores memory-Accepts 4 1 1 numbers 100 zeroes punched
      (writes ++ (hole ∷ [])) plain_tree (read_of punched 100) (omega arith) (omega arith)
      (λ p h. refl) punch_runs (read_of-Reads punched 100)

punch_run_returns_example :
    (log : List WriteUnit) × (d : ℕ → ℕ) × (3 ≤ length log)
    × (punch_run memory 101 1 3 false (λ i. 5) 100 no_log zeroes ≡ ok (log, d))
punch_run_returns_example =
    punch_run_returns memory 0 (λ i. 5) 100
      (record { several = omega arith; fits = omega arith; some_len = λ j. omega arith }) 3 zeroes
      (λ off len d. refl)
