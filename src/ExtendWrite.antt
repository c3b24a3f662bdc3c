-- ===== src/ExtendWrite.antt =====
-- programs/extend_and_write: extend_and_write.c lets two processes append blocks to one file, each with
-- its own letter, and verify.c reads the blocks back and counts them.
pub mod Blocks
pub mod Run
pub mod Sound
mod Tests
use ocfs2_test.Common.{
  ℕ, zero, suc, ◌+◌, ◌*◌, ◌<◌, ◌≡◌, ◌≢◌, Bool, true, false, ◌&&◌, ◌||◌, not, List, [], ◌∷◌, length,
  get_or, replicate, ltb, ◌==◌, if◌then◌else◌, Result, ok, failed, ◌>>=◌,
}
use ocfs2_test.Kernel.{Read, Written, error, bytes, wrote}

-- What the programs ask of the system: `write` on a descriptor with `O_APPEND`, `fsync`, and `read` of a
-- count at the position of the descriptor.
pub record Appended : Type 1 where
  pub Disk : Type 0
  pub write : List ℕ → Disk → Written × Disk
  pub fsync : Disk → Disk
  pub read : ℕ → ℕ → Disk → Read

-- A process of extend_and_write.c: in the loop, with the writes that it has done, or at `bail`.
pub data Writer : Type 0 where
  at : ℕ → Writer
  bailed : Writer

-- `checkbuff`: whether it returns 0.
unfoldable pub checkbuff : List ℕ → ℕ → Bool
checkbuff [] c = true
checkbuff (b ∷ bs) c = b == c && checkbuff bs c

module _ (k : Appended) where
  open k use {Disk, write, fsync, read}

  -- One round of a loop: a whole block, or an error or a short write, which ends the process.
  pub data WriterStep (off loops letter : ℕ) (d : Disk) : Writer → Writer → Disk → Type 0 where
    whole :
        (i : ℕ) (d' : Disk)
        → i < loops
        → write (replicate off letter) d ≡ (wrote off, d')
        → WriterStep off loops letter d (at i) (at (suc i)) (fsync d')
    short :
        (i n : ℕ) (d' : Disk)
        → i < loops
        → n ≢ off
        → write (replicate off letter) d ≡ (wrote n, d')
        → WriterStep off loops letter d (at i) bailed d'
    fails :
        (i : ℕ) (d' : Disk)
        → i < loops
        → write (replicate off letter) d ≡ (error, d')
        → WriterStep off loops letter d (at i) bailed d'

  -- The parent writes 'A', the child 'B', in any order.
  pub data Runs (off loops : ℕ) (d0 : Disk) : Writer → Writer → Disk → Type 0 where
    forked : Runs off loops d0 (at 0) (at 0) d0
    parent :
        (p p' c : Writer) (d d' : Disk)
        → Runs off loops d0 p c d
        → WriterStep off loops b'A' d p p' d'
        → Runs off loops d0 p' c d'
    child :
        (p c c' : Writer) (d d' : Disk)
        → Runs off loops d0 p c d
        → WriterStep off loops b'B' d c c' d'
        → Runs off loops d0 p c' d'

  -- The loop of verify.c over the blocks, `left` of them from `position` on: `numas` and `numbs`.
  unfoldable pub count_blocks : ℕ → ℕ → ℕ → ℕ → ℕ → Disk → Result (ℕ × ℕ)
  count_blocks off zero position numas numbs d = ok (numas, numbs)
  count_blocks off (suc left) position numas numbs d = elim (read off position d) [
    | error ↦ failed
    | bytes buffer ↦
        let first = get_or buffer 0 0 in
        let rest : ℕ → ℕ → Result (ℕ × ℕ) =
          λ a b. count_blocks off left (position + length buffer) a b d in
        if not (length buffer == off)
        then failed
        else if not (first == b'A') && not (first == b'B')
        then failed
        else if not (checkbuff buffer first)
        then failed
        else if first == b'A'
        then rest (suc numas) numbs
        else rest numas (suc numbs)
  ]

  -- main of verify.c.
  unfoldable pub verify : ℕ → ℕ → Disk → Result (Unit {0})
  verify off loops d = count_blocks off (2 * loops) 0 0 0 d >>= λ (numas, numbs).
      if not (numas == numbs) || ltb numas loops || ltb numbs loops then failed else ok tt
