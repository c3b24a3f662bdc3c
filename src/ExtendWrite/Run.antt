-- ===== src/ExtendWrite/Run.antt =====
-- The two processes of extend_and_write.c, in any order, and then verify.c.
use ocfs2_test.Common.{ℕ, ◌+◌, ◌*◌, ◌≡◌, Bool, List, length}
use ocfs2_test.Kernel.{wrote, splice}
use ocfs2_test.ExtendWrite.{Appended, Writer, at, bailed}
use ocfs2_test.ExtendWrite.Blocks.{count_as, count_bs, AreBlocks}

-- A file to which a whole write appends its bytes.
pub record Grows (k : Appended) (contents : k.Disk → ℕ → ℕ) (size : k.Disk → ℕ) : Type 0 where
  pub write_whole :
      (buf : List ℕ) (d d' : k.Disk)
      → k.write buf d ≡ (wrote (length buf), d')
      → (size d' ≡ size d + length buf)
        × ((p : ℕ) → contents d' p ≡ splice (contents d) (size d) buf p)
  pub fsync_same :
      (d : k.Disk) → (size (k.fsync d) ≡ size d) × ((p : ℕ) → contents (k.fsync d) p ≡ contents d p)

module _ (k : Appended) (contents : k.Disk → ℕ → ℕ) (size : k.Disk → ℕ)
    (grows : Grows k contents size) (off loops : ℕ) where
  -- The file after `i` writes of the parent and `j` of the child.
  record Extended (i j : ℕ) (d : k.Disk) : Type 0 where
    blocks : List Bool
    as_many : count_as blocks ≡ i
    bs_many : count_bs blocks ≡ j
    ends : size d ≡ off * length blocks
    are_blocks : AreBlocks (contents d) off 0 blocks

  abbrev Sound : Writer → Writer → k.Disk → Type 0
  Sound (at i) (at j) d = Extended i j d
  Sound (at i) bailed d = Unit
  Sound bailed c d = Unit
