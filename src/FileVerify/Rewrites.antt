-- ===== src/FileVerify/Rewrites.antt =====
-- file_verify.c: a file is prepared, some of its chunks are written again, any number of times, and the
-- file is verified with the log of these writes.
use ocfs2_test.Common.{ℕ, ◌+◌, ◌*◌, ◌^◌, ◌≤◌, ◌<◌, List, Option, none}
use ocfs2_test.Kernel.{Kernel}
use ocfs2_test.FileVerify.{WriteRecord}
use ocfs2_test.FileVerify.Places.{Sinks, at_offset}
use ocfs2_test.FileVerify.Store.{IsUnit, store}
use ocfs2_test.FileVerify.Units.{Ticks}
use ocfs2_test.FileVerify.Prepared.{or_blank, prepared}

-- A disk that writes where it is told to, and `n` chunks.
module _ (k : Kernel) (contents : k.Disk → ℕ → ℕ) (size : k.Disk → ℕ) (stream : ℕ → ℕ)
    (clock : ℕ → ℕ × ℕ) (n chunksize f align : ℕ) (tmp : ℕ → ℕ)
    (sinks : Sinks k contents size at_offset) (ticks : Ticks clock) (room : 40 < chunksize)
    (size_fits : chunksize < 2 ^ 32) (pos : 0 < n) (fits : chunksize * n + chunksize < 2 ^ 64)
    (le : chunksize ≤ f) where
  abbrev IsLogged : WriteRecord → Type 0
  IsLogged wu = IsUnit n chunksize wu × (0 < wu.timestamp)

  abbrev first : ℕ → ℕ → List WriteRecord
  first r t = prepared align tmp stream clock chunksize 0 n r t

  -- The write unit of each chunk, before the logged writes and after them.
  abbrev before : ℕ → ℕ → ℕ → Option WriteRecord
  before r t = store (λ j c. c) 0 (first r t) (λ s. none)

  abbrev held : ℕ → ℕ → List WriteRecord → ℕ → WriteRecord
  held r t log c = or_blank (store (λ j c. c) 0 log (before r t) c)
