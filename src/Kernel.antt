-- ===== src/Kernel.antt =====
-- What the programs ask of the system: reads and writes of one open file, `mmap`, the asynchronous
-- interface of libaio and the space reservation `ioctl`s of ocfs2. None of it is part of the
-- repository, so it is a parameter, a record of operations on the state of the file.
pub mod Slices
pub mod Sized
use ocfs2_test.Common.{
  ℕ, zero, suc, [], ◌∷◌, min, max, ◌<◌, ◌+◌, ◌-◌, ◌≡◌, Bool, true, ◌&&◌, List, leb, ltb,
  if◌then◌else◌, get_or, length, ◌==◌,
}

-- What a read gives: -1, or the bytes that it has put into the buffer.
pub data Read : Type 0 where
  error : Read
  bytes : List ℕ → Read

-- What a write gives: -1, or the number of bytes written.
pub data Written : Type 0 where
  error : Written
  wrote : ℕ → Written

-- A request of libaio (`io_prep_pwrite`).
pub data Iocb : Type 0 where
  prep_pwrite : List ℕ → ℕ → Iocb

pub record Kernel : Type 1 where
  pub Disk : Type 0
  pub pwrite : List ℕ → ℕ → Disk → Written × Disk
  pub pread : ℕ → ℕ → Disk → Read
  -- `memset` through the mapping of the file
  pub mmap_set : List ℕ → ℕ → Disk → Disk
  -- `io_setup`, `io_submit` of one request and `io_destroy`: whether they succeed
  pub io_setup : ℕ → Disk → Bool × Disk
  pub io_submit : Iocb → Disk → Bool × Disk
  pub io_destroy : Disk → Bool × Disk
  -- `io_getevents`: an error, or the number of events
  pub io_getevents : ℕ → ℕ → Disk → Written × Disk
  -- `OCFS2_IOC_RESVSP64` and `OCFS2_IOC_UNRESVSP64` of a start and a length
  pub resvsp : ℕ → ℕ → Disk → Bool × Disk
  pub unresvsp : ℕ → ℕ → Disk → Bool × Disk
  pub ftruncate : ℕ → Disk → Bool × Disk
  pub fsync : Disk → Disk

-- The bytes `[off, off + n)` of a file.
unfoldable pub slice : (ℕ → ℕ) → ℕ → ℕ → List ℕ
slice file off zero = []
slice file off (suc n) = file off ∷ slice file (suc off) n

-- What a `pread` of an undisturbed file does: it reads as much as is asked for, up to the end.
pub record Reads (pread : ℕ → ℕ → Read) (file : ℕ → ℕ) (size : ℕ) : Type 0 where
  pub reads : (count off : ℕ) → pread count off ≡ bytes (slice file off (min count (size - off)))

-- The file after a write of `buf` at `off`.
abbrev pub splice : (ℕ → ℕ) → ℕ → List ℕ → ℕ → ℕ
splice file off buf p =
    if leb off p && ltb p (off + length buf) then get_or buf (p - off) 0 else file p

-- How a disk with the byte `contents d p` at `p` behaves when nothing disturbs it: a write that is
-- accepted is complete and changes what it covers and nothing else, and a punched hole is zero.
pub record Stores (k : Kernel) (contents : k.Disk → ℕ → ℕ) : Type 0 where
  pub pwrite_full :
      (buf : List ℕ) (off n : ℕ) (d d' : k.Disk)
      → k.pwrite buf off d ≡ (wrote n, d')
      → (p : ℕ) → contents d' p ≡ splice (contents d) off buf p
  pub mmap_full :
      (buf : List ℕ) (off : ℕ) (d : k.Disk) (p : ℕ)
      → contents (k.mmap_set buf off d) p ≡ splice (contents d) off buf p
  pub unresvsp_zero :
      (off len : ℕ) (d d' : k.Disk)
      → k.unresvsp off len d ≡ (true, d')
      → (p : ℕ) → contents d' p ≡ (if leb off p && ltb p (off + len) then 0 else contents d p)

-- A disk that does all that it is asked to: whole writes and reads up to the end of the file, which
-- `size` gives, and a file that reads as zero where a truncation has made it longer.
pub record Keeps (k : Kernel) (contents : k.Disk → ℕ → ℕ) (size : k.Disk → ℕ) : Type 0 where
  pub pwrite_keeps :
      (buf : List ℕ) (off : ℕ) (d : k.Disk)
      → (d' : k.Disk) × (k.pwrite buf off d ≡ (wrote (length buf), d'))
        × ((p : ℕ) → contents d' p ≡ splice (contents d) off buf p)
        × (size d' ≡ (if length buf == 0 then size d else max (size d) (off + length buf)))
  pub pread_keeps :
      (count off : ℕ) (d : k.Disk)
      → k.pread count off d ≡ bytes (slice (contents d) off (min count (size d - off)))
  pub ftruncate_keeps :
      (n : ℕ) (d : k.Disk)
      → (d' : k.Disk) × (k.ftruncate n d ≡ (true, d'))
        × ((p : ℕ) → p < n → contents d' p ≡ (if ltb p (size d) then contents d p else 0))
        × (size d' ≡ n)
  pub fsync_keeps :
      (d : k.Disk) → ((p : ℕ) → contents (k.fsync d) p ≡ contents d p) × (size (k.fsync d) ≡ size d)
