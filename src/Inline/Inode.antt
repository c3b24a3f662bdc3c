-- ===== src/Inline/Inode.antt =====
-- What inline-data asks of an ocfs2 volume beside the calls of `Kernel`, for the one file it works
-- on, and how a volume behaves that keeps small files in their inodes.
use ocfs2_test.Common.{
  ℕ, ◌+◌, ◌-◌, ◌≤◌, ◌≡◌, Bool, true, false, ◌&&◌, not, Option, some, List, leb, ltb, ◌==◌,
  if◌then◌else◌, length, min, max,
}
use ocfs2_test.Kernel.{Kernel, bytes, wrote, slice, splice}

-- The two names that are looked up: `WORK_PLACE` and that of the file.
pub data Name : Type 0 where
  work_place : Name
  dirent : Name

-- `OCFS2_IOC_RESVSP` and `OCFS2_IOC_UNRESVSP`, and the results 0, -1 with `ENOTTY` and -1.
pub data Request : Type 0 where
  resvsp : Request
  unresvsp : Request

pub data Reply : Type 0 where
  done : Reply
  enotty : Reply
  errno : Reply

pub record Volume (k : Kernel) : Type 0 where
  -- `open` with `O_CREAT`, `O_RDWR` and `O_TRUNC`, and with `O_DIRECT` or not: whether it succeeds
  pub create : Bool → k.Disk → Bool × k.Disk
  -- `open` with `O_RDWR` and `O_DIRECT`
  pub open_direct : k.Disk → Bool × k.Disk
  pub fsync : k.Disk → Bool × k.Disk
  pub fdatasync : k.Disk → Bool × k.Disk
  pub sync : k.Disk → k.Disk
  -- whether `mmap` of a length succeeds, and what the mapping reads
  pub mmap : ℕ → k.Disk → Bool
  pub mapped : k.Disk → ℕ → ℕ
  pub ioctl : Request → ℕ → ℕ → k.Disk → Reply × k.Disk
  -- libocfs2: the root directory, `ocfs2_lookup` in a directory, and of `ocfs2_read_inode` the flag
  -- `OCFS2_INLINE_DATA_FL`
  pub root_blkno : ℕ
  pub lookup : ℕ → Name → k.Disk → Option ℕ
  pub read_inode : ℕ → k.Disk → Option Bool

-- A file as a volume with inline data keeps it.
pub record File : Type 0 where
  pub size : ℕ
  pub content : ℕ → ℕ
  pub inlined : Bool
  pub direct : Bool

-- What the calls do to it. Data are in the inode as long as the file has never been longer than
-- `limit`, mapped for writing, or written without the cache.
abbrev pub created : Bool → File
created direct = record { size = 0; content = λ p. 0; inlined = true; direct = direct }

abbrev pub reopened : File → File
reopened f = record { size = f.size; content = f.content; inlined = f.inlined; direct = true }

abbrev pub written : ℕ → List ℕ → ℕ → File → File
written limit buf off f = record {
  size = if length buf == 0 then f.size else max f.size (off + length buf);
  content = splice f.content off buf;
  inlined = f.inlined && (leb (off + length buf) limit && not f.direct);
  direct = f.direct;
}

abbrev pub resized : ℕ → ℕ → File → File
resized limit n f = record {
  size = n;
  content = λ p. if ltb p f.size then f.content p else 0;
  inlined = f.inlined && leb n limit;
  direct = f.direct;
}

abbrev pub reserved : ℕ → ℕ → ℕ → File → File
reserved limit off len f = record {
  size = f.size;
  content = f.content;
  inlined = f.inlined && leb (off + len) limit;
  direct = f.direct;
}

abbrev pub punched : ℕ → ℕ → File → File
punched off len f = record {
  size = f.size;
  content = λ p. if leb off p && ltb p (off + len) then 0 else f.content p;
  inlined = f.inlined;
  direct = f.direct;
}

abbrev pub map_written : List ℕ → ℕ → File → File
map_written buf off f = record {
  size = f.size;
  content = splice f.content off buf;
  inlined = false;
  direct = f.direct;
}

-- A call that succeeds.
abbrev pub Succeeds : {D : Type 0} → (D → File) → Bool × D → File → Type 0
Succeeds {D = D} view r f = (d' : D) × (r ≡ (true, d')) × (view d' ≡ f)

-- A volume on which all calls but `ioctl` succeed and do what `File` says.
pub record Inlines (k : Kernel) (v : Volume k) (limit : ℕ) (view : k.Disk → File) : Type 0 where
  pub create_inlines :
      (direct : Bool) (d : k.Disk) → Succeeds view (v.create direct d) (created direct)
  pub open_inlines : (d : k.Disk) → Succeeds view (v.open_direct d) (reopened (view d))
  pub pwrite_inlines :
      (buf : List ℕ) (off : ℕ) (d : k.Disk)
      → (d' : k.Disk) × (k.pwrite buf off d ≡ (wrote (length buf), d'))
        × (view d' ≡ written limit buf off (view d))
  pub pread_inlines :
      (count off : ℕ) (d : k.Disk)
      → k.pread count off d ≡ bytes (slice (view d).content off (min count ((view d).size - off)))
  pub ftruncate_inlines :
      (n : ℕ) (d : k.Disk) → Succeeds view (k.ftruncate n d) (resized limit n (view d))
  pub fsync_inlines : (d : k.Disk) → Succeeds view (v.fsync d) (view d)
  pub fdatasync_inlines : (d : k.Disk) → Succeeds view (v.fdatasync d) (view d)
  pub sync_inlines : (d : k.Disk) → view (v.sync d) ≡ view d
  pub mmap_inlines : (n : ℕ) (d : k.Disk) → v.mmap n d ≡ true
  pub mmap_set_inlines :
      (buf : List ℕ) (off : ℕ) (d : k.Disk)
      → off + length buf ≤ (view d).size
      → view (k.mmap_set buf off d) ≡ map_written buf off (view d)
  pub lookup_inlines :
      (dir : ℕ) (name : Name) (d : k.Disk) → (n : ℕ) × (v.lookup dir name d ≡ some n)
  pub read_inode_inlines : (n : ℕ) (d : k.Disk) → v.read_inode n d ≡ some (view d).inlined

-- A volume with the ioctls of space reservation.
pub record Reserves (k : Kernel) (v : Volume k) (limit : ℕ) (view : k.Disk → File) : Type 0 where
  pub resvsp_reserves :
      (off len : ℕ) (d : k.Disk)
      → (d' : k.Disk) × (v.ioctl resvsp off len d ≡ (done, d'))
        × (view d' ≡ reserved limit off len (view d))
  pub unresvsp_reserves :
      (off len : ℕ) (d : k.Disk)
      → (d' : k.Disk) × (v.ioctl unresvsp off len d ≡ (done, d'))
        × (view d' ≡ punched off len (view d))
