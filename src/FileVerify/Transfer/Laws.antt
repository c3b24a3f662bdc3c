-- ===== src/FileVerify/Transfer/Laws.antt =====
-- `read_at` and `write_at` of file_verify.c on a file of a fixed size.
use ocfs2_test.Common.{
  ℕ, ◌+◌, ◌-◌, ◌≤◌, ◌<◌, ◌≡◌, refl, List, [], length, take, ok, out_of_fuel, min,
}
use ocfs2_test.Kernel.{Kernel, bytes, wrote, slice, splice}
use ocfs2_test.FileVerify.Transfer.{read_at, write_at}
use ocfs2_test.FileVerify.Transfer.Partial.{
  Gets, Gets-read_at, Gets-read_at_stuck, Puts, Puts-write_at,
}

-- A file of `size` bytes that moves a byte at least, and perhaps fewer than asked for, with each
-- call.
pub record Moves (k : Kernel) (contents : k.Disk → ℕ → ℕ) (size : ℕ) : Type 0 where
  pub pread_some :
      (count off : ℕ) (d : k.Disk)
      → 0 < count
      → off + count ≤ size
      → (n : ℕ) × (0 < n) × (n ≤ count) × (k.pread count off d ≡ bytes (slice (contents d) off n))
  pub pread_past : (count off : ℕ) (d : k.Disk) → size ≤ off → k.pread count off d ≡ bytes []
  pub pwrite_some :
      (buf : List ℕ) (off : ℕ) (d : k.Disk)
      → 0 < length buf
      → (n : ℕ) × (d' : k.Disk) × (0 < n)
        × (n ≤ length buf)
        × (k.pwrite buf off d ≡ (wrote n, d'))
        × ((p : ℕ) → contents d' p ≡ splice (contents d) off (take n buf) p)

module _ (k : Kernel) (contents : k.Disk → ℕ → ℕ) (size : ℕ) (moves : Moves k contents size) where
  pub Moves-Gets : (d : k.Disk) → Gets k (contents d) size d
  Moves-Gets d = record {
    pread_some = λ count off pos inside. moves.pread_some count off d pos inside;
    pread_past = λ count off past. moves.pread_past count off d past;
  }

  Moves-Puts : Puts k contents (λ off d. off) (λ d e d'. Unit)
  Moves-Puts = record {
    pwrite_some = λ buf off d pos.
        (let (n, d', some_byte, most, e, one) = moves.pwrite_some buf off d pos in
          (n, d', some_byte, most, e, one, refl, tt));
    grew_more = λ d d1 d2 e e' le a b. tt;
  }

  -- `read_at` from inside the file gives the bytes up to `count` or the end of the file, though each
  -- `pread` may give fewer than asked for; fuel for one call per byte is enough.
  pub read_at_lem :
      (f count off : ℕ) (d : k.Disk)
      → off ≤ size
      → count ≤ f
      → read_at k f count off size d ≡ ok (slice (contents d) off (min count (size - off)))
  read_at_lem f count off d inside le =
      Gets-read_at k (contents d) size d (Moves-Gets d) f count off inside le

  -- `read_at` from behind the end of the file does not return: the bytes to read are not cut, and
  -- `pread` gives none, however often it is called.
  pub read_at_stuck :
      (f count off : ℕ) (d : k.Disk)
      → size < off
      → 0 < count
      → read_at k f count off size d ≡ out_of_fuel
  read_at_stuck f count off d past pos =
      Gets-read_at_stuck k (contents d) size d (Moves-Gets d) f count off past pos

  -- `write_at` ends, and the file then has the whole buffer, though each `pwrite` may take fewer
  -- bytes than it is given; fuel for one call per byte is enough.
  pub write_at_lem :
      (f : ℕ) (buf : List ℕ) (off : ℕ) (d : k.Disk)
      → 0 < length buf
      → length buf ≤ f
      → (d' : k.Disk) × (write_at k f buf off d ≡ ok d')
        × ((p : ℕ) → contents d' p ≡ splice (contents d) off buf p)
  write_at_lem f buf off d pos le =
      let (d', e, now, grew) =
        Puts-write_at k contents (λ off d. off) (λ d e d'. Unit) Moves-Puts f buf off d pos le in
      (d', e, now)
