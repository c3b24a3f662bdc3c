-- ===== src/Truncate.antt =====
-- programs/truncate/verify_truncate.c: a file of whole clusters is truncated to a random size and
-- extended again; what is left must read as the pattern and then as zeroes.
pub mod Prep
pub mod Check
pub mod Run
mod Tests
use Prim.Native.Nat.{bit_or}
use ocfs2_test.Common.{
  ℕ, zero, suc, ◌+◌, ◌-◌, ◌*◌, ◌/◌, ◌%◌, ◌^◌, Bool, true, false, ◌&&◌, not, Option, none, some,
  List, [], ◌∷◌, ◌++◌, ltb, ◌==◌, if◌then◌else◌, length, take, drop, replicate, same_bytes, add64,
  sub64, Result, ok, failed, out_of_fuel, ◌>>=◌,
}
use ocfs2_test.Kernel.{Kernel, Read, error, bytes, Written, wrote}

-- `get_rand_ull`, in `unsigned long long`, and the calls of `rand()` after it.
unfoldable pub get_rand_ull : (ℕ → ℕ) → ℕ → ℕ → ℕ → ℕ × ℕ
get_rand_ull stream lo hi i =
    let rand1 = stream i * 2 ^ 32 % 2 ^ 64 in
    let rand2 = stream (i + 1) * 2 ^ 16 % 2 ^ 64 in
    let big_rand = bit_or (bit_or rand1 rand2) (stream (i + 2)) in
    if lo == 0 && hi == 0 then (0, i) else (add64 lo (big_rand % add64 (sub64 hi lo) 1), i + 3)

-- `get_rand_buf`, with `rand_char`.
unfoldable pub get_rand_buf : (ℕ → ℕ) → ℕ → ℕ → List ℕ × ℕ
get_rand_buf stream zero i = ([], i)
get_rand_buf stream (suc n) i =
    let (c, j) = get_rand_ull stream 0 25 i in
    let (rest, l) = get_rand_buf stream n j in ((b'A' + c) ∷ rest, l)

-- `clustersize`, `clusters` and `pattern`.
pub record Setup : Type 0 where
  pub clustersize : ℕ
  pub clusters : ℕ
  pub pattern : List ℕ

-- `last_pattern`, and `last_cluster`, which is -1 for an empty file.
pub record Last : Type 0 where
  pub last_pattern : List ℕ
  pub last_cluster : Option ℕ

abbrev one_less : ℕ → Option ℕ
one_less zero = none
one_less (suc n) = some n

-- What `file_truncate` computes from the new size.
unfoldable pub last_of : Setup → ℕ → Last
last_of o new_i_size =
    let r = new_i_size % o.clustersize in
    let q = new_i_size / o.clustersize in
    record {
      last_pattern =
          if r == 0 then o.pattern else take r o.pattern ++ replicate (o.clustersize - r) 0;
      last_cluster = if r == 0 then one_less q else some q;
    }

module _ (k : Kernel) where
  open k use {Disk, pwrite, pread, ftruncate, fsync}

  -- A `pwrite` whose result is not negative.
  unfoldable pub wrote_some : Written × Disk → Result Disk
  wrote_some (error, d) = failed
  wrote_some (wrote n, d) = ok d

  -- The loops of `prep_file_with_pattern` on the file and, unless `once`, on the temporary file;
  -- each round takes one unit of fuel.
  unfoldable pub prep_file : ℕ → Bool → ℕ → ℕ → List ℕ → ℕ → Disk → Disk → Result (Disk × Disk)
  unfolding wrote_some
  prep_file zero once size chunk_size buf offset d t = out_of_fuel
  prep_file (suc f) once size chunk_size buf offset d t =
      let write_size =
        if ltb size (add64 offset chunk_size) then sub64 size offset else chunk_size in
      let next = add64 offset write_size in
      let chunk = take write_size buf in
      if ltb offset size
      then (wrote_some (pwrite chunk offset d) >>= λ d'.
          (if once then ok t else wrote_some (pwrite chunk offset t)) >>= λ t'.
          prep_file f once size chunk_size buf next d' t')
      else ok (d, t)

  -- `truncate` of the file: 0 is `true`.
  unfoldable pub truncated : Bool × Disk → Result Disk
  truncated (true, d) = ok d
  truncated (false, d) = failed

  -- `file_truncate`
  unfoldable pub file_truncate : Setup → ℕ → Disk → Result (Last × Disk)
  unfolding truncated
  file_truncate o new_i_size d =
      truncated (ftruncate new_i_size d) >>= λ d'. ok (last_of o new_i_size, d')

  -- `pread` into `buf`, which keeps what the call does not overwrite.
  unfoldable pub read_into : List ℕ → Read → Result (List ℕ)
  read_into buf error = failed
  read_into buf (bytes bs) = ok (bs ++ drop (length bs) buf)

  -- One `pread` of a cluster and the `memcmp` with what it should hold.
  unfoldable pub check_cluster : Setup → List ℕ → List ℕ → ℕ → Disk → Result (List ℕ)
  unfolding read_into
  check_cluster o buf expected i d =
      read_into buf (pread o.clustersize (i * o.clustersize) d) >>= λ buf'.
      (if same_bytes buf' expected then ok buf' else failed)

  -- The `for` loop, with `n` rounds left.
  unfoldable pub check_clusters : Setup → ℕ → ℕ → List ℕ → Disk → Result (List ℕ)
  check_clusters o zero i buf d = ok buf
  check_clusters o (suc n) i buf d =
      check_cluster o buf o.pattern i d >>= λ buf'. check_clusters o n (i + 1) buf' d

  -- The last cluster, before and after the `fsync`.
  unfoldable pub check_last : Setup → List ℕ → ℕ → List ℕ → Disk → Result (Unit {0})
  check_last o last_pattern last buf d = check_cluster o buf last_pattern last d >>= λ buf'.
      check_cluster o buf' last_pattern last (fsync d) >>= λ buf''. ok tt

  -- `verify_truncate`; `last_cluster - 1` rounds are none for 0, as the numbers are signed.
  unfoldable pub verify_truncate : Setup → Last → Disk → Result (Unit {0})
  verify_truncate o l d = elim l.last_cluster [
    | none ↦ ok tt
    | some last ↦ check_clusters o (last - 1) 0 (replicate o.clustersize 0) d >>= λ buf.
        check_last o l.last_pattern last buf d
  ]

  -- The middle of `run`: the file is extended to whole clusters.
  unfoldable pub extend : Setup → ℕ → Disk → Result Disk
  unfolding truncated
  extend o new_size d =
      if not (new_size % o.clustersize == 0)
      then truncated (ftruncate ((new_size / o.clustersize + 1) * o.clustersize) d)
      else ok d

  -- `run`, up to the `unlink`; `f` bounds the rounds of `prep_file_with_pattern`.
  unfoldable pub run : ℕ → Setup → (ℕ → ℕ) → ℕ → Disk → Disk → Result (Unit {0})
  run f o stream i d t =
      let total = o.clusters * o.clustersize in
      let (new_size, j) = get_rand_ull stream 0 total i in
      prep_file f false total o.clustersize o.pattern 0 d t >>= λ (d1, t1).
      file_truncate o new_size d1 >>= λ (l, d2).
      extend o new_size d2 >>= λ d3. verify_truncate o l d3
