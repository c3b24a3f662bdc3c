-- ===== src/Holes/Fill.antt =====
-- programs/fill_verify_holes/fill_holes.c: random (or replayed) writes to a file, and their log.
pub mod Bounds
pub mod Chunks
pub mod Program
pub mod Waits
pub mod Trip
pub mod Ends
pub mod Accepted
use ocfs2_test.Common.{
  ℕ, zero, suc, ◌+◌, ◌-◌, ◌*◌, ◌/◌, ◌%◌, ◌^◌, Bool, true, false, ◌&&◌, ◌||◌, not, Option, none,
  some, List, [], ◌∷◌, leb, ltb, ◌==◌, if◌then◌else◌, replicate, Result, ok, failed, aborted,
  out_of_fuel, ◌>>=◌,
}
use ocfs2_test.Kernel.{Kernel, Read, Written, error, wrote, bytes}
use ocfs2_test.Aio.{Aio, aio_setup, aio_pwrite, aio_query, aio_destroy}
use ocfs2_test.Holes.{WriteUnit, max_write_size, rand_char_start, add64, sub64, to_u32}
use ocfs2_test.Holes.Draw.{draw, align_in}
use ocfs2_test.Holes.Replay.{Scan, fields, malformed}

-- `TWO_GIGA_BYTE` and `ONE_MEGA_BYTE`
abbrev pub two_giga_byte : ℕ
two_giga_byte = 2147483648

abbrev pub one_mega_byte : ℕ
one_mega_byte = 1024 * 1024

-- The option flags.
pub record Options : Type 0 where
  pub max_iter : ℕ
  pub use_mmap : Bool
  pub use_dio : Bool
  pub is_bdev : Bool
  pub enable_aio : Bool

-- The static variables that the generator changes, and the calls of `rand()` so far.
pub record Gen : Type 0 where
  pub file_size : ℕ
  pub max_iter_per_chunk : ℕ
  pub cur_iter_per_chunk : ℕ
  pub cur_iter_offset : ℕ
  pub drawn : ℕ

-- `fh_get_device_size`, which may fail.
unfoldable pub device : Option ℕ → Result ℕ
device none = failed
device (some n) = ok n

-- The end of `fh_parse_opts`: the size, of the argument or of the device, and the refusal of `-m`.
unfoldable pub option_size : Options → ℕ → Option ℕ → Result ℕ
unfolding device
option_size o size device_size =
    (if o.is_bdev
      then device device_size
      else ok (if o.use_dio then align_in 64 one_mega_byte size else size))
    >>= λ n. if o.use_mmap && (ltb two_giga_byte n || o.is_bdev) then failed else ok n

-- `main`, before the loop.
unfoldable pub setup : Options → ℕ → Gen
setup o size =
    let num_chunks = size / two_giga_byte in
    if ltb two_giga_byte size
    then record {
      file_size = num_chunks * two_giga_byte;
      max_iter_per_chunk = to_u32 (o.max_iter / num_chunks);
      cur_iter_per_chunk = 0;
      cur_iter_offset = 0;
      drawn = 0;
    }
    else record {
      file_size = size;
      max_iter_per_chunk = 0;
      cur_iter_per_chunk = 0;
      cur_iter_offset = 0;
      drawn = 0;
    }

-- The chunk counters at the head of `fh_prep_rand_write_unit`.
unfoldable pub next_chunk : Gen → Gen
next_chunk g =
    if g.cur_iter_per_chunk == g.max_iter_per_chunk
    then record g {
      cur_iter_per_chunk = 0;
      cur_iter_offset = add64 g.cur_iter_offset two_giga_byte;
    }
    else record g { cur_iter_per_chunk = to_u32 (g.cur_iter_per_chunk + 1) }

-- The offset and the length that two random numbers give, cut at the end of the file.
unfoldable pub place : Bool → Gen → ℕ → ℕ → ℕ × ℕ
place use_dio g r q =
    let offset = add64 (if use_dio then align_in 64 512 r else r) g.cur_iter_offset in
    let len = (if use_dio then align_in 32 512 (to_u32 q) else to_u32 q) in
    (offset, if ltb g.file_size (add64 offset len) then to_u32 (sub64 g.file_size offset) else len)

-- One pass from the label `again`: the offset, the length and the calls of `rand()` after it.
unfoldable pub attempt : Options → (ℕ → ℕ) → ℕ → Gen → ℕ × ℕ × ℕ
attempt o stream max_range g =
    let (r, i) = draw stream 0 max_range g.drawn in
    let (q, j) = draw stream 1 max_write_size i in
    let (offset, len) = place o.use_dio g r q in (offset, len, j)

-- The `assert`s at the end of `fh_prep_rand_write_unit`.
unfoldable pub asserts : WriteUnit → Bool
asserts w =
    leb rand_char_start w.char && (leb w.char b'z' && (leb w.len max_write_size && ltb 0 w.len))

-- From the label `again` on; each `goto again` takes one unit of fuel.
unfoldable pub draw_unit : ℕ → Options → (ℕ → ℕ) → ℕ → ℕ → Gen → Result (WriteUnit × Gen)
draw_unit zero o stream char max_range g = out_of_fuel
draw_unit (suc f) o stream char max_range g =
    let (offset, len, j) = attempt o stream max_range g in
    let again = draw_unit f o stream char max_range (record g { drawn = j }) in
    let w : WriteUnit = record { char = char; offset = offset; len = len } in
    if len == 0 || (o.use_dio && ltb len 512)
    then again
    else if asserts w
    then ok (w, record g { drawn = j })
    else aborted

-- The range of the offsets, with the `assert` on the size of a file that is not cut into chunks.
unfoldable pub range_of : Gen → Result (ℕ × Gen)
range_of g =
    if not (g.max_iter_per_chunk == 0)
    then ok (two_giga_byte - 1, next_chunk g)
    else if leb g.file_size two_giga_byte
    then ok (to_u32 (sub64 g.file_size 1), g)
    else aborted

-- `fh_prep_rand_write_unit`
unfoldable pub prep_rand_write_unit : ℕ → Options → (ℕ → ℕ) → Gen → Result (WriteUnit × Gen)
prep_rand_write_unit f o stream g = range_of g >>= λ (max_range, g').
    (let (c, i) = draw stream 0 52 g'.drawn in
      draw_unit f o stream (rand_char_start + c) max_range (record g' { drawn = i }))
