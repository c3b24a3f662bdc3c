-- ===== src/Holes/Fill/Chunks.antt =====
-- `fh_prep_rand_write_unit` over the iterations of `main`: the region of 2 GiB that the
-- writes go to.
use ocfs2_test.Common.{
  ℕ, ◌+◌, ◌-◌, ◌*◌, ◌/◌, ◌%◌, ◌^◌, ◌≤◌, ◌<◌, ◌≡◌, refl, true, ◌⊎◌, inl, inr, ◌==◌, ltb, Result, ok,
  failed, aborted, out_of_fuel, arith, Bool-cases, ◌≢◌, ◌∙◌,
}
use native.Mathlib.Nat.{mod-lt, div-add-mod, div-le_self}
use ocfs2_test.Holes.{WriteUnit, rand_char_start}
use ocfs2_test.Holes.Draw.{draw}
use ocfs2_test.Holes.Fill.{
  Options, Gen, range_of, prep_rand_write_unit, two_giga_byte, next_chunk, setup,
}
use ocfs2_test.Holes.Fill.Bounds.{Fits, IsDrawn, Drawn, draw_unit-Drawn, draw_char-le}

-- The counters after `n` iterations on a file of several chunks.
pub record Chunked (o : Options) (n : ℕ) (g : Gen) : Type 0 where
  pub chunk : ℕ
  pub chunks : ℕ
  pub size : g.file_size ≡ chunks * two_giga_byte
  pub size_fits : g.file_size < 2 ^ 63
  pub offset : g.cur_iter_offset ≡ chunk * two_giga_byte
  pub some_per_chunk : 0 < g.max_iter_per_chunk
  pub per_chunk_fits : g.max_iter_per_chunk < 2 ^ 32
  pub in_chunk : g.cur_iter_per_chunk ≤ g.max_iter_per_chunk
  pub count : n ≡ chunk * (g.max_iter_per_chunk + 1) + g.cur_iter_per_chunk
  pub enough : o.max_iter < chunks * (g.max_iter_per_chunk + 1)

-- A file of one chunk.
pub record Single (o : Options) (g : Gen) : Type 0 where
  pub not_chunked : g.max_iter_per_chunk ≡ 0
  pub filled : 0 < g.file_size
  pub small : g.file_size ≤ two_giga_byte
  pub offset : g.cur_iter_offset ≡ 0
  pub aligned : o.use_dio ≡ true → g.file_size % 512 ≡ 0

abbrev pub IsOnTrack : Options → ℕ → Gen → Type 0
IsOnTrack o n g = Chunked o n g ⊎ Single o g

chunk-lt : (a b m c : ℕ) → a * (m + 1) + c < b * (m + 1) → a < b
chunk-lt a b m c h = grind arith

pub next_chunk-Chunked :
    (o : Options) (n : ℕ) (g : Gen)
    → n < o.max_iter
    → Chunked o n g
    → Chunked o (n + 1) (next_chunk g)
unfolding next_chunk
next_chunk-Chunked o n g lt c = elim (Bool-cases (g.cur_iter_per_chunk == g.max_iter_per_chunk)) [
  | inl e ↦
      let last : g.cur_iter_per_chunk ≡ g.max_iter_per_chunk = ground arith in
      let moved : n + 1 ≡ (c.chunk + 1) * (g.max_iter_per_chunk + 1) + 0 = omega arith in
      let inside : c.chunk + 1 < c.chunks =
        chunk-lt (c.chunk + 1) c.chunks g.max_iter_per_chunk 0 (omega arith) in
      rw e (record {
        chunk = c.chunk + 1;
        chunks = c.chunks;
        size = c.size;
        size_fits = c.size_fits;
        offset = omega arith;
        some_per_chunk = c.some_per_chunk;
        per_chunk_fits = c.per_chunk_fits;
        in_chunk = omega arith;
        count = moved;
        enough = c.enough;
      })
  | inr e ↦
      let more : g.cur_iter_per_chunk ≢ g.max_iter_per_chunk = ground arith in
      rw e (record {
        chunk = c.chunk;
        chunks = c.chunks;
        size = c.size;
        size_fits = c.size_fits;
        offset = c.offset;
        some_per_chunk = c.some_per_chunk;
        per_chunk_fits = c.per_chunk_fits;
        in_chunk = omega arith;
        count = omega arith;
        enough = c.enough;
      })
]

-- The chunk of a state on track lies in the file.
pub Chunked-inside :
    (o : Options) (n : ℕ) (g : Gen) → n ≤ o.max_iter → Chunked o n g → Fits o (two_giga_byte - 1) g
Chunked-inside o n g le c =
    let inside : c.chunk < c.chunks =
      chunk-lt c.chunk c.chunks g.max_iter_per_chunk g.cur_iter_per_chunk (omega arith) in
    record {
      inside = omega arith;
      size_fits = c.size_fits;
      range_fits = omega arith;
      aligned = λ d. (omega arith, omega arith);
    }

pub Single-inside : (o : Options) (g : Gen) → Single o g → Fits o (g.file_size - 1) g
Single-inside o g c = record {
  inside = omega arith;
  size_fits = omega arith;
  range_fits = omega arith;
  aligned = λ d. (c.aligned d, omega arith);
}

-- Division by a number of chunks.
quotient_bounds : (a b : ℕ) → 0 < b → b ≤ a → (0 < a / b) × (a / b ≤ a) × (a < b * (a / b + 1))
quotient_bounds a b pos h =
    let e = div-add-mod a b in let r = mod-lt a pos in (grind arith, div-le_self a b, omega arith)

-- `main` starts on track if every chunk gets an iteration.
pub setup-IsOnTrack :
    (o : Options) (size : ℕ)
    → 0 < size
    → size < 2 ^ 63
    → o.max_iter < 2 ^ 32
    → (o.use_dio ≡ true → size % 512 ≡ 0)
    → size / two_giga_byte ≤ o.max_iter
    → IsOnTrack o 0 (setup o size)
unfolding setup
setup-IsOnTrack o size pos fits iters dio h = elim (Bool-cases (ltb two_giga_byte size)) [
  | inl big ↦
      let chunks = size / two_giga_byte in
      let m = o.max_iter / chunks in
      let some : 0 < chunks = ground arith in
      let q = quotient_bounds o.max_iter chunks some h in
      let m_fits : m % 2 ^ 32 ≡ m = omega (arith, q.1) in
      rw big (
        inl (record {
          chunk = 0;
          chunks = chunks;
          size = refl;
          size_fits = omega arith;
          offset = refl;
          some_per_chunk = rw m_fits q.0;
          per_chunk_fits = omega arith;
          in_chunk = omega arith;
          count = omega arith;
          enough = rw m_fits q.2;
        }))
  | inr small ↦ rw small (
      inr (record {
        not_chunked = refl;
        filled = pos;
        small = ground arith;
        offset = refl;
        aligned = dio;
      }))
]

-- What one iteration may give: a write inside the file, from the current chunk on, and counters for
-- the next iteration. Only the wait for a write that is not empty may go on for longer.
abbrev pub Prepared : Options → ℕ → ℕ → Result (WriteUnit × Gen) → Type 0
Prepared o n size (ok (w, g)) = IsDrawn 0 size w × (g.file_size ≡ size) × IsOnTrack o (n + 1) g
Prepared o n size out_of_fuel = Unit
Prepared o n size failed = ⊥
Prepared o n size aborted = ⊥

-- Being on track is about the four counters.
module _ {g g' : Gen} (size : g'.file_size ≡ g.file_size)
    (offset : g'.cur_iter_offset ≡ g.cur_iter_offset)
    (per_chunk : g'.max_iter_per_chunk ≡ g.max_iter_per_chunk)
    (in_chunk : g'.cur_iter_per_chunk ≡ g.cur_iter_per_chunk) where
  IsOnTrack-same : (o : Options) (n : ℕ) → IsOnTrack o n g → IsOnTrack o n g'
  IsOnTrack-same o n (inl c) = inl (record {
    chunk = c.chunk;
    chunks = c.chunks;
    size = omega (arith, c);
    size_fits = omega (arith, c);
    offset = omega (arith, c);
    some_per_chunk = omega (arith, c);
    per_chunk_fits = omega (arith, c);
    in_chunk = omega (arith, c);
    count = rw (per_chunk, in_chunk) c.count;
    enough = rw per_chunk c.enough;
  })
  IsOnTrack-same o n (inr c) = inr (record {
    not_chunked = omega (arith, c);
    filled = omega (arith, c);
    small = omega (arith, c);
    offset = omega (arith, c);
    aligned = λ d. rw size (c.aligned d);
  })

Drawn-Prepared :
    (o : Options) (n : ℕ) (g : Gen) {size : ℕ} (r : Result (WriteUnit × Gen))
    → g.file_size ≡ size
    → IsOnTrack o (n + 1) g
    → Drawn g.file_size g.cur_iter_offset g.max_iter_per_chunk g.cur_iter_per_chunk r
    → Prepared o n size r
Drawn-Prepared o n g (ok (w, g')) e c (d, e1, e2, e3, e4) = (
  record {
    filled = d.filled;
    short = d.short;
    starts = omega arith;
    ends = omega arith;
    low = d.low;
    high = d.high;
  },
  e1 ∙ e,
  IsOnTrack-same e1 e2 e3 e4 o (n + 1) c,
)
Drawn-Prepared o n g out_of_fuel e c d = tt
Drawn-Prepared o n g failed e c d = d
Drawn-Prepared o n g aborted e c d = d

pub range_of-Single : (o : Options) (g : Gen) → Single o g → range_of g ≡ ok (g.file_size - 1, g)
unfolding range_of
range_of-Single o g c = ground (arith, width)
  where
    width : (g.file_size + 2 ^ 64 - 1) % 2 ^ 64 % 2 ^ 32 ≡ g.file_size - 1
    width = omega (arith, c)

pub range_of-Chunked :
    (o : Options) (n : ℕ) (g : Gen)
    → Chunked o n g
    → range_of g ≡ ok (two_giga_byte - 1, next_chunk g)
unfolding range_of
range_of-Chunked o n g c = ground (arith, c.some_per_chunk)

file_size-next_chunk : (g : Gen) → (next_chunk g).file_size ≡ g.file_size
unfolding next_chunk
file_size-next_chunk g = ground arith

-- The generator, called on track, never fails an `assert`: every write that it gives has at least
-- one byte and at most `MAX_WRITE_SIZE`, lies in the file, has a character from 'A' to 'z', and
-- leaves the counters on track for the next iteration.
pub prep_rand_write_unit-Prepared :
    (o : Options) (n f : ℕ) (stream : ℕ → ℕ) (g : Gen)
    → n < o.max_iter
    → IsOnTrack o n g
    → Prepared o n g.file_size (prep_rand_write_unit f o stream g)
unfolding prep_rand_write_unit
prep_rand_write_unit-Prepared o n f stream g lt (inl c) =
    let g' = next_chunk g in
    let c' = next_chunk-Chunked o n g lt c in
    let i = (draw stream 0 52 g'.drawn).1 in
    let fits = Chunked-inside o (n + 1) g' (omega arith) c' in
    rw (range_of-Chunked o n g c) (
      Drawn-Prepared o n g' _ (file_size-next_chunk g) (inl c') (
        draw_unit-Drawn f o stream (rand_char_start + (draw stream 0 52 g'.drawn).0)
          (two_giga_byte - 1) (record g' { drawn = i })
          (record {
            inside = fits.inside;
            size_fits = fits.size_fits;
            range_fits = fits.range_fits;
            aligned = fits.aligned;
          })
          (omega arith) (omega (arith, draw_char-le stream g'.drawn))))
prep_rand_write_unit-Prepared o n f stream g lt (inr c) =
    let i = (draw stream 0 52 g.drawn).1 in
    let fits = Single-inside o g c in
    rw (range_of-Single o g c) (
      Drawn-Prepared o n g _ refl (inr c) (
        draw_unit-Drawn f o stream (rand_char_start + (draw stream 0 52 g.drawn).0)
          (g.file_size - 1) (record g { drawn = i })
          (record {
            inside = fits.inside;
            size_fits = fits.size_fits;
            range_fits = fits.range_fits;
            aligned = fits.aligned;
          })
          (omega arith) (omega (arith, draw_char-le stream g.drawn))))
