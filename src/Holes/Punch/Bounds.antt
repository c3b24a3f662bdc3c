-- ===== src/Holes/Punch/Bounds.antt =====
-- `ph_prep_rand_write_unit` of punch_holes.c: where a random write may lie.
use ocfs2_test.Common.{
  ℕ, zero, suc, ◌+◌, ◌-◌, ◌%◌, ◌≢◌, ◌^◌, ◌≤◌, ◌<◌, ◌==◌, Result, ok, failed, aborted, out_of_fuel,
  arith, Bool-cases, inl, inr,
}
use ocfs2_test.Holes.{WriteUnit, max_write_size, rand_char_start}
use ocfs2_test.Holes.Draw.{draw}
use native.Mathlib.Nat.{mod-lt}
use ocfs2_test.Holes.Fill.Bounds.{
  get_rand_lem, IsDrawn, draw_offset-le, draw_len-lt, draw_char-le, asserts_lem,
}
use ocfs2_test.Holes.Punch.{random_unit, random_write}

pub record InFile (size : ℕ) (w : WriteUnit) : Type 0 where
  pub short : w.len ≤ max_write_size
  pub ends : w.offset + w.len ≤ size
  pub low : rand_char_start ≤ w.char
  pub high : w.char ≤ b'z'

pub random_unit-InFile :
    (stream : ℕ → ℕ) (size i : ℕ)
    → 0 < size
    → size < 2 ^ 63
    → InFile size (random_unit stream size i).0
unfolding random_unit
random_unit-InFile stream size i pos fits =
    let (c, i1) = draw stream 0 52 i in
    let (offset, i2) = draw stream 0 (size - 1) i1 in
    let (q, i3) = draw stream 1 max_write_size i2 in
    let hc : c ≤ 51 = draw_char-le stream i in
    let ho : offset ≤ size - 1 = draw_offset-le stream (size - 1) i1 (omega arith) in
    let hq : q < max_write_size = draw_len-lt stream i2 in
    record { short = ground arith; ends = ground arith; low = ground arith; high = ground arith }

-- Whenever the loop ends it ends with a good write, and it never fails an `assert`.
abbrev pub Drawn : ℕ → Result (WriteUnit × ℕ) → Type 0
Drawn size (ok (w, i)) = IsDrawn 0 size w
Drawn size out_of_fuel = Unit
Drawn size failed = ⊥
Drawn size aborted = ⊥

-- `ph_prep_rand_write_unit` gives writes of 1 to `MAX_WRITE_SIZE` bytes that lie in the file, and
-- fails none of its `assert`s.
pub random_write-Drawn :
    (f : ℕ) (stream : ℕ → ℕ) (size i : ℕ)
    → 0 < size
    → size < 2 ^ 63
    → Drawn size (random_write f stream size i)
unfolding random_write
random_write-Drawn zero stream size i pos fits = tt
random_write-Drawn (suc f) stream size i pos fits =
    let (w, i') = random_unit stream size i in
    let b = random_unit-InFile stream size i pos fits in
    elim (Bool-cases (w.len == 0)) [
      | inl e ↦ rw e (random_write-Drawn f stream size i' pos fits)
      | inr e ↦
          rw (e, asserts_lem w b.low b.high b.short (ground arith))
            (record {
              filled = ground arith;
              short = b.short;
              starts = omega arith;
              ends = b.ends;
              low = b.low;
              high = b.high;
            })
    ]

-- If no value of `rand()` is a multiple of `MAX_WRITE_SIZE`, the first draw is taken.
pub random_unit-filled :
    (stream : ℕ → ℕ) (size i : ℕ)
    → 1 < size
    → size < 2 ^ 63
    → ((j : ℕ) → stream j % max_write_size ≢ 0)
    → (random_unit stream size i).0.len ≢ 0
unfolding random_unit draw
random_unit-filled stream size i pos fits some_len =
    let r = stream (i + 2) in
    ground (
      arith,
      get_rand_lem 0 (size - 1) (stream (i + 1)) (omega arith) (omega arith) (omega arith),
      mod-lt (stream (i + 1)) {m = size - 1} (omega arith),
      get_rand_lem 1 max_write_size r (omega arith) (omega arith) (omega arith),
      mod-lt r {m = max_write_size} (omega arith),
      some_len (i + 2),
    )
