-- ===== src/Holes/Draw.antt =====
-- programs/fill_verify_holes: the random numbers of fill_holes and punch_holes.
use ocfs2_test.Common.{ℕ, ◌+◌, ◌-◌, ◌%◌, ◌^◌, ◌&&◌, ◌==◌, if◌then◌else◌}
use ocfs2_test.Holes.{add64, sub64}

-- `fh_get_rand` and `ph_get_rand`, with the value `r` of `rand()`: in `unsigned long`.
unfoldable pub get_rand : ℕ → ℕ → ℕ → ℕ
get_rand lo hi r = if lo == 0 && hi == 0 then 0 else add64 lo (sub64 (r % hi) lo)

-- `rand()` is called unless both bounds are zero. `stream i` is the value of its i-th call, and
-- `i` the number of calls so far.
unfoldable pub draw : (ℕ → ℕ) → ℕ → ℕ → ℕ → ℕ × ℕ
draw stream lo hi i = if lo == 0 && hi == 0 then (0, i) else (get_rand lo hi (stream i), i + 1)

-- `ALIGN(x, a)` for a power of two `a`, in `uint64_t` and in `uint32_t`: `& ~(a - 1)` clears the low
-- bits.
abbrev pub align_in : ℕ → ℕ → ℕ → ℕ
align_in width a x = let y = (x + a - 1) % 2 ^ width in y - y % a
