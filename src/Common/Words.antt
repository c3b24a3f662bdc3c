-- ===== src/Common/Words.antt =====
-- Arithmetic of C integers.
use Prim.Native.Nat.{ℕ, ◌+◌, ◌-◌, ◌%◌, ◌^◌}

-- On `uint64_t` (and `unsigned long`) and the conversion to `uint32_t`.
abbrev pub add64 : ℕ → ℕ → ℕ
add64 a b = (a + b) % 2 ^ 64

abbrev pub sub64 : ℕ → ℕ → ℕ
sub64 a b = (a + 2 ^ 64 - b) % 2 ^ 64

abbrev pub to_u32 : ℕ → ℕ
to_u32 a = a % 2 ^ 32
