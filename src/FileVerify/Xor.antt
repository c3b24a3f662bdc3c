-- ===== src/FileVerify/Xor.antt =====
-- The exclusive or of C integers.
use Prim.Native.Nat.{bit_xor, bit_xor-bitwise, digits, differ}
use ocfs2_test.Common.{ℕ, zero, suc, ◌+◌, ◌*◌, ◌/◌, ◌%◌, ◌≤◌, ◌<◌, ◌≡◌, refl, ◌∙◌, sym, ap, arith}

abbrev count_down : ℕ → ℕ → ℕ → ℕ
count_down = digits (λ b. b) differ

digits_enough : (n m a b : ℕ) → a ≤ n → a ≤ m → count_down n a b ≡ count_down m a b
digits_enough zero zero a b h k = refl
digits_enough zero (suc m) zero b h k = refl
digits_enough zero (suc m) (suc a) b h k = absurd (omega arith)
digits_enough (suc n) zero zero b h k = refl
digits_enough (suc n) (suc m) zero b h k = refl
digits_enough (suc n) zero (suc a) b h k = absurd (omega arith)
digits_enough (suc n) (suc m) (suc a) b h k =
    rw (digits_enough n m (suc a / 2) (b / 2) (omega arith) (omega arith)) refl

xor_digits : (a b : ℕ) → bit_xor a b ≡ count_down a a b
xor_digits a b = λ i. bit_xor-bitwise a b i

digits_step :
    (a b : ℕ) → count_down a a b ≡ count_down (a / 2) (a / 2) (b / 2) * 2 + differ (a % 2) (b % 2)
digits_step zero b = omega arith
digits_step (suc a) b =
    rw (digits_enough a (suc a / 2) (suc a / 2) (b / 2) (omega arith) (omega arith)) refl

xor_step : (a b : ℕ) → bit_xor a b ≡ bit_xor (a / 2) (b / 2) * 2 + differ (a % 2) (b % 2)
xor_step a b = rw (xor_digits a b, xor_digits (a / 2) (b / 2)) (digits_step a b)

differ_bit : (x y : ℕ) → x < 2 → y < 2 → differ x y < 2
differ_bit zero y h k = k
differ_bit (suc x) zero h k = h
differ_bit (suc zero) (suc zero) h k = omega arith
differ_bit (suc zero) (suc (suc y)) h k = absurd (omega arith)
differ_bit (suc (suc x)) (suc y) h k = absurd (omega arith)

xor_half : (a b : ℕ) → bit_xor a b / 2 ≡ bit_xor (a / 2) (b / 2)
xor_half a b = omega (arith, xor_step a b, differ_bit (a % 2) (b % 2) (omega arith) (omega arith))

xor_odd : (a b : ℕ) → bit_xor a b % 2 ≡ differ (a % 2) (b % 2)
xor_odd a b = omega (arith, xor_step a b, differ_bit (a % 2) (b % 2) (omega arith) (omega arith))

differ_assoc : (x y z : ℕ) → x < 2 → y < 2 → z < 2 → differ (differ x y) z ≡ differ x (differ y z)
differ_assoc zero y z h k l = refl
differ_assoc (suc x) zero z h k l = refl
differ_assoc (suc zero) (suc zero) zero h k l = refl
differ_assoc (suc zero) (suc zero) (suc zero) h k l = refl
differ_assoc (suc zero) (suc zero) (suc (suc z)) h k l = absurd (omega arith)
differ_assoc (suc zero) (suc (suc y)) z h k l = absurd (omega arith)
differ_assoc (suc (suc x)) (suc y) z h k l = absurd (omega arith)

assoc_up_to :
    (n a b c : ℕ) → a ≤ n → b ≤ n → c ≤ n → bit_xor (bit_xor a b) c ≡ bit_xor a (bit_xor b c)
assoc_up_to zero a b c h k l =
    let a0 : a ≡ 0 = omega arith in
    let b0 : b ≡ 0 = omega arith in let c0 : c ≡ 0 = omega arith in rw (a0, b0, c0) refl
assoc_up_to (suc n) a b c h k l =
    rw
      (
        xor_step (bit_xor a b) c,
        xor_step a (bit_xor b c),
        xor_half a b,
        xor_half b c,
        xor_odd a b,
        xor_odd b c,
        assoc_up_to n (a / 2) (b / 2) (c / 2) (omega arith) (omega arith) (omega arith),
        differ_assoc (a % 2) (b % 2) (c % 2) (omega arith) (omega arith) (omega arith),
      )
      refl

pub xor_assoc : (a b c : ℕ) → bit_xor (bit_xor a b) c ≡ bit_xor a (bit_xor b c)
xor_assoc a b c = assoc_up_to (a + b + c) a b c (omega arith) (omega arith) (omega arith)

zero_up_to : (n a : ℕ) → a ≤ n → bit_xor a 0 ≡ a
zero_up_to zero a h = let a0 : a ≡ 0 = omega arith in rw a0 refl
zero_up_to (suc n) a h =
    rw (xor_step a 0, zero_up_to n (a / 2) (omega arith), differ_zero (a % 2)) (omega arith)
  where
    differ_zero : (x : ℕ) → differ x 0 ≡ x
    differ_zero zero = refl
    differ_zero (suc x) = refl

pub xor_zero : (a : ℕ) → bit_xor a 0 ≡ a
xor_zero a = zero_up_to a a (omega arith)

-- The lowest `k` binary digits.
abbrev low : ℕ → ℕ → ℕ
low zero a = 0
low (suc k) a = low k (a / 2) * 2 + a % 2

low_xor : (k a b : ℕ) → low k (bit_xor a b) ≡ bit_xor (low k a) (low k b)
low_xor zero a b = refl
low_xor (suc k) a b =
    let ha : (low k (a / 2) * 2 + a % 2) / 2 ≡ low k (a / 2) = omega arith in
    let hb : (low k (b / 2) * 2 + b % 2) / 2 ≡ low k (b / 2) = omega arith in
    let oa : (low k (a / 2) * 2 + a % 2) % 2 ≡ a % 2 = omega arith in
    let ob : (low k (b / 2) * 2 + b % 2) % 2 ≡ b % 2 = omega arith in
    rw
      (
        xor_half a b,
        xor_odd a b,
        low_xor k (a / 2) (b / 2),
        xor_step (low k (a / 2) * 2 + a % 2) (low k (b / 2) * 2 + b % 2),
        ha,
        hb,
        oa,
        ob,
      )
      refl

byte_low : (a : ℕ) → low 8 a ≡ a % 256
byte_low a = omega arith

pub xor-mod_byte : (a b : ℕ) → bit_xor a b % 256 ≡ bit_xor (a % 256) (b % 256)
xor-mod_byte a b =
    sym (byte_low (bit_xor a b))
    ∙ low_xor 8 a b
    ∙ ap (λ x. bit_xor x (low 8 b)) (byte_low a)
    ∙ ap (bit_xor (a % 256)) (byte_low b)

high : ℕ → ℕ → ℕ
high zero a = a
high (suc k) a = high k (a / 2)

high_xor : (k a b : ℕ) → high k (bit_xor a b) ≡ bit_xor (high k a) (high k b)
unfolding high
high_xor zero a b = refl
high_xor (suc k) a b = rw (xor_half a b) (high_xor k (a / 2) (b / 2))

byte_high : (a : ℕ) → high 8 a ≡ a / 256
unfolding high
byte_high a = omega arith

pub xor-div_byte : (a b : ℕ) → bit_xor a b / 256 ≡ bit_xor (a / 256) (b / 256)
xor-div_byte a b =
    sym (byte_high (bit_xor a b))
    ∙ high_xor 8 a b
    ∙ ap (λ x. bit_xor x (high 8 b)) (byte_high a)
    ∙ ap (bit_xor (a / 256)) (byte_high b)
