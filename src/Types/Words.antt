-- ===== src/Types/Words.antt =====
-- Machine words of 64 and 32 bits, as a release build computes with them.
use never_fox.Base.{
  ◌==◌, if◌then◌else◌, ℕ, zero, suc, ◌+◌, ◌-◌, ◌*◌, ◌/◌, ◌%◌, ◌^◌, ◌≤◌, ◌<◌, ◌≡◌, arith,
}
use native.Mathlib.Nat.{
  pow-suc, add-zero, add-suc, mod-eq_of_lt, mul-le-mul_right, div-mul-le_self, div-le_self,
}
use native.Mathlib.Numerals.{add-one}

abbrev pub u64_max : ℕ
u64_max = 0xffff_ffff_ffff_ffff

abbrev pub wrapping_add : ℕ → ℕ → ℕ
wrapping_add a b = (a + b) % 2 ^ 64

abbrev pub wrapping_sub : ℕ → ℕ → ℕ
wrapping_sub a b = (a + 2 ^ 64 - b) % 2 ^ 64

abbrev pub saturating_sub : ℕ → ℕ → ℕ
saturating_sub a b = a - b

-- The number of binary digits, of a number below `2 ^ fuel`.
unfoldable pub bit_length : ℕ → ℕ → ℕ
bit_length zero x = 0
bit_length (suc fuel) x = let rest = bit_length fuel (x / 2) + 1 in if x == 0 then 0 else rest

-- `usize::leading_zeros`
unfoldable pub leading_zeros : ℕ → ℕ
leading_zeros x = 64 - bit_length 64 x

-- `x >> n` on `u64`; the amount is taken modulo 64.
unfoldable pub shift_right : ℕ → ℕ → ℕ
shift_right x n = x / 2 ^ (n % 64)

pub bit_length-le : (fuel x : ℕ) → bit_length fuel x ≤ fuel
unfolding bit_length
bit_length-le zero x = omega arith
bit_length-le (suc fuel) x = ground (arith, bit_length-le fuel (x / 2))

pub bit_length_mono : (fuel x y : ℕ) → x ≤ y → bit_length fuel x ≤ bit_length fuel y
unfolding bit_length
bit_length_mono zero x y h = omega arith
bit_length_mono (suc fuel) x y h =
    ground (arith, bit_length_mono fuel (x / 2) (y / 2) (omega arith))

pub two_pow_suc : (n : ℕ) → 2 ^ suc n ≡ 2 * 2 ^ n
two_pow_suc n = omega (arith, pow-suc 2 n)

-- A power of two splits over a sum.
pub two_pow_add : (a b : ℕ) → 2 ^ (a + b) ≡ 2 ^ a * 2 ^ b
two_pow_add a zero = rw (add-zero a) (omega arith)
two_pow_add a (suc b) =
    rw (add-suc a b) (grind (arith, two_pow_suc (a + b), two_pow_suc b, two_pow_add a b))

pub two_pow_pos : (n : ℕ) → 0 < 2 ^ n
two_pow_pos zero = omega arith
two_pow_pos (suc n) = omega (arith, two_pow_suc n, two_pow_pos n)

pub lt_pow-bit_length : (fuel x : ℕ) → x < 2 ^ fuel → x < 2 ^ bit_length fuel x
unfolding bit_length
lt_pow-bit_length zero x h = h
lt_pow-bit_length (suc fuel) x h = ground (
  arith,
  lt_pow-bit_length fuel (x / 2) (omega (arith, two_pow_suc fuel)),
  two_pow_suc (bit_length fuel (x / 2)),
  add-one (bit_length fuel (x / 2)),
)

-- Shifting right by `n` and counting in units `2 ^ n` times as large loses, and never gains.
pub shift_right-scale : (x c n : ℕ) → n < 64 → shift_right x n * 2 ^ (c + n) ≤ x * 2 ^ c
unfolding shift_right
shift_right-scale x c n h =
    rw (mod-eq_of_lt h, two_pow_add c n)
      (omega (arith, mul-le-mul_right (2 ^ c) (div-mul-le_self x (2 ^ n))))

pub shift_right-le : (x n : ℕ) → shift_right x n ≤ x
unfolding shift_right
shift_right-le x n = omega (arith, div-le_self x (2 ^ (n % 64)))
