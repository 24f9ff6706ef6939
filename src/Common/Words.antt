-- ===== src/Common/Words.antt =====
-- 64-bit and 32-bit words as native numbers, and the mask that stands for `%` by a power of two.
use Prim.Native.Nat.{
  ℕ, zero, suc, ◌+◌, ◌-◌, ◌*◌, ◌/◌, ◌%◌, ◌≤◌, min, bit_and, digits, bit_and-bitwise,
}
use mathlib.Core.Path.{◌≡◌, refl}
use mathlib.Core.Bool.{Bool}
use native.Mathlib.Omega.{arith}
use lockless_concurrent_fram.Common.Tests.{leb}

-- 2 ^ 64 and 2 ^ 32.
abbrev pub word64 : ℕ
word64 = 0x1_0000_0000_0000_0000

abbrev pub word32 : ℕ
word32 = 0x1_0000_0000

-- `size_t` and `uint64_t` addition and subtraction wrap.
abbrev pub add64 : ℕ → ℕ → ℕ
add64 a b = (a + b) % word64

abbrev pub sub64 : ℕ → ℕ → ℕ
sub64 a b = (a + word64 - b) % word64

abbrev pub add32 : ℕ → ℕ → ℕ
add32 a b = (a + b) % word32

abbrev pub sub32 : ℕ → ℕ → ℕ
sub32 a b = (a + word32 - b) % word32

-- SIZE_MAX and UINT64_MAX, and UINT32_MAX.
abbrev pub max64 : ℕ
max64 = 0xffff_ffff_ffff_ffff

abbrev pub max32 : ℕ
max32 = 0xffff_ffff

-- The sign of an `intptr_t` or `ptrdiff_t`, given by its two's complement pattern.
abbrev pub is_negative : ℕ → Bool
is_negative d = leb 0x8000_0000_0000_0000 d

-- Masking peels off the lowest digit of both numbers.
step_fuel :
    (n m a b : ℕ) → a ≤ n → a ≤ m → digits (λ _. zero) min n a b ≡ digits (λ _. zero) min m a b
step_fuel zero zero zero b p q = refl
step_fuel zero (suc m) zero b p q = refl
step_fuel (suc n) zero zero b p q = refl
step_fuel (suc n) (suc m) zero b p q = refl
step_fuel zero m (suc a) b p q = absurd (omega arith)
step_fuel (suc n) zero (suc a) b p q = absurd (omega arith)
step_fuel (suc n) (suc m) (suc a) b p q =
    omega (arith, step_fuel n m (suc a / 2) (b / 2) (omega arith) (omega arith))

pub bit_and-digit : (a b : ℕ) → bit_and a b ≡ bit_and (a / 2) (b / 2) * 2 + min (a % 2) (b % 2)
bit_and-digit zero b = omega (arith, bit_and-bitwise 0 b, bit_and-bitwise 0 (b / 2))
bit_and-digit (suc a) b = omega (
  arith,
  bit_and-bitwise (suc a) b,
  bit_and-bitwise (suc a / 2) (b / 2),
  step_fuel a (suc a / 2) (suc a / 2) (b / 2) (omega arith) (omega arith),
)

pub bit_and-zero : (a : ℕ) → bit_and a 0 ≡ 0
bit_and-zero a = below a a (omega arith)
  where
    below : (n b : ℕ) → b ≤ n → bit_and b 0 ≡ 0
    below n zero h = refl
    below zero (suc b) h = absurd (omega arith)
    below (suc n) (suc b) h =
        omega (arith, bit_and-digit (suc b) 0, below n (suc b / 2) (omega arith))
