-- ===== src/Common/Masks.antt =====
-- `p & (Size - 1)`: the slot of a counter in an array whose size is a power of two.
use Prim.Native.Nat.{ℕ, zero, suc, ◌+◌, ◌-◌, ◌*◌, ◌/◌, ◌%◌, ◌^◌, ◌≤◌, ◌<◌, bit_and}
use mathlib.Core.Path.{◌≡◌, ◌∙◌}
use mathlib.Core.Logic.{◌≢◌}
use native.Mathlib.Nat.{two-pow-succ, one-le-pow, mod-lt, mod-eq_of_lt, add-mod_right}
use native.Mathlib.Omega.{arith}
use lockless_concurrent_fram.Common.Words.{bit_and-digit, bit_and-zero}

mod-double : (a p : ℕ) → 0 < p → a % (p + p) ≡ (a / 2 % p) * 2 + a % 2
mod-double a p h = grind arith

mask_digit :
    (a p : ℕ) → 0 < p → bit_and (a / 2) (p - 1) ≡ a / 2 % p → bit_and a (p + p - 1) ≡ a % (p + p)
mask_digit a p h ih =
    bit_and-digit a (p + p - 1) ∙ rw (half, last) (omega (arith, ih, mod-double a p h))
  where
    half : (p + p - 1) / 2 ≡ p - 1
    half = omega arith

    last : (p + p - 1) % 2 ≡ 1
    last = omega arith

-- Masking with 2 ^ k - 1 is the remainder by 2 ^ k.
pub bit_and_mask : (k a : ℕ) → bit_and a (2 ^ k - 1) ≡ a % 2 ^ k
bit_and_mask zero a = omega (arith, bit_and-zero a)
bit_and_mask (suc k) a =
    rw two-pow-succ (mask_digit a (2 ^ k) (one-le-pow k 2 (omega arith)) (bit_and_mask k (a / 2)))

-- What the static_assert of the ring buffer and of the queue asks of `Size`, given as an exponent.
pub record IsPowerOfTwo (size : ℕ) : Type 0 where
  pub exponent : ℕ
  pub is_pow : size ≡ 2 ^ exponent

module _ (size : ℕ) (pow : IsPowerOfTwo size) where
  pub size_pos : 0 < size
  size_pos = rw pow.is_pow (one-le-pow pow.exponent 2 (omega arith))

  pub mask-eq-mod : (p : ℕ) → bit_and p (size - 1) ≡ p % size
  mask-eq-mod p = rw pow.is_pow (bit_and_mask pow.exponent p)

  pub mask-lt : (p : ℕ) → bit_and p (size - 1) < size
  mask-lt p = rw (mask-eq-mod p) (mod-lt p size_pos)

  -- Counters a whole turn apart share a slot.
  pub mask-add_size : (p : ℕ) → bit_and (p + size) (size - 1) ≡ bit_and p (size - 1)
  mask-add_size p = rw (mask-eq-mod (p + size), mask-eq-mod p) (add-mod_right p size)

  pub mask-of_lt : (p : ℕ) → p < size → bit_and p (size - 1) ≡ p
  mask-of_lt p h = mask-eq-mod p ∙ mod-eq_of_lt h

  -- Two counters of one slot that differ are a whole turn apart.
  pub mask_turn : (p q : ℕ) → bit_and p (size - 1) ≡ bit_and q (size - 1) → p < q → p + size ≤ q
  mask_turn p q e h = grind (arith, mask-eq-mod p, mask-eq-mod q, size_pos)

  -- Neighbouring counters have different slots, unless there is only one.
  pub mask_next : 2 ≤ size → (p : ℕ) → bit_and p (size - 1) ≢ bit_and (p + 1) (size - 1)
  mask_next two p e = omega (arith, mask_turn p (p + 1) e (omega arith))
