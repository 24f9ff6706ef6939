-- ===== src/Ring/Invariant/Slots.antt =====
-- The slots of counters: `head & mask_` for a size that is a power of two.
use lockless_concurrent_fram.Common.{ℕ, ◌+◌, ◌≤◌, ◌<◌, ◌≡◌, ◌≢◌}
use lockless_concurrent_fram.Common.Masks.{
  IsPowerOfTwo, mask-lt, mask-add_size, mask-of_lt, mask_turn, mask_next,
}
use lockless_concurrent_fram.Ring.{slot}

-- The static_assert, and at least two slots.
pub record IsSize (size : ℕ) : Type 0 where
  pub pow : IsPowerOfTwo size
  pub two : 2 ≤ size

module _ (size : ℕ) (pow : IsPowerOfTwo size) where
  -- Every index that the code computes is in range.
  pub slot-lt : (p : ℕ) → slot size p < size
  unfolding slot
  slot-lt p = mask-lt size pow p

  pub slot-add_size : (p : ℕ) → slot size (p + size) ≡ slot size p
  unfolding slot
  slot-add_size p = mask-add_size size pow p

  pub slot-of_lt : (p : ℕ) → p < size → slot size p ≡ p
  unfolding slot
  slot-of_lt p h = mask-of_lt size pow p h

  pub slot_turn : (p q : ℕ) → slot size p ≡ slot size q → p < q → p + size ≤ q
  unfolding slot
  slot_turn p q = mask_turn size pow p q

  pub slot_next : 2 ≤ size → (p : ℕ) → slot size p ≢ slot size (p + 1)
  unfolding slot
  slot_next two p = mask_next size pow two p
