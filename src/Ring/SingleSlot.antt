-- ===== src/Ring/SingleSlot.antt =====
-- The static_assert lets `Size` be 1. Then the slot that was just published looks free again.
use lockless_concurrent_fram.Common.{ℕ, ◌<◌, ◌≡◌, refl, Bool, true, false, some, List, ◌∷◌, arith}
use lockless_concurrent_fram.Common.Words.{bit_and-zero}
use lockless_concurrent_fram.Ring.{Memory, slot}
use lockless_concurrent_fram.Ring.Calls.{try_push, push_loop, pushed_at}

slot_one : (p : ℕ) → slot 1 p ≡ 0
unfolding slot
slot_one p = bit_and-zero p

module _ {T : Type 0} where
  -- With one slot, when `head_` is below 2 ^ 64 and the slot's sequence number is `head_`, which
  -- is what a push leaves behind, a `try_push` whose first compare-exchange does not fail
  -- spuriously succeeds, overwrites the slot without moving `tail_`, and leaves the same
  -- situation.
  pub one_slot_overwrites :
      (m : Memory T) (x : T) (rest : List Bool)
      → m.head < 0x1_0000_0000_0000_0000
      → m.sequences 0 ≡ m.head
      → (m' : Memory T) × (try_push 1 (false ∷ rest) m x ≡ some (m', true))
        × (m'.sequences 0 ≡ m'.head)
        × (m'.tail ≡ m.tail)
        × (m'.buffer 0 ≡ x)
  unfolding try_push push_loop
  one_slot_overwrites m x rest lt e = (
    pushed_at 1 m x m.head,
    ground (arith, slot_one m.head),
    ground (arith, slot_one m.head),
    refl,
    ground (arith, slot_one m.head),
  )
