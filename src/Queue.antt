-- ===== src/Queue.antt =====
-- A bounded FIFO queue, oldest item first: what the ring buffer and the SPSC queue promise.
use lockless_concurrent_fram.Common.{
  ℕ, Bool, true, false, Option, none, some, List, [], ◌∷◌, ◌++◌, length, ltb, if◌then◌else◌,
}

module _ {T : Type 0} where
  -- Adds at the end, unless `capacity` items are there.
  abbrev pub push : ℕ → List T → T → List T × Bool
  push capacity q x = if ltb (length q) capacity then (q ++ x ∷ [], true) else (q, false)

  abbrev pub pop : List T → List T × Option T
  pop [] = ([], none)
  pop (x ∷ q) = (q, some x)
