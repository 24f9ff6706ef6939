-- ===== src/Spsc/Calls.antt =====
-- Whole calls of `SPSCQueue`, and the steps that a thread makes while the other changes memory.
use lockless_concurrent_fram.Common.{
  ℕ, zero, suc, Bool, true, false, Option, none, some, List, [], ◌∷◌, ◌==◌, if◌then◌else◌, update,
}
use lockless_concurrent_fram.Spsc.{Memory, PushPc, PopPc, next_index, push_step, pop_step}

module _ {T : Type 0} (size : ℕ) where
  unfoldable pub try_push : Memory T → T → Memory T × Bool
  try_push m x =
      let next = next_index size m.head in
      if next == m.tail
      then (m, false)
      else (record m { buffer = update m.buffer m.head x; head = next }, true)

  unfoldable pub try_pop : Memory T → Memory T × Option T
  try_pop m =
      if m.tail == m.head
      then (m, none)
      else (record m { tail = next_index size m.tail }, some (m.buffer m.tail))

  -- The producer makes one step in each of these memories, whatever happens to memory in between.
  unfoldable pub push_through : List (Memory T) → PushPc T → PushPc T
  push_through [] p = p
  push_through (m ∷ ms) p = push_through ms (push_step size m p).1

  unfoldable pub pop_through : List (Memory T) → PopPc T → PopPc T
  pop_through [] c = c
  pop_through (m ∷ ms) c = pop_through ms (pop_step size m c).1

  -- `n` steps of the producer with no step of the consumer.
  unfoldable pub push_steps : ℕ → Memory T → PushPc T → Memory T × PushPc T
  push_steps zero m p = (m, p)
  push_steps (suc n) m p = let (m', p') = push_step size m p in push_steps n m' p'

  unfoldable pub pop_steps : ℕ → Memory T → PopPc T → Memory T × PopPc T
  pop_steps zero m c = (m, c)
  pop_steps (suc n) m c = let (m', c') = pop_step size m c in pop_steps n m' c'
