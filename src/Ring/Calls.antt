-- ===== src/Ring/Calls.antt =====
-- Whole calls of `RingBuffer`, with no other thread at work: the loops of `try_push` and `try_pop`
-- and the batch calls. A list says of each compare-exchange in turn whether it fails spuriously; its
-- length bounds the rounds of the loop, and `none` means that the list ran out.
use lockless_concurrent_fram.Common.{
  ℕ, zero, suc, ◌+◌, ◌-◌, Bool, true, false, not, ◌&&◌, Option, none, some, List, [], ◌∷◌, ◌==◌,
  if◌then◌else◌, update,
}
use lockless_concurrent_fram.Common.Words.{add64, sub64, is_negative}
use lockless_concurrent_fram.Ring.{Memory, slot}

module _ {T : Type 0} (size : ℕ) where
  -- Memory after the three writes of a producer that wins `head`.
  abbrev pub pushed_at : Memory T → T → ℕ → Memory T
  pushed_at m x head = record m {
    head = add64 head 1;
    buffer = update m.buffer (slot size head) x;
    sequences = update m.sequences (slot size head) (add64 head 1);
  }

  -- Memory after the two writes of a consumer that wins `tail`.
  abbrev pub popped_at : Memory T → ℕ → Memory T
  popped_at m tail = record m {
    tail = add64 tail 1;
    sequences = update m.sequences (slot size tail) (add64 (add64 tail (size - 1)) 1);
  }

  unfoldable pub push_loop : List Bool → Memory T → T → ℕ → Option (Memory T × Bool)
  push_loop [] m x head = none
  push_loop (spurious ∷ rest) m x head =
      let diff = sub64 (m.sequences (slot size head)) head in
      let again = push_loop rest m x m.head in
      if diff == 0
      then (if not spurious && m.head == head then some (pushed_at m x head, true) else again)
      else (if is_negative diff then some (m, false) else again)

  unfoldable pub try_push : List Bool → Memory T → T → Option (Memory T × Bool)
  unfolding push_loop
  try_push spurious m x = push_loop spurious m x m.head

  unfoldable pub pop_loop : List Bool → Memory T → ℕ → Option (Memory T × Option T)
  pop_loop [] m tail = none
  pop_loop (spurious ∷ rest) m tail =
      let diff = sub64 (m.sequences (slot size tail)) (add64 tail 1) in
      let again = pop_loop rest m m.tail in
      if diff == 0
      then (if not spurious && m.tail == tail
          then some (popped_at m tail, some (m.buffer (slot size tail)))
          else again)
      else (if is_negative diff then some (m, none) else again)

  unfoldable pub try_pop : List Bool → Memory T → Option (Memory T × Option T)
  unfolding pop_loop
  try_pop spurious m = pop_loop spurious m m.tail

  -- `try_push_batch`, from the item with index `pushed` on: how many were pushed in the end.
  unfoldable pub try_push_batch : (ℕ → List Bool) → Memory T → List T → ℕ → Option (Memory T × ℕ)
  unfolding try_push
  try_push_batch spurious m [] pushed = some (m, pushed)
  try_push_batch spurious m (x ∷ items) pushed = elim (try_push (spurious pushed) m x) [
    | none ↦ none
    | some (m', true) ↦ try_push_batch spurious m' items (pushed + 1)
    | some (m', false) ↦ some (m', pushed)
  ]

  abbrev pub prepend : T → Option (Memory T × List T) → Option (Memory T × List T)
  prepend x none = none
  prepend x (some (m, items)) = some (m, x ∷ items)

  -- `try_pop_batch`, from the place `popped` on with `count` calls left at most: the items stored.
  unfoldable pub try_pop_batch : (ℕ → List Bool) → ℕ → ℕ → Memory T → Option (Memory T × List T)
  unfolding try_pop
  try_pop_batch spurious popped zero m = some (m, [])
  try_pop_batch spurious popped (suc count) m = elim (try_pop (spurious popped) m) [
    | none ↦ none
    | some (m', none) ↦ some (m', [])
    | some (m', some x) ↦ prepend x (try_pop_batch spurious (popped + 1) count m')
  ]
