-- ===== src/Stack.antt =====
-- include/lockless/array_stack.hpp (and stack.hpp, which renames it): the stack of fixed capacity.
-- Whole calls, with no other thread at work; lists say which compare-exchanges fail spuriously.
pub mod Words
pub mod Chain
pub mod Loops
pub mod Layout
pub mod Lifo
pub mod Start
pub mod Counting
pub mod Shared
mod Tests
use lockless_concurrent_fram.Common.{
  ℕ, ◌+◌, ◌*◌, ◌/◌, ◌%◌, Bool, true, false, not, ◌&&◌, Option, none, some, List, [], ◌∷◌, ltb, ◌==◌,
  if◌then◌else◌, update,
}
use lockless_concurrent_fram.Common.Words.{word32, add32, sub64, max32}

-- `Head`, and the word that it is packed into: the tag in the high half, the index in the low one.
pub record Head : Type 0 where
  pub index : ℕ
  pub tag : ℕ

unfoldable pub pack : ℕ → ℕ → ℕ
pack index tag = tag * word32 + index

unfoldable pub unpack : ℕ → Head
unpack val = record { index = val % word32; tag = val / word32 % word32 }

-- NULL_INDEX.
abbrev pub null_index : ℕ
null_index = max32

-- The members of `ArrayLockFreeStack`, with the fields of its nodes as two arrays.
pub record Stack (T : Type 0) : Type 0 where
  pub node_data : ℕ → T
  pub node_next : ℕ → ℕ
  pub capacity : ℕ
  pub head : ℕ
  pub free_head : ℕ

-- The loop of `pop_index` on one of the two heads: the new head, and the index or NULL_INDEX.
pub pop_index_loop : List Bool → (ℕ → ℕ) → ℕ → ℕ → Option (ℕ × ℕ)
pop_index_loop [] next target old = none
pop_index_loop (spurious ∷ rest) next target old =
    let old_head = unpack old in
    let again = pop_index_loop rest next target target in
    if old_head.index == null_index
    then some (target, null_index)
    else (if not spurious && target == old
        then some (pack (next old_head.index) (add32 old_head.tag 1), old_head.index)
        else again)

pub pop_index : List Bool → (ℕ → ℕ) → ℕ → Option (ℕ × ℕ)
pop_index spurious next target = pop_index_loop spurious next target target

-- The loop of `push_index`, which links the node anew in each round: the links and the new head.
pub push_index_loop : List Bool → (ℕ → ℕ) → ℕ → ℕ → ℕ → Option ((ℕ → ℕ) × ℕ)
push_index_loop [] next target node old = none
push_index_loop (spurious ∷ rest) next target node old =
    let old_head = unpack old in
    let linked = update next node old_head.index in
    let again = push_index_loop rest linked target node target in
    if not spurious && target == old then some (linked, pack node (add32 old_head.tag 1)) else again

pub push_index : List Bool → (ℕ → ℕ) → ℕ → ℕ → Option ((ℕ → ℕ) × ℕ)
push_index spurious next target node = push_index_loop spurious next target node target

module _ {T : Type 0} where
  -- The constructor. An unlinked node has NULL_INDEX, and so has the last one.
  unfoldable pub init : T → ℕ → Stack T
  init blank capacity = record {
    node_data = λ _. blank;
    node_next = λ i. if ltb i (sub64 capacity 1) then (i + 1) % word32 else null_index;
    capacity = capacity;
    head = pack null_index 0;
    free_head = pack 0 0;
  }

  -- `try_push` with the index that `pop_index(free_head_)` returned.
  pub push_node : List Bool → Stack T → T → ℕ → Option (Stack T × Bool)
  push_node spurious s x node =
      if node == null_index
      then some (s, false)
      else elim (push_index spurious s.node_next s.head node) [
        | none ↦ none
        | some (next, head) ↦ some (
          record s { node_data = update s.node_data node x; node_next = next; head = head },
          true,
        )
      ]

  unfoldable pub try_push : List Bool → List Bool → Stack T → T → Option (Stack T × Bool)
  unfolding pop_index push_node
  try_push pops pushes s x = elim (pop_index pops s.node_next s.free_head) [
    | none ↦ none
    | some (free_head, node) ↦ push_node pushes (record s { free_head = free_head }) x node
  ]

  -- `try_pop` with the index that `pop_index(head_)` returned.
  pub free_node : List Bool → Stack T → ℕ → Option (Stack T × Option T)
  free_node spurious s node =
      if node == null_index
      then some (s, none)
      else elim (push_index spurious s.node_next s.free_head node) [
        | none ↦ none
        | some (next, free_head) ↦
            some (record s { node_next = next; free_head = free_head }, some (s.node_data node))
      ]

  unfoldable pub try_pop : List Bool → List Bool → Stack T → Option (Stack T × Option T)
  unfolding pop_index free_node
  try_pop pops pushes s = elim (pop_index pops s.node_next s.head) [
    | none ↦ none
    | some (head, node) ↦ free_node pushes (record s { head = head }) node
  ]
