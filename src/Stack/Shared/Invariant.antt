-- ===== src/Stack/Shared/Invariant.antt =====
-- What holds of the stack and its threads between any two shared accesses.
use mathlib.Core.List.{map}
use lockless_concurrent_fram.Common.{ℕ, ◌+◌, ◌≤◌, ◌<◌, ◌≡◌, ◌≢◌, Option, none, some, List}
use lockless_concurrent_fram.Common.Words.{word32, max32}
use lockless_concurrent_fram.Stack.{Stack, unpack}
use lockless_concurrent_fram.Stack.Chain.{Chain}
use lockless_concurrent_fram.Stack.Shared.{
  Pc, push_next, push_cas, push_write, push_head, push_link, push_try, pop_next, pop_cas, pop_read,
  pop_free, pop_link, pop_try, popped,
}
use lockless_concurrent_fram.Stack.Shared.Nodes.{Seen}
use lockless_concurrent_fram.Stack.Shared.Owners.{Shares}

module _ {T : Type 0} where
  -- The node that a thread has taken off one list and not yet put on the other.
  abbrev pub owned : Pc T → Option ℕ
  owned (push_write x n) = some n
  owned (push_head x n) = some n
  owned (push_link x n old) = some n
  owned (push_try x n old) = some n
  owned (pop_read n) = some n
  owned (pop_free n x) = some n
  owned (pop_link n x old) = some n
  owned (pop_try n x old) = some n
  owned _ = none

  -- What a thread knows at its place; `claim` is the item that its pop has taken.
  abbrev pub Local : Stack T → Option T → Pc T → Type 0
  Local m claim (push_next x old) = Seen m.free_head old
  Local m claim (push_cas x old next) =
      Seen m.free_head old
      × ((unpack old).index ≢ max32)
      × (old ≡ m.free_head → m.node_next (unpack old).index ≡ next)
  Local m claim (push_head x n) = m.node_data n ≡ x
  Local m claim (push_link x n old) = (m.node_data n ≡ x) × Seen m.head old
  Local m claim (push_try x n old) =
      (m.node_data n ≡ x) × Seen m.head old × (m.node_next n ≡ (unpack old).index)
  Local m claim (pop_next old) = Seen m.head old
  Local m claim (pop_cas old next) =
      Seen m.head old
      × ((unpack old).index ≢ max32)
      × (old ≡ m.head → m.node_next (unpack old).index ≡ next)
  Local m claim (pop_read n) = claim ≡ some (m.node_data n)
  Local m claim (pop_free n x) = claim ≡ some x
  Local m claim (pop_link n x old) = (claim ≡ some x) × Seen m.free_head old
  Local m claim (pop_try n x old) =
      (claim ≡ some x) × Seen m.free_head old × (m.node_next n ≡ (unpack old).index)
  Local m claim (popped (some x)) = claim ≡ some x
  Local m claim _ = Unit

  -- `used` are the nodes on the stack, from the top on, and `spare` those of the free list.
  pub record Inv (m : Stack T) (pc : ℕ → Pc T) (contents : List T) (claim : ℕ → Option T)
      (moves : ℕ) (used spare : List ℕ) : Type 0 where
    pub used_chain : Chain m.node_next (unpack m.head).index used
    pub spare_chain : Chain m.node_next (unpack m.free_head).index spare
    pub shares : Shares (λ i. owned (pc i)) m.capacity used spare
    pub small : m.capacity ≤ max32
    pub items : map m.node_data used ≡ contents
    pub tags : (unpack m.head).tag + (unpack m.free_head).tag ≡ moves
    pub room : moves < word32
    pub locals : (i : ℕ) → Local m (claim i) (pc i)
