-- ===== src/Ring/Invariant.antt =====
-- What holds of `RingBuffer` and its threads between any two shared accesses.
pub mod Slots
pub mod Quiet
pub mod Reserve
pub mod Publish
use lockless_concurrent_fram.Common.{
  ℕ, ◌+◌, ◌≤◌, ◌<◌, ◌≡◌, ◌⊎◌, Option, none, some, List, length, get_elem?,
}
use lockless_concurrent_fram.Ring.{
  Memory, Pc, idle, push_load, push_seq, push_cas, push_write, push_publish, pushed, pop_load,
  pop_seq, pop_cas, pop_read, pop_publish, popped, slot,
}

module _ {T : Type 0} where
  -- The ticket that a producer has won and has not published.
  abbrev pub push_ticket : Pc T → Option ℕ
  push_ticket (push_write _ head) = some head
  push_ticket (push_publish _ head) = some head
  push_ticket _ = none

  -- The ticket that a consumer has won and has not released.
  abbrev pub pop_ticket : Pc T → Option ℕ
  pop_ticket (pop_read tail) = some tail
  pop_ticket (pop_publish tail _) = some tail
  pop_ticket _ = none

module _ {T : Type 0} (size : ℕ) where
  -- What the locals of a thread say about shared memory.
  abbrev pub Local : Memory T → List T → Pc T → Type 0
  Local m log (push_seq x h) = h ≤ m.head
  Local m log (push_cas x h) = (h ≤ m.head) × (h ≡ m.head → m.sequences (slot size h) ≡ h)
  Local m log (push_write x h) =
      (h < m.head) × (m.tail ≤ h) × (m.sequences (slot size h) ≡ h) × (get_elem? log h ≡ some x)
  Local m log (push_publish x h) =
      (h < m.head)
      × (m.tail ≤ h)
      × (m.sequences (slot size h) ≡ h)
      × (get_elem? log h ≡ some x)
      × (m.buffer (slot size h) ≡ x)
  Local m log (pop_seq t) = t ≤ m.tail
  Local m log (pop_cas t) = (t ≤ m.tail) × (t ≡ m.tail → m.sequences (slot size t) ≡ t + 1)
  Local m log (pop_read t) =
      (t < m.tail) × (m.head ≤ t + size) × (m.sequences (slot size t) ≡ t + 1)
  Local m log (pop_publish t x) =
      (t < m.tail)
      × (m.head ≤ t + size)
      × (m.sequences (slot size t) ≡ t + 1)
      × (get_elem? log t ≡ some x)
  Local m log _ = Unit

  pub record Inv (m : Memory T) (pc : ℕ → Pc T) (log : List T) : Type 0 where
    pub tail_le : m.tail ≤ m.head
    pub head_le : m.head ≤ m.tail + size
    -- no counter has wrapped, and none will at the next step
    pub room : m.head + size < 0x8000_0000_0000_0000
    pub counted : length log ≡ m.head
    -- a published slot holds the item of its ticket
    pub full :
        (p : ℕ)
        → m.sequences (slot size p) ≡ p + 1
        → (p < m.head) × (get_elem? log p ≡ some (m.buffer (slot size p)))
    -- a free slot awaits a ticket of the present turn
    pub free : (p : ℕ) → m.sequences (slot size p) ≡ p → p < m.tail + size
    pub bound : (p : ℕ) → m.sequences (slot size p) ≤ m.tail + size
    -- the slot of a ticket that was taken has moved on
    pub passed : (p : ℕ) → p < m.tail → p < m.sequences (slot size p)
    -- a ticket that was reserved and not taken is published, or some producer is at work on it
    pub covered_push :
        (p : ℕ)
        → m.tail ≤ p
        → p < m.head
        → (m.sequences (slot size p) ≡ p + 1) ⊎ ((i : ℕ) × (push_ticket (pc i) ≡ some p))
    -- the slot of a ticket to come is free, or some consumer is at work on it
    pub covered_pop :
        (p : ℕ)
        → m.head ≤ p
        → p < m.tail + size
        → (m.sequences (slot size p) ≡ p)
          ⊎ ((i : ℕ) × (t : ℕ) × (pop_ticket (pc i) ≡ some t) × (t + size ≡ p))
    pub locals : (i : ℕ) → Local m log (pc i)
    pub push_unique :
        (i j p : ℕ) → push_ticket (pc i) ≡ some p → push_ticket (pc j) ≡ some p → i ≡ j
    pub pop_unique : (i j p : ℕ) → pop_ticket (pc i) ≡ some p → pop_ticket (pc j) ≡ some p → i ≡ j
