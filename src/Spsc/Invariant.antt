-- ===== src/Spsc/Invariant.antt =====
-- What holds of `SPSCQueue` and its two threads between any two shared accesses.
use native.Mathlib.Nat.{mod-add-mod}
use lockless_concurrent_fram.Common.{
  ℕ, ◌+◌, ◌%◌, ◌≤◌, ◌<◌, ◌≡◌, some, List, length, get_elem?, take, arith,
}
use lockless_concurrent_fram.Common.Masks.{IsPowerOfTwo, mask-eq-mod, size_pos}
use lockless_concurrent_fram.Spsc.{
  Memory, PushPc, PopPc, push_test, push_write, push_publish, pop_test, pop_read, pop_publish,
  next_index,
}

-- The two static_asserts.
pub record IsSize (size : ℕ) : Type 0 where
  pub pow : IsPowerOfTwo size
  pub two : 2 ≤ size

module _ (size : ℕ) (ok : IsSize size) where
  -- Indices go round the array.
  pub next_index-mod : (n : ℕ) → next_index size (n % size) ≡ (n + 1) % size
  unfolding next_index
  next_index-mod n = rw (mask-eq-mod size ok.pow, mod-add-mod)

  -- Counts less than a turn apart with one index are the same.
  pub mod_apart : (a b : ℕ) → a ≤ b → b < a + size → a % size ≡ b % size → a ≡ b
  mod_apart a b le lt e = grind (arith, size_pos size ok.pow)

module _ {T : Type 0} (size : ℕ) where
  abbrev pub PushLocal : Memory T → List T → List T → PushPc T → Type 0
  PushLocal m log out (push_test x h) = h ≡ m.head
  PushLocal m log out (push_write x h) = (h ≡ m.head) × (length log + 1 < length out + size)
  PushLocal m log out (push_publish x h) =
      (h ≡ m.head) × (length log + 1 < length out + size) × (m.buffer h ≡ x)
  PushLocal m log out _ = Unit

  abbrev pub PopLocal : Memory T → List T → List T → PopPc T → Type 0
  PopLocal m log out (pop_test t) = t ≡ m.tail
  PopLocal m log out (pop_read t) = (t ≡ m.tail) × (length out < length log)
  PopLocal m log out (pop_publish t x) =
      (t ≡ m.tail) × (length out < length log) × (get_elem? log (length out) ≡ some x)
  PopLocal m log out _ = Unit

  pub record Inv (m : Memory T) (p : PushPc T) (c : PopPc T) (log out : List T) : Type 0 where
    pub head_at : m.head ≡ length log % size
    pub tail_at : m.tail ≡ length out % size
    pub out_le : length out ≤ length log
    pub log_lt : length log < length out + size
    pub fifo : out ≡ take (length out) log
    pub stored :
        (k : ℕ) → length out ≤ k → k < length log → get_elem? log k ≡ some (m.buffer (k % size))
    pub push_local : PushLocal m log out p
    pub pop_local : PopLocal m log out c
