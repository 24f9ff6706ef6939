-- ===== src/Map.antt =====
-- include/lockless/hash_map.hpp: LockFreeHashMap, open addressing with linear probing.
-- Whole calls, with no other thread at work. `std::hash` and `==` of the keys are parameters.
pub mod Lookup
pub mod Rounds
pub mod Refine
pub mod Shared
mod Tests
use lockless_concurrent_fram.Common.{
  ℕ, zero, suc, ◌%◌, Bool, true, false, ◌&&◌, if◌then◌else◌, update,
}
use lockless_concurrent_fram.Common.Words.{add64}

-- A bucket.
pub record Node (K V : Type 0) : Type 0 where
  pub key : K
  pub value : V
  pub occupied : Bool
  pub ready : Bool

-- What `find` does: it returns true with a value, returns false, or waits for a bucket's `ready`.
pub data Answer (V : Type 0) : Type 0 where
  found : (value : V) → Answer V
  absent : Answer V
  waits : Answer V

-- `(idx + i) % Size`, where `idx` is `hash % Size`.
pub bucket : {K : Type 0} → ℕ → (K → ℕ) → K → ℕ → ℕ
bucket size hash key i = add64 (hash key % size) i % size

module _ {K V : Type 0} where
  -- The constructor; `key` and `value` stand for what a new bucket holds.
  pub init : K → V → ℕ → Node K V
  init key value = λ _. record { key = key; value = value; occupied = false; ready = false }

  module _ (size : ℕ) (hash : K → ℕ) (same : K → K → Bool) where
    -- The loop of `insert` with `n` rounds to go, from round `i` on. Alone, the exchange wins.
    pub insert_probe : ℕ → ℕ → (ℕ → Node K V) → K → V → (ℕ → Node K V) × Bool
    insert_probe zero i buckets key value = (buckets, false)
    insert_probe (suc n) i buckets key value =
        let idx = bucket size hash key i in
        let node = buckets idx in
        let next = insert_probe n (suc i) buckets key value in
        if node.occupied
        then (if node.ready && same node.key key then (buckets, false) else next)
        else (
          update buckets idx (record { key = key; value = value; occupied = true; ready = true }),
          true,
        )

    unfoldable pub insert : (ℕ → Node K V) → K → V → (ℕ → Node K V) × Bool
    insert buckets key value = insert_probe size 0 buckets key value

    -- The loop of `find`.
    pub find_probe : ℕ → ℕ → (ℕ → Node K V) → K → Answer V
    find_probe zero i buckets key = absent
    find_probe (suc n) i buckets key =
        let node = buckets (bucket size hash key i) in
        let next = find_probe n (suc i) buckets key in
        if node.occupied
        then (if node.ready then (if same node.key key then found node.value else next) else waits)
        else absent

    unfoldable pub find : (ℕ → Node K V) → K → Answer V
    find buckets key = find_probe size 0 buckets key
