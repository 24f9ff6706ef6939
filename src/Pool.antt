-- ===== src/Pool.antt =====
-- include/lockless/object_pool.hpp: LockFreeObjectPool, a stack of the indices of free objects.
-- Whole calls, with no other thread at work. Addresses are counted in objects of `T`.
pub mod Leases
pub mod Exclusive
pub mod Shared
mod Tests
use lockless_concurrent_fram.Common.{
  ℕ, zero, suc, ◌+◌, ◌-◌, ◌%◌, Bool, true, false, ◌||◌, Option, none, some, List, ltb, leb,
  if◌then◌else◌,
}
use lockless_concurrent_fram.Common.Words.{word32, add32}
use lockless_concurrent_fram.Stack
use lockless_concurrent_fram.Stack.{Stack, try_push, try_pop}

-- The members of `LockFreeObjectPool`; `base` is the address of `pool_storage_.get()`.
pub record Pool : Type 0 where
  pub base : ℕ
  pub capacity : ℕ
  pub free_indices : Stack ℕ

-- The loop of the constructor with `n` rounds to go, from `i` on. False stands for the exception.
-- The lists of a call say which of its compare-exchanges fail spuriously, for each index.
pub fill : (pops pushes : ℕ → List Bool) → ℕ → ℕ → Stack ℕ → Option (Stack ℕ × Bool)
fill pops pushes zero i s = some (s, true)
fill pops pushes (suc n) i s = elim (try_push (pops i) (pushes i) s i) [
  | none ↦ none
  | some (s', pushed) ↦
      let rest = fill pops pushes n (add32 i 1) s' in if pushed then rest else some (s', false)
]

-- The constructor.
unfoldable pub init : (pops pushes : ℕ → List Bool) → ℕ → ℕ → Option (Pool × Bool)
init pops pushes base capacity = elim (fill pops pushes capacity 0 (Stack.init 0 capacity)) [
  | none ↦ none
  | some (s, ok) ↦ some (record { base = base; capacity = capacity; free_indices = s }, ok)
]

-- `acquire`; `none` as a pointer is nullptr.
unfoldable pub acquire : (pops pushes : List Bool) → Pool → Option (Pool × Option ℕ)
acquire pops pushes pool = elim (try_pop pops pushes pool.free_indices) [
  | none ↦ none
  | some (s, none) ↦ some (record pool { free_indices = s }, none)
  | some (s, some idx) ↦ some (record pool { free_indices = s }, some (pool.base + idx))
]

-- `release`, whose result is the pool alone: it does not look at what the stack answers.
unfoldable pub release : (pops pushes : List Bool) → Pool → Option ℕ → Option Pool
release pops pushes pool none = some pool
release pops pushes pool (some p) =
    if ltb p pool.base || leb pool.capacity (p - pool.base)
    then some pool
    else elim (try_push pops pushes pool.free_indices ((p - pool.base) % word32)) [
      | none ↦ none
      | some (s, _) ↦ some (record pool { free_indices = s })
    ]

-- `get_index`, for a pointer into the storage.
unfoldable pub get_index : Pool → ℕ → ℕ
get_index pool p = (p - pool.base) % word32

unfoldable pub get_by_index : Pool → ℕ → Option ℕ
get_by_index pool idx = if leb pool.capacity idx then none else some (pool.base + idx)
