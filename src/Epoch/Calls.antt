-- ===== src/Epoch/Calls.antt =====
-- Whole calls of `EpochReclaimer`, with no other thread at work.
pub mod Slots
pub mod Quiescent
pub mod Solo
use mathlib.Core.List.{map}
use lockless_concurrent_fram.Common.{
  ℕ, zero, suc, ◌+◌, ◌%◌, Bool, true, false, Option, none, some, List, [], ◌∷◌, ◌++◌, ◌==◌,
  if◌then◌else◌, update,
}
use lockless_concurrent_fram.Common.Words.{add64, max64}
use lockless_concurrent_fram.Epoch.{
  RetiredNode, Memory, max_threads, num_epochs, is_behind, take_slot, leave_critical,
}

-- The loop of `register_thread` with `n` slots to go, from slot `i` on.
unfoldable pub find_slot : ℕ → ℕ → (ℕ → Bool) → Option ℕ
find_slot zero i in_use = none
find_slot (suc n) i in_use =
    let rest = find_slot n (suc i) in_use in if in_use i then rest else some i

-- `none` is the return of -1.
unfoldable pub register_thread : Memory → Memory × Option ℕ
register_thread m = elim (find_slot max_threads 0 m.in_use) [
  | none ↦ (m, none)
  | some i ↦ (take_slot i m, some i)
]

unfoldable pub enter_critical : ℕ → Memory → Memory
enter_critical i m = record m { local_epoch = update m.local_epoch i m.global_epoch }

-- The loop of `try_advance` with `n` slots to go, from slot `i` on; false is its early return.
unfoldable pub all_current : ℕ → ℕ → Memory → ℕ → Bool
all_current zero i m current = true
all_current (suc n) i m current =
    let rest = all_current n (suc i) m current in
    if m.in_use i then (if is_behind (m.local_epoch i) current then false else rest) else rest

-- `try_advance`, and the objects that it deletes. Alone, the exchange wins.
pub try_advance : Memory → Memory × List RetiredNode
try_advance m =
    let new_epoch = add64 m.global_epoch 1 in
    let old_idx = new_epoch % num_epochs in
    if all_current max_threads 0 m m.global_epoch
    then (
      record m { global_epoch = new_epoch; retire_lists = update m.retire_lists old_idx [] },
      m.retire_lists old_idx,
    )
    else (m, [])

-- `retire` up to `try_advance`.
pub push_retired : Memory → ℕ → Memory
push_retired m ptr =
    let idx = m.global_epoch % num_epochs in
    let node : RetiredNode = record { ptr = ptr; epoch = m.global_epoch } in
    record m { retire_lists = update m.retire_lists idx (m.retire_lists idx ++ node ∷ []) }

unfoldable pub retire : Memory → ℕ → Memory × List RetiredNode
unfolding push_retired try_advance
retire m ptr = try_advance (push_retired m ptr)

-- `EpochGuard` around a body: the constructor enters and the destructor leaves.
unfoldable pub guarded : ℕ → (Memory → Memory) → Memory → Memory
guarded i body m = leave_critical i (body (enter_critical i m))

-- The destructor deletes what is left, list by list.
unfoldable pub destroy : Memory → List ℕ
destroy m =
    map (λ n. n.ptr) (m.retire_lists 0)
    ++ (map (λ n. n.ptr) (m.retire_lists 1) ++ map (λ n. n.ptr) (m.retire_lists 2))
