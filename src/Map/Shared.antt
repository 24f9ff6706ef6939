-- ===== src/Map/Shared.antt =====
-- include/lockless/hash_map.hpp: the table with many threads at work. A call of insert or find is a
-- sequence of steps with one shared access each, and threads interleave step by step.
pub mod Invariant
pub mod Frame
pub mod Writes
pub mod Reachable
pub mod Found
pub mod Safety
pub mod Race
mod Tests
use lockless_concurrent_fram.Common.{
  ℕ, ◌+◌, ◌≡◌, Bool, true, false, Option, none, some, List, [], ◌∷◌, ltb, if◌then◌else◌, update,
}
use lockless_concurrent_fram.Map.{Node, bucket, init}

-- Where a thread stands in `insert` or `find`, with the locals that are live there: `i` counts the
-- rounds of the loop.
pub data Pc (K V : Type 0) : Type 0 where
  idle : Pc K V
  insert_load : (key : K) (value : V) (i : ℕ) → Pc K V  -- top of the loop, before occupied.load
  insert_ready : (key : K) (value : V) (i : ℕ) → Pc K V  -- taken, before ready.load
  insert_key : (key : K) (value : V) (i : ℕ) → Pc K V  -- before node.key == key
  insert_cas : (key : K) (value : V) (i : ℕ) → Pc K V  -- before compare_exchange_strong
  write_key : (key : K) (value : V) (i : ℕ) → Pc K V  -- claimed, before node.key = key
  write_value : (key : K) (value : V) (i : ℕ) → Pc K V  -- before node.value = value
  publish : (key : K) (value : V) (i : ℕ) → Pc K V  -- before ready.store(true)
  inserted : (key : K) (value : V) (result : Bool) → Pc K V
  find_load : (key : K) (i : ℕ) → Pc K V  -- top of the loop, before occupied.load
  find_ready : (key : K) (i : ℕ) → Pc K V  -- before a ready.load; here the loop spins
  find_key : (key : K) (i : ℕ) → Pc K V  -- before node.key == key
  find_value : (key : K) (i : ℕ) → Pc K V  -- before result = node.value
  answered : (key : K) (result : Option V) → Pc K V  -- `none` is the return of false

-- What a step means for the table: a key and its value become visible.
pub data Event (K V : Type 0) : Type 0 where
  silent : Event K V
  put : (key : K) (value : V) → Event K V

module _ {K V : Type 0} (size : ℕ) (hash : K → ℕ) (same : K → K → Bool) where
  -- One step of one thread.
  pub step : (ℕ → Node K V) → Pc K V → (ℕ → Node K V) × Pc K V × Event K V
  step m idle = (m, idle, silent)
  step m (insert_load k v i) = (
    m,
    if ltb i size
        then (if (m (bucket size hash k i)).occupied then insert_ready k v i else insert_cas k v i)
        else inserted k v false,
    silent,
  )
  step m (insert_ready k v i) = (
    m,
    if (m (bucket size hash k i)).ready then insert_key k v i else insert_load k v (i + 1),
    silent,
  )
  step m (insert_key k v i) = (
    m,
    if same (m (bucket size hash k i)).key k then inserted k v false else insert_load k v (i + 1),
    silent,
  )
  step m (insert_cas k v i) =
      let b = bucket size hash k i in
      if (m b).occupied
      then (m, insert_load k v (i + 1), silent)
      else (update m b (record (m b) { occupied = true }), write_key k v i, silent)
  step m (write_key k v i) =
      let b = bucket size hash k i in
      (update m b (record (m b) { key = k }), write_value k v i, silent)
  step m (write_value k v i) =
      let b = bucket size hash k i in
      (update m b (record (m b) { value = v }), publish k v i, silent)
  step m (publish k v i) =
      let b = bucket size hash k i in
      (update m b (record (m b) { ready = true }), inserted k v true, put k v)
  step m (inserted k v r) = (m, inserted k v r, silent)
  step m (find_load k i) = (
    m,
    if ltb i size
        then (if (m (bucket size hash k i)).occupied then find_ready k i else answered k none)
        else answered k none,
    silent,
  )
  step m (find_ready k i) =
      (m, if (m (bucket size hash k i)).ready then find_key k i else find_ready k i, silent)
  step m (find_key k i) = (
    m,
    if same (m (bucket size hash k i)).key k then find_value k i else find_load k (i + 1),
    silent,
  )
  step m (find_value k i) = (m, answered k (some (m (bucket size hash k i)).value), silent)
  step m (answered k r) = (m, answered k r, silent)

-- A thread may make its next call.
abbrev pub is_ready : {K V : Type 0} → Pc K V → Bool
is_ready idle = true
is_ready (inserted _ _ _) = true
is_ready (answered _ _) = true
is_ready _ = false

-- All threads over one table. The program does not keep `log`: the keys and values whose
-- `ready.store` was done, newest first.
pub record System (K V : Type 0) : Type 0 where
  pub mem : ℕ → Node K V
  pub pc : ℕ → Pc K V
  pub log : List (K × V)

abbrev pub log_after : {K V : Type 0} → Event K V → List (K × V) → List (K × V)
log_after silent log = log
log_after (put k v) log = (k, v) ∷ log

module _ {K V : Type 0} (size : ℕ) (hash : K → ℕ) (same : K → K → Bool) where
  -- Thread `u` makes one step.
  pub advance : ℕ → System K V → System K V
  advance u s =
      let (m, p, e) = step size hash same s.mem (s.pc u) in
      record { mem = m; pc = update s.pc u p; log = log_after e s.log }

  pub data Step (s : System K V) : System K V → Type 0 where
    call_insert :
        (u : ℕ) (k : K) (v : V)
        → is_ready (s.pc u) ≡ true
        → Step s (record s { pc = update s.pc u (insert_load k v 0) })
    call_find :
        (u : ℕ) (k : K)
        → is_ready (s.pc u) ≡ true
        → Step s (record s { pc = update s.pc u (find_load k 0) })
    move : (u : ℕ) → Step s (advance u s)

pub start : {K V : Type 0} → K → V → System K V
start key value = record { mem = init key value; pc = λ _. idle; log = [] }

module _ {K V : Type 0} (size : ℕ) (hash : K → ℕ) (same : K → K → Bool) (blank : K × V) where
  pub data Reach : System K V → Type 0 where
    here : Reach (start blank.0 blank.1)
    next : {s t : System K V} → Reach s → Step size hash same s t → Reach t
