-- ===== src/Epoch.antt =====
-- include/lockless/epoch_reclaimer.hpp: EpochReclaimer, which puts off deletions by epochs.
-- A call is a sequence of steps with one shared access each, and threads interleave step by step.
pub mod Invariant
pub mod Kept
pub mod Reachable
pub mod Grace
pub mod Race
pub mod Counts
pub mod Conserved
pub mod Calls
mod Tests
use lockless_concurrent_fram.Common.{
  ℕ, ◌+◌, ◌%◌, ◌<◌, ◌≡◌, ◌≢◌, Bool, true, false, not, ◌&&◌, Option, none, some, List, [], ◌∷◌, ◌++◌,
  ltb, ◌==◌, if◌then◌else◌, update,
}
use lockless_concurrent_fram.Common.Words.{add64, max64}

-- MAX_THREADS and NUM_EPOCHS.
abbrev pub max_threads : ℕ
max_threads = 64

abbrev pub num_epochs : ℕ
num_epochs = 3

-- A retired object. `epoch` is the epoch that `retire` read: the program does not keep it.
pub record RetiredNode : Type 0 where
  pub ptr : ℕ
  pub epoch : ℕ

-- The members of `EpochReclaimer`, with the fields of its slots as two arrays.
pub record Memory : Type 0 where
  pub global_epoch : ℕ
  pub local_epoch : ℕ → ℕ
  pub in_use : ℕ → Bool
  pub retire_lists : ℕ → List RetiredNode

abbrev pub init : Memory
init = record {
  global_epoch = 0;
  local_epoch = λ _. max64;
  in_use = λ _. false;
  retire_lists = λ _. [];
}

-- Where a thread stands in a call, with the locals that are live there.
pub data Pc : Type 0 where
  idle : Pc
  enter_load : Pc  -- enter_critical, before global_epoch_.load
  enter_store : (epoch : ℕ) → Pc  -- before local_epoch.store
  retire_load : (ptr : ℕ) → Pc  -- retire, before global_epoch_.load
  retire_push : (ptr epoch : ℕ) → Pc  -- before push_back under the list's mutex
  advance_load : Pc  -- try_advance, before global_epoch_.load
  scan_use : (slot current : ℕ) → Pc  -- top of the loop, before in_use is read
  scan_epoch : (slot current : ℕ) → Pc  -- before local_epoch.load
  cas : (current : ℕ) → Pc  -- before the compare-exchange
  swap : (new_epoch : ℕ) → Pc  -- won, before to_free.swap under the list's mutex
  delete : (to_free : List RetiredNode) → Pc  -- before the next deleter

-- What a step means to the callers: an object is deleted.
pub data Event : Type 0 where
  silent : Event
  deleted : (ptr : ℕ) → Event

-- `thread_epoch != UINT64_MAX && thread_epoch != current`.
pub is_behind : ℕ → ℕ → Bool
is_behind thread_epoch current = not (thread_epoch == max64) && not (thread_epoch == current)

-- One step of thread `i`, whose slot is number `i`.
pub step : ℕ → Memory → Pc → Memory × Pc × Event
step i m idle = (m, idle, silent)
step i m enter_load = (m, enter_store m.global_epoch, silent)
step i m (enter_store epoch) =
    (record m { local_epoch = update m.local_epoch i epoch }, idle, silent)
step i m (retire_load ptr) = (m, retire_push ptr m.global_epoch, silent)
step i m (retire_push ptr epoch) =
    let idx = epoch % num_epochs in
    let node : RetiredNode = record { ptr = ptr; epoch = epoch } in
    (
      record m { retire_lists = update m.retire_lists idx (m.retire_lists idx ++ node ∷ []) },
      advance_load,
      silent,
    )
step i m advance_load = (m, scan_use 0 m.global_epoch, silent)
step i m (scan_use slot current) = (
  m,
  if ltb slot max_threads
      then (if m.in_use slot then scan_epoch slot current else scan_use (slot + 1) current)
      else cas current,
  silent,
)
step i m (scan_epoch slot current) = (
  m,
  if is_behind (m.local_epoch slot) current then idle else scan_use (slot + 1) current,
  silent,
)
step i m (cas current) =
    let new_epoch = add64 current 1 in
    if m.global_epoch == current
    then (record m { global_epoch = new_epoch }, swap new_epoch, silent)
    else (m, idle, silent)
step i m (swap new_epoch) =
    let old_idx = new_epoch % num_epochs in
    (
      record m { retire_lists = update m.retire_lists old_idx [] },
      delete (m.retire_lists old_idx),
      silent,
    )
step i m (delete []) = (m, idle, silent)
step i m (delete (node ∷ to_free)) = (m, delete to_free, deleted node.ptr)

-- The calls that are one store, or belong to one thread alone: `leave_critical`, and the slot of a
-- thread taken by `register_thread` and given back by `unregister_thread`.
pub leave_critical : ℕ → Memory → Memory
leave_critical i m = record m { local_epoch = update m.local_epoch i max64 }

pub take_slot : ℕ → Memory → Memory
take_slot i m = record m {
  in_use = update m.in_use i true;
  local_epoch = update m.local_epoch i max64;
}

pub unregister_thread : ℕ → Memory → Memory
unregister_thread i m =
    if ltb i max_threads
    then record m { local_epoch = update m.local_epoch i max64; in_use = update m.in_use i false }
    else m

-- All threads over one reclaimer. The program does not keep the rest: `entered` is the global epoch
-- at the moment of a thread's last store to its own slot, `epochs` counts the advances, and `freed`
-- is the history of deletions, oldest first.
pub record System : Type 0 where
  pub mem : Memory
  pub pc : ℕ → Pc
  pub entered : ℕ → ℕ
  pub epochs : ℕ
  pub freed : List ℕ

abbrev pub entered_after : ℕ → Pc → ℕ → (ℕ → ℕ) → ℕ → ℕ
entered_after i (enter_store _) global entered = update entered i global
entered_after i _ global entered = entered

abbrev pub epochs_after : Pc → Pc → ℕ → ℕ
epochs_after (cas _) (swap _) n = n + 1
epochs_after _ _ n = n

abbrev pub freed_after : Event → List ℕ → List ℕ
freed_after silent freed = freed
freed_after (deleted ptr) freed = freed ++ ptr ∷ []

-- Thread `i` makes one step.
pub advance : ℕ → System → System
advance i s =
    let (m, p, e) = step i s.mem (s.pc i) in
    record {
      mem = m;
      pc = update s.pc i p;
      entered = entered_after i (s.pc i) s.mem.global_epoch s.entered;
      epochs = epochs_after (s.pc i) p s.epochs;
      freed = freed_after e s.freed;
    }

pub start : System
start = record { mem = init; pc = λ _. idle; entered = λ _. 0; epochs = 0; freed = [] }

-- What thread `i` does. A thread enters only with a slot, and not from inside a critical section;
-- a slot is taken by one thread at a time.
pub data Step (i : ℕ) (s : System) : System → Type 0 where
  call_register :
      s.pc i ≡ idle
      → s.mem.in_use i ≡ false
      → i < max_threads
      → Step i s (record s { mem = take_slot i s.mem })
  call_unregister : s.pc i ≡ idle → Step i s (record s { mem = unregister_thread i s.mem })
  call_enter :
      s.pc i ≡ idle
      → s.mem.in_use i ≡ true
      → s.mem.local_epoch i ≡ max64
      → Step i s (record s { pc = update s.pc i enter_load })
  call_leave : s.pc i ≡ idle → Step i s (record s { mem = leave_critical i s.mem })
  call_retire :
      (ptr : ℕ) → s.pc i ≡ idle → Step i s (record s { pc = update s.pc i (retire_load ptr) })
  move : Step i s (advance i s)

pub data Reach : System → Type 0 where
  here : Reach start
  next : {s t : System} (i : ℕ) → Reach s → Step i s t → Reach t

-- Thread `i` is in a critical section.
abbrev pub IsInside : System → ℕ → Type 0
IsInside s i = s.mem.local_epoch i ≢ max64
