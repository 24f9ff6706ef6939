-- ===== src/Ring.antt =====
-- include/lockless/ring_buffer.hpp: the bounded queue for many producers and many consumers.
-- A call is a sequence of steps with one shared access each, and threads interleave step by step.
pub mod Invariant
pub mod Reachable
pub mod History
pub mod Calls
pub mod Alone
pub mod Batch
pub mod Head
pub mod Carried
pub mod Consumed
pub mod Turns
pub mod Safety
pub mod Solo
pub mod SingleSlot
mod Tests
use lockless_concurrent_fram.Common.{
  ℕ, ◌-◌, ◌≡◌, Bool, true, false, Option, none, some, List, [], ◌∷◌, ◌++◌, bit_and, ◌==◌,
  if◌then◌else◌, update,
}
use lockless_concurrent_fram.Common.Words.{add64, sub64, is_negative}

-- The members of `RingBuffer`. The two arrays are read and written at `slot` only, which is in range.
pub record Memory (T : Type 0) : Type 0 where
  pub sequences : ℕ → ℕ
  pub buffer : ℕ → T
  pub head : ℕ
  pub tail : ℕ

-- Where a thread stands in `try_push` or `try_pop`, with the locals that are live there.
pub data Pc (T : Type 0) : Type 0 where
  idle : Pc T
  push_load : (item : T) → Pc T  -- before head_.load
  push_seq : (item : T) (head : ℕ) → Pc T  -- top of the loop, before sequences_[index].load
  push_cas : (item : T) (head : ℕ) → Pc T  -- diff == 0, before the compare-exchange
  push_write : (item : T) (head : ℕ) → Pc T  -- won, before buffer_[index] = item
  push_publish : (item : T) (head : ℕ) → Pc T  -- before sequences_[index].store
  pushed : (result : Bool) → Pc T
  pop_load : Pc T
  pop_seq : (tail : ℕ) → Pc T
  pop_cas : (tail : ℕ) → Pc T
  pop_read : (tail : ℕ) → Pc T  -- won, before item = buffer_[index]
  pop_publish : (tail : ℕ) (item : T) → Pc T
  popped : (result : Option T) → Pc T  -- `none` is the return of false

-- What a step means for the queue: a ticket for `item` is reserved, or the item of a ticket is taken.
pub data Event (T : Type 0) : Type 0 where
  silent : Event T
  reserved : (item : T) → Event T
  took : (ticket : ℕ) (item : T) → Event T

-- `head & mask_`.
unfoldable pub slot : ℕ → ℕ → ℕ
slot size counter = bit_and counter (size - 1)

module _ {T : Type 0} where
  -- The test on `diff` in `try_push`.
  abbrev pub after_push_seq : T → ℕ → ℕ → Pc T
  after_push_seq item head diff =
      if diff == 0
      then push_cas item head
      else (if is_negative diff then pushed false else push_load item)

  -- The test on `diff` in `try_pop`.
  abbrev pub after_pop_seq : ℕ → ℕ → Pc T
  after_pop_seq tail diff =
      if diff == 0 then pop_cas tail else (if is_negative diff then popped none else pop_load)

module _ {T : Type 0} (size : ℕ) where
  -- The constructor; `blank` stands for what the array of items holds at first.
  unfoldable pub init : T → Memory T
  init blank = record { sequences = λ i. i; buffer = λ _. blank; head = 0; tail = 0 }

  -- One step of one thread. A weak compare-exchange may fail although the values agree: `spurious`.
  unfoldable pub step : Bool → Memory T → Pc T → Memory T × Pc T × Event T
  step spurious m idle = (m, idle, silent)
  step spurious m (push_load x) = (m, push_seq x m.head, silent)
  step spurious m (push_seq x head) =
      (m, after_push_seq x head (sub64 (m.sequences (slot size head)) head), silent)
  step true m (push_cas x head) = (m, push_seq x m.head, silent)
  step false m (push_cas x head) =
      if m.head == head
      then (record m { head = add64 head 1 }, push_write x head, reserved x)
      else (m, push_seq x m.head, silent)
  step spurious m (push_write x head) =
      (record m { buffer = update m.buffer (slot size head) x }, push_publish x head, silent)
  step spurious m (push_publish x head) = (
    record m { sequences = update m.sequences (slot size head) (add64 head 1) },
    pushed true,
    silent,
  )
  step spurious m (pushed b) = (m, pushed b, silent)
  step spurious m pop_load = (m, pop_seq m.tail, silent)
  step spurious m (pop_seq tail) =
      (m, after_pop_seq tail (sub64 (m.sequences (slot size tail)) (add64 tail 1)), silent)
  step true m (pop_cas tail) = (m, pop_seq m.tail, silent)
  step false m (pop_cas tail) =
      if m.tail == tail
      then (record m { tail = add64 tail 1 }, pop_read tail, silent)
      else (m, pop_seq m.tail, silent)
  step spurious m (pop_read tail) =
      let x = m.buffer (slot size tail) in (m, pop_publish tail x, took tail x)
  step spurious m (pop_publish tail x) = (
    record m { sequences = update m.sequences (slot size tail) (add64 (add64 tail (size - 1)) 1) },
    popped (some x),
    silent,
  )
  step spurious m (popped r) = (m, popped r, silent)

-- A thread may make its next call.
abbrev pub is_ready : {T : Type 0} → Pc T → Bool
is_ready idle = true
is_ready (pushed _) = true
is_ready (popped _) = true
is_ready _ = false

-- All threads over one ring. `log` is the history of reserved items, oldest first, and `out` that of
-- the items taken, with their tickets: the program does not keep them.
pub record System (T : Type 0) : Type 0 where
  pub mem : Memory T
  pub pc : ℕ → Pc T
  pub log : List T
  pub out : List (ℕ × T)

abbrev pub log_after : {T : Type 0} → Event T → List T → List T
log_after (reserved x) log = log ++ x ∷ []
log_after _ log = log

abbrev pub out_after : {T : Type 0} → Event T → List (ℕ × T) → List (ℕ × T)
out_after (took t x) out = out ++ (t, x) ∷ []
out_after _ out = out

module _ {T : Type 0} (size : ℕ) where
  unfoldable pub start : T → System T
  unfolding init
  start blank = record { mem = init size blank; pc = λ _. idle; log = []; out = [] }

  -- Thread `i` makes one step.
  unfoldable pub advance : ℕ → Bool → System T → System T
  advance i spurious s =
      let (m, p, e) = step size spurious s.mem (s.pc i) in
      record { mem = m; pc = update s.pc i p; log = log_after e s.log; out = out_after e s.out }

  pub data Step (s : System T) : System T → Type 0 where
    call_push :
        (i : ℕ) (x : T)
        → is_ready (s.pc i) ≡ true
        → Step s (record s { pc = update s.pc i (push_load x) })
    call_pop :
        (i : ℕ) → is_ready (s.pc i) ≡ true → Step s (record s { pc = update s.pc i pop_load })
    move : (i : ℕ) (spurious : Bool) → Step s (advance i spurious s)

  pub data Reach (blank : T) : System T → Type 0 where
    here : Reach blank (start blank)
    next : {s t : System T} → Reach blank s → Step s t → Reach blank t
