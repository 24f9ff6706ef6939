-- ===== src/Spsc.antt =====
-- include/lockless/spsc_queue.hpp: the bounded queue for one producer and one consumer.
pub mod Invariant
pub mod Reachable
pub mod Calls
pub mod Safety
mod Tests
use lockless_concurrent_fram.Common.{
  ℕ, ◌+◌, ◌-◌, ◌≡◌, Bool, true, false, Option, none, some, List, [], ◌∷◌, ◌++◌, bit_and, ◌==◌,
  if◌then◌else◌, update,
}

-- The members of `SPSCQueue`. `head_` and `tail_` are indices of the array.
pub record Memory (T : Type 0) : Type 0 where
  pub head : ℕ
  pub tail : ℕ
  pub buffer : ℕ → T

-- Where the producer stands, with the locals that are live there.
pub data PushPc (T : Type 0) : Type 0 where
  idle : PushPc T
  push_load : (item : T) → PushPc T  -- before head_.load
  push_test : (item : T) (head : ℕ) → PushPc T  -- before tail_.load and the test for a full queue
  push_write : (item : T) (head : ℕ) → PushPc T  -- before buffer_[head] = item
  push_publish : (item : T) (head : ℕ) → PushPc T  -- before head_.store(next)
  pushed : (result : Bool) → PushPc T

-- Where the consumer stands.
pub data PopPc (T : Type 0) : Type 0 where
  idle : PopPc T
  pop_load : PopPc T  -- before tail_.load
  pop_test : (tail : ℕ) → PopPc T  -- before head_.load and the test for an empty queue
  pop_read : (tail : ℕ) → PopPc T  -- before item = buffer_[tail]
  pop_publish : (tail : ℕ) (item : T) → PopPc T  -- before tail_.store
  popped : (result : Option T) → PopPc T  -- `none` is the return of false

-- `(index + 1) & mask_`.
pub next_index : ℕ → ℕ → ℕ
next_index size i = bit_and (i + 1) (size - 1)

pub capacity : ℕ → ℕ
capacity size = size - 1

module _ {T : Type 0} where
  pub init : T → Memory T
  init blank = record { head = 0; tail = 0; buffer = λ _. blank }

  pub empty : Memory T → Bool
  empty m = m.head == m.tail

  module _ (size : ℕ) where
    -- One step of the producer.
    pub push_step : Memory T → PushPc T → Memory T × PushPc T
    push_step m PushPc.idle = (m, PushPc.idle)
    push_step m (push_load x) = (m, push_test x m.head)
    push_step m (push_test x head) =
        if next_index size head == m.tail then (m, pushed false) else (m, push_write x head)
    push_step m (push_write x head) =
        (record m { buffer = update m.buffer head x }, push_publish x head)
    push_step m (push_publish x head) = (record m { head = next_index size head }, pushed true)
    push_step m (pushed b) = (m, pushed b)

    -- One step of the consumer.
    pub pop_step : Memory T → PopPc T → Memory T × PopPc T
    pop_step m PopPc.idle = (m, PopPc.idle)
    pop_step m pop_load = (m, pop_test m.tail)
    pop_step m (pop_test tail) = if tail == m.head then (m, popped none) else (m, pop_read tail)
    pop_step m (pop_read tail) = (m, pop_publish tail (m.buffer tail))
    pop_step m (pop_publish tail x) = (record m { tail = next_index size tail }, popped (some x))
    pop_step m (popped r) = (m, popped r)

-- The queue with its two threads. `log` is the history of the items published, and `out` that of the
-- items released, both oldest first: the program does not keep them.
pub record System (T : Type 0) : Type 0 where
  pub mem : Memory T
  pub producer : PushPc T
  pub consumer : PopPc T
  pub log : List T
  pub out : List T

module _ {T : Type 0} where
  abbrev pub log_after : PushPc T → List T → List T
  log_after (push_publish x _) log = log ++ x ∷ []
  log_after _ log = log

  abbrev pub out_after : PopPc T → List T → List T
  out_after (pop_publish _ x) out = out ++ x ∷ []
  out_after _ out = out

  abbrev pub may_push : PushPc T → Bool
  may_push PushPc.idle = true
  may_push (pushed _) = true
  may_push _ = false

  abbrev pub may_pop : PopPc T → Bool
  may_pop PopPc.idle = true
  may_pop (popped _) = true
  may_pop _ = false

  pub start : T → System T
  unfolding init
  start blank = record {
    mem = init blank;
    producer = PushPc.idle;
    consumer = PopPc.idle;
    log = [];
    out = [];
  }

  module _ (size : ℕ) where
    pub produce : System T → System T
    produce s =
        let (m, p) = push_step size s.mem s.producer in
        record s { mem = m; producer = p; log = log_after s.producer s.log }

    pub consume : System T → System T
    consume s =
        let (m, p) = pop_step size s.mem s.consumer in
        record s { mem = m; consumer = p; out = out_after s.consumer s.out }

    pub data Step (s : System T) : System T → Type 0 where
      call_push :
          (x : T) → may_push s.producer ≡ true → Step s (record s { producer = push_load x })
      call_pop : may_pop s.consumer ≡ true → Step s (record s { consumer = pop_load })
      move_producer : Step s (produce s)
      move_consumer : Step s (consume s)

    pub data Reach (blank : T) : System T → Type 0 where
      here : Reach blank (start blank)
      next : {s t : System T} → Reach blank s → Step s t → Reach blank t
