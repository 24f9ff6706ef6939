-- ===== src/Examples/Fleet.antt =====
-- The threads of mpmc_example (examples/ring_buffer_example.cpp) and of concurrent_trading_example
-- (examples/order_book_example.cpp), over the interleaved steps of one ring: a producer pushes its
-- items one after the other, each until try_push takes it; a consumer pops until it has its share.
pub mod Invariant
pub mod Reachable
pub mod Over
mod Tests
use lockless_concurrent_fram.Common.{
  ℕ, ◌+◌, ◌≤◌, ◌<◌, ◌≡◌, Bool, true, false, none, some, List, [], ◌∷◌, update,
}
use lockless_concurrent_fram.Ring
use lockless_concurrent_fram.Ring.{push_load, pushed, pop_load, popped, is_ready}

-- Where a thread stands in its function: between two calls, in a call, or at its end.
pub data Call : Type 0 where
  resting pushing popping joined : Call

abbrev pub is_busy : Call → Bool
is_busy pushing = true
is_busy popping = true
is_busy _ = false

-- `todo` are the items that a producer has yet to push, the current one first.
pub record Thread (T : Type 0) : Type 0 where
  pub call : Call
  pub todo : List T
  pub local_count : ℕ

pub record System (T : Type 0) : Type 0 where
  pub ring : Ring.System T
  pub threads : ℕ → Thread T
  pub total_consumed : ℕ

-- Thread `i` calls one of the two operations.
abbrev pub calls : {T : Type 0} → ℕ → Ring.Pc T → Call → System T → System T
calls i p c s = record s {
  ring = record s.ring { pc = update s.ring.pc i p };
  threads = update s.threads i (record (s.threads i) { call = c });
}

-- Thread `i` goes on to its next call, or to its end.
abbrev pub goes_on : {T : Type 0} → ℕ → Thread T → System T → System T
goes_on i th s = record s { threads = update s.threads i th }

-- `n` threads, on a ring of `size` slots. Thread `i` has the items `items i` to push and `quota i` items
-- to consume.
module _ {T : Type 0} (size n : ℕ) (items : ℕ → List T) (quota : ℕ → ℕ) where
  unfoldable pub start : T → System T
  start blank = record {
    ring = Ring.start size blank;
    threads = λ i. record { call = resting; todo = items i; local_count = 0 };
    total_consumed = 0;
  }

  pub data Step (i : ℕ) (s : System T) : System T → Type 0 where
    call_push :
        (x : T) (rest : List T)
        → (s.threads i).call ≡ resting
        → (s.threads i).todo ≡ x ∷ rest
        → is_ready (s.ring.pc i) ≡ true
        → Step i s (calls i (push_load x) pushing s)
    end_push :
        (x : T) (rest : List T)
        → (s.threads i).call ≡ pushing
        → (s.threads i).todo ≡ x ∷ rest
        → s.ring.pc i ≡ pushed true
        → Step i s (goes_on i (record (s.threads i) { call = resting; todo = rest }) s)
    push_again :
        (s.threads i).call ≡ pushing
        → s.ring.pc i ≡ pushed false
        → Step i s (goes_on i (record (s.threads i) { call = resting }) s)
    call_pop :
        (s.threads i).call ≡ resting
        → (s.threads i).todo ≡ []
        → (s.threads i).local_count < quota i
        → is_ready (s.ring.pc i) ≡ true
        → Step i s (calls i pop_load popping s)
    end_pop :
        (x : T)
        → (s.threads i).call ≡ popping
        → s.ring.pc i ≡ popped (some x)
        → Step i s (
            goes_on i
              (record (s.threads i) { call = resting; local_count = (s.threads i).local_count + 1 })
              s)
    pop_again :
        (s.threads i).call ≡ popping
        → s.ring.pc i ≡ popped none
        → Step i s (goes_on i (record (s.threads i) { call = resting }) s)
    join :
        (s.threads i).call ≡ resting
        → (s.threads i).todo ≡ []
        → quota i ≤ (s.threads i).local_count
        → Step i s (record s {
          threads = update s.threads i (record (s.threads i) { call = joined });
          total_consumed = s.total_consumed + (s.threads i).local_count;
        })
    move :
        (spurious : Bool)
        → is_busy (s.threads i).call ≡ true
        → Step i s (record s { ring = Ring.advance size i spurious s.ring })

  pub data Reach (blank : T) : System T → Type 0 where
    here : Reach blank (start blank)
    next : {s t : System T} (i : ℕ) → i < n → Reach blank s → Step i s t → Reach blank t
