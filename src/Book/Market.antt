-- ===== src/Book/Market.antt =====
-- include/lockless/order_book.hpp: submit_order and process_orders with many threads at work, over the
-- steps of Ring for the queue and of Book/Shared for the prices and totals.
pub mod Invariant
pub mod Reachable
pub mod Processed
mod Tests
use lockless_concurrent_fram.Common.{
  ℕ, zero, suc, ◌<◌, ◌≡◌, Bool, true, false, none, some, List, [], ◌∷◌, ◌++◌, min, update,
}
use lockless_concurrent_fram.Ring
use lockless_concurrent_fram.Ring.{push_load, pushed, pop_load, popped, is_ready}
use lockless_concurrent_fram.Book.{Order}
use lockless_concurrent_fram.Book.Shared
use lockless_concurrent_fram.Book.Shared.{idle, entry}

-- Where a thread stands: outside, in submit_order, in the loop of try_pop_batch between two calls of
-- try_pop and inside one, or in the loop over the batch.
pub data Call : Type 0 where
  resting submitting filling popping processing : Call

-- `orders` is the part of the local array that is yet to be processed, and `room` how many more calls
-- of try_pop the batch allows.
pub record Thread : Type 0 where
  pub call : Call
  pub room : ℕ
  pub orders : List Order

-- `begun` is the history of the orders that process_single_order was called with, newest first.
pub record System : Type 0 where
  pub ring : Ring.System Order
  pub book : Shared.System
  pub threads : ℕ → Thread
  pub begun : List Order

-- Thread `i` calls an operation of the queue, or goes on.
abbrev pub calls : ℕ → Ring.Pc Order → Thread → System → System
calls i p th s = record s {
  ring = record s.ring { pc = update s.ring.pc i p };
  threads = update s.threads i th;
}

abbrev pub goes_on : ℕ → Thread → System → System
goes_on i th s = record s { threads = update s.threads i th }

module _ (size : ℕ) where
  pub start : Order → System
  start blank = record {
    ring = Ring.start size blank;
    book = Shared.start;
    threads = λ _. record { call = resting; room = 0; orders = [] };
    begun = [];
  }

  pub data Step (i : ℕ) (s : System) : System → Type 0 where
    call_submit :
        (o : Order)
        → (s.threads i).call ≡ resting
        → is_ready (s.ring.pc i) ≡ true
        → Step i s (calls i (push_load o) (record (s.threads i) { call = submitting }) s)
    end_submit :
        (result : Bool)
        → (s.threads i).call ≡ submitting
        → s.ring.pc i ≡ pushed result
        → Step i s (goes_on i (record (s.threads i) { call = resting }) s)
    call_process :
        (batch_size : ℕ)
        → (s.threads i).call ≡ resting
        → Step i s (goes_on i (record { call = filling; room = min batch_size 100; orders = [] }) s)
    pop_next :
        (k : ℕ)
        → (s.threads i).call ≡ filling
        → (s.threads i).room ≡ suc k
        → is_ready (s.ring.pc i) ≡ true
        → Step i s (calls i pop_load (record (s.threads i) { call = popping; room = k }) s)
    pop_some :
        (o : Order)
        → (s.threads i).call ≡ popping
        → s.ring.pc i ≡ popped (some o)
        → Step i s (
            goes_on i
              (record (s.threads i) { call = filling; orders = (s.threads i).orders ++ o ∷ [] })
              s)
    pop_none :
        (s.threads i).call ≡ popping
        → s.ring.pc i ≡ popped none
        → Step i s (goes_on i (record (s.threads i) { call = processing }) s)
    batch_full :
        (s.threads i).call ≡ filling
        → (s.threads i).room ≡ 0
        → Step i s (goes_on i (record (s.threads i) { call = processing }) s)
    process_next :
        (o : Order) (rest : List Order)
        → (s.threads i).call ≡ processing
        → (s.threads i).orders ≡ o ∷ rest
        → s.book.pc i ≡ idle
        → Step i s (record s {
          book = record s.book { pc = update s.book.pc i (entry o o.side) };
          threads = update s.threads i (record (s.threads i) { orders = rest });
          begun = o ∷ s.begun;
        })
    end_process :
        (s.threads i).call ≡ processing
        → (s.threads i).orders ≡ []
        → s.book.pc i ≡ idle
        → Step i s (goes_on i (record (s.threads i) { call = resting }) s)
    move_submit :
        (spurious : Bool)
        → (s.threads i).call ≡ submitting
        → Step i s (record s { ring = Ring.advance size i spurious s.ring })
    move_pop :
        (spurious : Bool)
        → (s.threads i).call ≡ popping
        → Step i s (record s { ring = Ring.advance size i spurious s.ring })
    move_process :
        (spurious : Bool)
        → (s.threads i).call ≡ processing
        → Step i s (record s { book = Shared.advance i spurious s.book })

  -- Threads are numbered below `n`.
  pub data Reach (n : ℕ) (blank : Order) : System → Type 0 where
    here : Reach n blank (start blank)
    next : {s t : System} (i : ℕ) → i < n → Reach n blank s → Step i s t → Reach n blank t
