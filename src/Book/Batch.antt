-- ===== src/Book/Batch.antt =====
-- `submit_order` and `process_orders`: the queue of orders and the book together.
use lockless_concurrent_fram.Common.{
  Option, none, some-injective, ap, ◌∙◌, sym, refl, ◌+◌, ◌<◌, ◌≤◌, ℕ, ◌≡◌, Bool, true, some, List,
  length, length-take, take, drop, may_succeed, min,
}
use lockless_concurrent_fram.Queue
use lockless_concurrent_fram.Ring
use lockless_concurrent_fram.Ring.Invariant.Slots.{IsSize}
use lockless_concurrent_fram.Ring.Alone.{Holds, try_push-refines}
use lockless_concurrent_fram.Ring.Batch.{try_pop_batch-refines}
use lockless_concurrent_fram.Ring.Head.{try_pop_batch-head}
use lockless_concurrent_fram.Ring.Calls.{try_pop_batch}
use lockless_concurrent_fram.Book.{
  Order, OrderBook, submit_order, process_orders, finish_batch, process_all, Levels,
}
use lockless_concurrent_fram.Book.Single.{Roomy, AllRanged, units, apply_all, process_all-apply_all}

module _ (queue_size : ℕ) (ok : IsSize queue_size) (pops : ℕ → List Bool)
    (lucky : (i : ℕ) → may_succeed (pops i) ≡ true) where
  -- When no counter overflows, the orders' fields are in range, and no call fails spuriously for
  -- ever, `process_orders`, running alone on a queue of a size that is a power of two from 2 on,
  -- takes the oldest orders, at most `batch_size` and at most 100, applies them in turn, leaves
  -- the others queued, and returns how many it took.
  pub process_orders-refines :
      (spurious : ℕ → List Bool) (b : OrderBook) (batch_size : ℕ) (q : List Order)
      → ((i : ℕ) → may_succeed (spurious i) ≡ true)
      → Holds queue_size b.order_queue q
      → AllRanged (take (min batch_size 100) q)
      → Roomy b.levels (length (take (min batch_size 100) q)) (units (take (min batch_size 100) q))
      → (queue : Ring.Memory Order) × (process_orders queue_size pops spurious b batch_size
          ≡ some (
            record {
              order_queue = queue;
              levels = apply_all b.levels (take (min batch_size 100) q);
            },
            min (min batch_size 100) (length q),
          ))
        × Holds queue_size queue (drop (min batch_size 100) q)
  unfolding process_orders
  process_orders-refines spurious b batch_size q fair h ranged roomy =
      let n = min batch_size 100 in
      let (m, e, held) = try_pop_batch-refines queue_size ok pops lucky n q 0 b.order_queue h in
      let f = process_all-apply_all (take n q) spurious b.levels fair roomy ranged in
      (m, rw (e, process_orders, f, length-take n q), held)

-- `submit_order` puts the order at the end of the queue, unless that is full, and leaves the rest of
-- the book alone.
pub submit_order-refines :
    (queue_size : ℕ) (ok : IsSize queue_size) (spurious : List Bool) (b : OrderBook)
    (q : List Order) (order : Order)
    → may_succeed spurious ≡ true
    → Holds queue_size b.order_queue q
    → b.order_queue.head + 1 + queue_size < 0x8000_0000_0000_0000
    → (queue : Ring.Memory Order) × (submit_order queue_size spurious b order
        ≡ some (record b { order_queue = queue }, (Queue.push queue_size q order).1))
      × Holds queue_size queue (Queue.push queue_size q order).0
      × (queue.head ≤ b.order_queue.head + 1)
unfolding submit_order
submit_order-refines size ok spurious b q order lucky h more =
    let (queue, e, held, near) = try_push-refines size ok h spurious order lucky more in
    (queue, rw (e, submit_order) refl, held, near)

finished :
    (b' : OrderBook) (k : ℕ) (l : Option Levels) (queue : Ring.Memory Order) (orders : List Order)
    → finish_batch queue orders l ≡ some (b', k)
    → queue ≡ b'.order_queue
finished b' k none queue orders e = cc
finished b' k (some l) queue orders e = ap (λ r. r.0.order_queue) (some-injective e)

pub process_orders-head :
    (queue_size : ℕ) (pops spurious : ℕ → List Bool) (b b' : OrderBook) (n k : ℕ)
    → process_orders queue_size pops spurious b n ≡ some (b', k)
    → b'.order_queue.head ≡ b.order_queue.head
unfolding process_orders
process_orders-head size pops spurious b b' n k e =
    by_batch (try_pop_batch size pops 0 (min n 100) b.order_queue) refl e
  where
    by_batch :
        (r : Option (Ring.Memory Order × List Order))
        → try_pop_batch size pops 0 (min n 100) b.order_queue ≡ r
        → elim r [
          | none ↦ none
          | some (queue, orders) ↦ finish_batch queue orders (process_all spurious b.levels orders)
        ]
          ≡ some (b', k)
        → b'.order_queue.head ≡ b.order_queue.head
    by_batch none f e = cc
    by_batch (some (queue, orders)) f e =
        ap (λ m. m.head) (sym (finished b' k (process_all spurious b.levels orders) queue orders e))
        ∙ try_pop_batch-head size pops 0 (min n 100) b.order_queue queue orders f
