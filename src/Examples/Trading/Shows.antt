-- ===== src/Examples/Trading/Shows.antt =====
-- What the two first examples print, whichever exchanges fail spuriously.
use lockless_concurrent_fram.Common.{
  ℕ, ◌+◌, ◌≤◌, ◌<◌, ◌≡◌, refl, Bool, true, some, List, [], ◌∷◌, ◌++◌, append-nil, append_assoc,
  length-snoc, length, may_succeed, ltb, arith,
}
use lockless_concurrent_fram.Ring
use lockless_concurrent_fram.Ring.Alone.{Holds, init-Holds}
use lockless_concurrent_fram.Ring.Invariant.Slots.{IsSize}
use lockless_concurrent_fram.Book.{
  buy, sell, Order, OrderBook, no_levels, submit_order, process_orders, get_best_bid, get_best_ask,
  get_spread,
}
use lockless_concurrent_fram.Book.Single.{Ranged, Roomy, apply_all, apply, apply_side}
use lockless_concurrent_fram.Book.Batch.{
  submit_order-refines, process_orders-refines, process_orders-head,
}
use lockless_concurrent_fram.Examples.Trading.{
  order, submit_all, new_book, basic_orders, basic_trading_example, matching_example, shown,
}

submit_all-Holds :
    (size : ℕ) (ok : IsSize size) (pushes : ℕ → List Bool)
    → ((i : ℕ) → may_succeed (pushes i) ≡ true)
    → (orders q : List Order) (book : OrderBook) → Holds size book.order_queue q
    → length q + length orders ≤ size
    → book.order_queue.head + length orders + size < 0x8000_0000_0000_0000
    → (queue : Ring.Memory Order) × (submit_all size pushes book orders
        ≡ some (record book { order_queue = queue }))
      × Holds size queue (q ++ orders)
unfolding submit_all
submit_all-Holds size ok pushes lucky [] q book h fits room =
    (book.order_queue, refl, rw append-nil h)
submit_all-Holds size ok pushes lucky (o ∷ orders) q book h fits room =
    let (queue, e, held, near) =
      submit_order-refines size ok (pushes (length orders)) book q o (lucky (length orders)) h
        (omega (arith, room)) in
    let free : ltb (length q) size ≡ true = ground (arith, fits) in
    let (queue', f, held') =
      submit_all-Holds size ok pushes lucky orders (q ++ o ∷ [])
        (record book { order_queue = queue }) (rw free at held)
        (omega (arith, fits, length-snoc q o)) (omega (arith, room, near)) in
    (queue', rw (e, submit_all) f, rw append_assoc at held')

slots_1024 : IsSize 1024
slots_1024 = record { pow = record { exponent = 10; is_pow = refl }; two = omega arith }

new_book-Holds : Holds 1024 (new_book 1024).order_queue []
new_book-Holds = init-Holds 1024 slots_1024 (order 0 buy 0 0 0) (omega arith)

-- Whichever compare-exchanges fail spuriously, if no call does so for ever, basic_trading_example
-- prints the best bid 10000, the best ask 10010, the spread 10 and no match.
basic_trading_lem :
    (pushes pops spurious : ℕ → List Bool)
    → ((i : ℕ) → may_succeed (pushes i) ≡ true)
    → ((i : ℕ) → may_succeed (pops i) ≡ true)
    → ((i : ℕ) → may_succeed (spurious i) ≡ true)
    → basic_trading_example pushes pops spurious
      ≡ some (record { best_bid = 10000; best_ask = 10010; spread = 10; matched_orders = 0 })
unfolding basic_trading_example shown apply_all apply apply_side no_levels get_best_bid get_best_ask
    get_spread
basic_trading_lem pushes pops spurious lucky lucky' fair =
    let (queue, e, held) =
      submit_all-Holds 1024 slots_1024 pushes lucky basic_orders [] (new_book 1024) new_book-Holds
        (omega arith) (omega arith) in
    let (queue', f, held') =
      process_orders-refines 1024 slots_1024 pops lucky' spurious
        (record { order_queue = queue; levels = no_levels }) 10 basic_orders fair held (omega arith)
        (omega arith) in
    rw (e, f, basic_trading_example) refl

-- One order goes through an empty queue.
one_through :
    (pushes : List Bool) (pops spurious : ℕ → List Bool)
    → may_succeed pushes ≡ true
    → ((i : ℕ) → may_succeed (pops i) ≡ true)
    → ((i : ℕ) → may_succeed (spurious i) ≡ true)
    → (o : Order) (book : OrderBook) → Ranged o
    → Roomy book.levels 1 o.quantity
    → Holds 1024 book.order_queue []
    → book.order_queue.head + 1 + 1024 < 0x8000_0000_0000_0000
    → (queue : Ring.Memory Order) × (queue' : Ring.Memory Order) × (submit_order 1024 pushes book o
        ≡ some (record book { order_queue = queue }, true))
      × (process_orders 1024 pops spurious (record book { order_queue = queue }) 10
          ≡ some (record { order_queue = queue'; levels = apply book.levels o }, 1))
      × Holds 1024 queue' []
      × (queue.head ≤ book.order_queue.head + 1)
unfolding apply_all
one_through pushes pops spurious lucky lucky' fair o book g r h room =
    let (queue, e, held, near) =
      submit_order-refines 1024 slots_1024 pushes book [] o lucky h room in
    let (queue', f, held') =
      process_orders-refines 1024 slots_1024 pops lucky' spurious
        (record book { order_queue = queue }) 10 (o ∷ []) fair held (g, tt) (omega (arith, r)) in
    (queue, queue', e, f, held', near)

-- Whichever compare-exchanges fail spuriously, if no call does so for ever, matching_example prints
-- the best ask 10000 after the sell order, and one match after the buy order.
matching_lem :
    (pushes : ℕ → List Bool) (pops spurious : ℕ → ℕ → List Bool)
    → ((i : ℕ) → may_succeed (pushes i) ≡ true)
    → ((n i : ℕ) → may_succeed (pops n i) ≡ true)
    → ((n i : ℕ) → may_succeed (spurious n i) ≡ true)
    → matching_example pushes pops spurious ≡ some (10000, 1)
unfolding matching_example apply apply_side no_levels get_best_ask
matching_lem pushes pops spurious lucky lucky' fair =
    let (q₁, q₂, e₁, e₂, held, near) =
      one_through (pushes 0) (pops 0) (spurious 0) (lucky 0) (lucky' 0) (fair 0)
        (order 1 sell 10000 100 1) (new_book 1024) (omega arith) (omega arith) new_book-Holds
        (omega arith) in
    let levels = apply no_levels (order 1 sell 10000 100 1) in
    let same =
      process_orders-head 1024 (pops 0) (spurious 0) (record (new_book 1024) { order_queue = q₁ })
        (record { order_queue = q₂; levels = levels }) 10 1 e₂ in
    let (q₃, q₄, e₃, e₄, _, _) =
      one_through (pushes 1) (pops 1) (spurious 1) (lucky 1) (lucky' 1) (fair 1)
        (order 2 buy 10000 100 2) (record { order_queue = q₂; levels = levels }) (omega arith)
        (omega arith) held (omega (arith, same, near)) in
    rw (e₁, e₂, e₃, e₄, matching_example) refl
