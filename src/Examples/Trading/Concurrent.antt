-- ===== src/Examples/Trading/Concurrent.antt =====
-- examples/order_book_example.cpp: concurrent_trading_example, from the first order to the last.
use lockless_concurrent_fram.Common.{
  ℕ, ◌+◌, ◌*◌, ◌≤◌, ◌<◌, ◌≡◌, refl, ap, ◌∙◌, subst, Bool, true, ◌&&◌, some, List, [], ◌∷◌, length,
  take, drop, length-take, ltb, if◌then◌else◌, may_succeed, arith,
}
use lockless_concurrent_fram.Common.Words.{word64}
use lockless_concurrent_fram.Common.Sums.{weight, total}
use lockless_concurrent_fram.Ring
use lockless_concurrent_fram.Ring.Alone.{Holds}
use lockless_concurrent_fram.Book.{Order, no_levels}
use lockless_concurrent_fram.Book.Single.{AllRanged, units, apply_all}
use lockless_concurrent_fram.Examples.Upto.{weight-upto-le, length-map-upto}
use lockless_concurrent_fram.Examples.Fleet.{joined, System, Reach}
use lockless_concurrent_fram.Examples.Fleet.Over.{
  over-sent, over-taken, over-length, over-Holds, over-got, weight_one,
}
use lockless_concurrent_fram.Examples.Trading.{trader_order, trader_orders, process_rest}
use lockless_concurrent_fram.Examples.Trading.Drain.{
  process_rest-drains, slots_4096, trader_order-Ranged,
}

-- An order whose fields are out of range.
abbrev out_of_range : Order → ℕ
out_of_range o = if ltb o.price word64 && ltb o.quantity word64 then 0 else 1

none_out-AllRanged : (orders : List Order) → weight out_of_range orders ≡ 0 → AllRanged orders
none_out-AllRanged [] e = tt
none_out-AllRanged (o ∷ orders) e =
    let none_here : out_of_range o ≡ 0 = omega (arith, e) in
    (
      record { price_ok = ground (arith, none_here); quantity_ok = ground (arith, none_here) },
      none_out-AllRanged orders (omega (arith, e)),
    )

weight-units : (orders : List Order) → weight (λ o. o.quantity) orders ≡ units orders
weight-units [] = refl
weight-units (o ∷ orders) = omega (arith, weight-units orders)

module _ (m : ℕ) where
  -- What the orders of all traders have in common.
  trader_orders-le :
      (w : Order → ℕ) (c : ℕ)
      → ((i j : ℕ) → w (trader_order m i j) ≤ c)
      → total 4 (λ i. weight w (trader_orders m i)) ≤ 4 * (m * c)
  unfolding trader_orders
  trader_orders-le w c h = omega (
    arith,
    weight-upto-le w (trader_order m 0) m c (λ j lt. h 0 j),
    weight-upto-le w (trader_order m 1) m c (λ j lt. h 1 j),
    weight-upto-le w (trader_order m 2) m c (λ j lt. h 2 j),
    weight-upto-le w (trader_order m 3) m c (λ j lt. h 3 j),
  )

  trader_orders-length : total 4 (λ i. length (trader_orders m i)) ≡ 4 * m
  unfolding trader_orders
  trader_orders-length = omega (
    arith,
    length-map-upto (trader_order m 0) m,
    length-map-upto (trader_order m 1) m,
    length-map-upto (trader_order m 2) m,
    length-map-upto (trader_order m 3) m,
  )

module _ (m : ℕ) (some_orders : 0 < m) (small : m ≤ 500) {blank : Order} {s : System Order}
    (r : Reach 4096 4 (trader_orders m) (λ _. 0) blank s)
    (over : (i : ℕ) → i < 4 → (s.threads i).call ≡ joined) where
  log-AllRanged : AllRanged s.ring.log × (units s.ring.log ≤ 400 * m)
  log-AllRanged =
      let none_out = trader_orders-le m out_of_range 0 (λ i j.
        let (g, few) = trader_order-Ranged m i j in ground (arith, g.price_ok, g.quantity_ok)) in
      let few =
        trader_orders-le m (λ o. o.quantity) 100
          (λ i j. omega (arith, (trader_order-Ranged m i j).1)) in
      (
        none_out-AllRanged s.ring.log (omega (arith, over-sent r over out_of_range, none_out)),
        omega (arith, over-sent r over (λ o. o.quantity), few, weight-units s.ring.log),
      )

  room : total 4 (λ i. length (trader_orders m i)) + 4096 < 0x8000_0000_0000_0000
  room = omega (arith, small, trader_orders-length m)

  log-length : length s.ring.log ≡ 4 * m
  log-length = over-length r over slots_4096 room ∙ trader_orders-length m

  untouched : s.ring.mem.tail ≡ 0
  untouched = omega (
    arith,
    over-taken r over,
    over-got r over slots_4096 room (λ _. 1),
    weight_one (take s.ring.mem.tail s.ring.log),
    length-take s.ring.mem.tail s.ring.log,
    log-length,
    some_orders,
  )

  -- In concurrent_trading_example, for any number `m` from 1 to 500 of orders per trader (the
  -- program has 500): whatever the interleaving of the four traders, when all have come to their
  -- ends, and no call of the loop of process_orders fails spuriously for ever, this loop, running
  -- alone on the empty book, ends within one round more than there are orders, and the total is
  -- their number; every order in the queue has then been applied, in the order of their
  -- reservations, the queue is empty, and it had held each trader's orders, all of them, each as
  -- often as the traders have it.
  pub concurrent_trading_lem :
      (pops spurious : ℕ → ℕ → List Bool)
      → ((n i : ℕ) → may_succeed (pops n i) ≡ true)
      → ((n i : ℕ) → may_succeed (spurious n i) ≡ true)
      → (n : ℕ) → 4 * m < n
      → (queue : Ring.Memory Order) × (process_rest 4096 n pops spurious
            (record { order_queue = s.ring.mem; levels = no_levels })
            0
          ≡ some (record { order_queue = queue; levels = apply_all no_levels s.ring.log }, 4 * m))
        × Holds 4096 queue []
        × ((w : Order → ℕ) → weight w s.ring.log ≡ total 4 (λ i. weight w (trader_orders m i)))
  unfolding no_levels
  concurrent_trading_lem pops spurious lucky fair n enough =
      let held : Holds 4096 s.ring.mem s.ring.log =
        subst (λ k. Holds 4096 s.ring.mem (drop k s.ring.log)) untouched
          (over-Holds r over slots_4096 room) in
      let (g, few) = log-AllRanged in
      let (queue, e, empty) =
        process_rest-drains 4096 slots_4096 pops spurious lucky fair n 0
          (record { order_queue = s.ring.mem; levels = no_levels }) s.ring.log
          (omega (arith, log-length, enough)) held g (omega (arith, small, log-length, few))
          (omega (arith, small, log-length)) in
      let sum : 0 + length s.ring.log ≡ 4 * m = omega (arith, log-length) in
      (
        queue,
        e
            ∙ ap
                (λ k.
                  some (record { order_queue = queue; levels = apply_all no_levels s.ring.log }, k))
                sum,
        empty,
        over-sent r over,
      )
