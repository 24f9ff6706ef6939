-- ===== src/Examples/Trading/Drain.antt =====
-- The loop that processes all that is left in the queue.
use native.Mathlib.Nat.{zero-add}
use lockless_concurrent_fram.Common.{
  ℕ, zero, suc, ◌+◌, ◌*◌, ◌≤◌, ◌<◌, ◌≡◌, refl, sym, ap, ap₂, ◌∙◌, subst, Bool, true, false, Option,
  some, List, [], ◌∷◌, length, take, drop, length-drop, length-take, min, may_succeed, ◌==◌, arith,
}
use lockless_concurrent_fram.Common.Words.{add64, word64}
use lockless_concurrent_fram.Ring
use lockless_concurrent_fram.Ring.Alone.{Holds}
use lockless_concurrent_fram.Ring.Invariant.Slots.{IsSize}
use lockless_concurrent_fram.Ring.Safety.{at_rest}
use lockless_concurrent_fram.Book.{Order, Levels, OrderBook, no_levels}
use lockless_concurrent_fram.Book.Single.{
  Ranged, Roomy, AllRanged, units, apply_all, apply_all-take-drop, units-take-drop, AllRanged-take,
  AllRanged-drop, apply_all-Roomy,
}
use lockless_concurrent_fram.Book.Batch.{process_orders-refines}
use lockless_concurrent_fram.Examples.Trading.{process_rest, trader_order}

some_left : (n : ℕ) → (min 100 (suc n) == 0) ≡ false
some_left n = ground arith

abbrev outcome : Ring.Memory Order → Levels → ℕ → Option (OrderBook × ℕ)
outcome queue l n = some (record { order_queue = queue; levels = l }, n)

module _ (size : ℕ) (ok : IsSize size) (pops spurious : ℕ → ℕ → List Bool)
    (lucky : (n i : ℕ) → may_succeed (pops n i) ≡ true)
    (fair : (n i : ℕ) → may_succeed (spurious n i) ≡ true) where
  -- When the counters do not overflow, the orders' fields are in range, and no call fails
  -- spuriously for ever, the loop, running alone on a queue of a size that is a power of two from
  -- 2 on, ends after one round more than there are orders, or earlier: every order has been
  -- applied in turn, the queue is empty, and the total has grown by their number.
  pub process_rest-drains :
      (n total : ℕ) (b : OrderBook) (q : List Order)
      → length q < n
      → Holds size b.order_queue q
      → AllRanged q
      → Roomy b.levels (length q) (units q)
      → total + length q < word64
      → (queue : Ring.Memory Order) × (process_rest size n pops spurious b total
          ≡ some (record { order_queue = queue; levels = apply_all b.levels q }, total + length q))
        × Holds size queue []
  unfolding process_rest apply_all
  process_rest-drains zero total b q lt h g r room = absurd (omega (arith, lt))
  process_rest-drains (suc n) total b [] lt h g r room =
      let (queue, e, held) =
        process_orders-refines size ok (pops n) (lucky n) (spurious n) b 100 [] (fair n) h tt
          (omega (arith, r)) in
      (
        queue,
        rw (e, process_rest)
            (ap (λ n. some (record { order_queue = queue; levels = b.levels }, n))
              (omega (arith, room))),
        held,
      )
  process_rest-drains (suc n) total b (o ∷ q) lt h g r room =
      let orders = o ∷ q in
      let k = min 100 (length orders) in
      let lens : length (take 100 orders) ≡ k = length-take 100 orders in
      let rest_lens : length (drop 100 orders) + k ≡ length orders =
        omega (arith, length-drop 100 orders) in
      let split = units-take-drop 100 orders in
      let (queue, e, held) =
        process_orders-refines size ok (pops n) (lucky n) (spurious n) b 100 orders (fair n) h
          (AllRanged-take 100 orders g) (omega (arith, r, lens, split)) in
      let levels = apply_all b.levels (take 100 orders) in
      let book : OrderBook = record { order_queue = queue; levels = levels } in
      let (queue', f, held') =
        process_rest-drains n (total + k) book (drop 100 orders) (omega (arith, lt, rest_lens)) held
          (AllRanged-drop 100 orders g)
          (apply_all-Roomy (take 100 orders) b.levels (length (drop 100 orders))
            (units (drop 100 orders)) (AllRanged-take 100 orders g)
            (omega (arith, r, lens, rest_lens, split)))
          (omega (arith, room, rest_lens)) in
      let sum : add64 total k ≡ total + k = omega (arith, room) in
      let some_left : (k == 0) ≡ false = some_left (length q) in
      (
        queue',
        rw (e, process_rest, some_left, sum)
            (f
              ∙ ap₂ (outcome queue') (apply_all-take-drop 100 orders b.levels)
                  (omega (arith, rest_lens))),
        held',
      )

pub slots_4096 : IsSize 4096
slots_4096 = record { pow = record { exponent = 12; is_pow = refl }; two = omega arith }

-- Each order is one that some trader submits.
abbrev pub Traded : List Order → Type 0
Traded [] = Unit
Traded (o ∷ orders) =
    ((i : ℕ) × (j : ℕ) × (i < 4) × (j < 500) × (o ≡ trader_order 500 i j)) × Traded orders

pub trader_order-Ranged :
    (m i j : ℕ) → Ranged (trader_order m i j) × ((trader_order m i j).quantity < 100)
unfolding trader_order
trader_order-Ranged m i j =
    (record { price_ok = omega arith; quantity_ok = omega arith }, omega arith)

Traded-AllRanged :
    (orders : List Order) → Traded orders → AllRanged orders × (units orders ≤ 100 * length orders)
Traded-AllRanged [] t = (tt, omega arith)
Traded-AllRanged (o ∷ orders) ((i, j, in_i, in_j, e), t) =
    let (g, few) = trader_order-Ranged 500 i j in
    let (gs, more) = Traded-AllRanged orders t in
    ((subst Ranged (sym e) g, gs), omega (arith, subst (λ o. o.quantity < 100) (sym e) few, more))

-- In concurrent_trading_example: whatever the interleaving of the threads that submit orders of
-- the traders to the new queue, at most 2000 in all, when none of them is inside a call and
-- nothing has been taken out, and no call of the loop fails spuriously for ever, the loop of
-- process_orders, running alone on the empty book, ends within 2001 rounds; every order submitted
-- has then been applied, in the order of their reservations, the total is their number, and the
-- queue is empty.
all_processed :
    (pops spurious : ℕ → ℕ → List Bool)
    → ((n i : ℕ) → may_succeed (pops n i) ≡ true)
    → ((n i : ℕ) → may_succeed (spurious n i) ≡ true)
    → {blank : Order} {s : Ring.System Order} → Ring.Reach 4096 blank s
    → ((i : ℕ) → Ring.is_ready (s.pc i) ≡ true)
    → s.mem.tail ≡ 0
    → Traded s.log
    → length s.log ≤ 2000
    → (n : ℕ) → 2000 < n
    → (queue : Ring.Memory Order) × (process_rest 4096 n pops spurious
          (record { order_queue = s.mem; levels = no_levels })
          0
        ≡ some (record { order_queue = queue; levels = apply_all no_levels s.log }, length s.log))
      × Holds 4096 queue []
unfolding no_levels
all_processed pops spurious lucky fair {s = s} r ready untouched traded small n enough =
    let held : Holds 4096 s.mem s.log =
      subst (λ k. Holds 4096 s.mem (drop k s.log)) untouched
        (at_rest 4096 slots_4096 r (omega (arith, small)) ready) in
    let (g, few) = Traded-AllRanged s.log traded in
    let (queue, e, empty) =
      process_rest-drains 4096 slots_4096 pops spurious lucky fair n 0
        (record { order_queue = s.mem; levels = no_levels }) s.log (omega (arith, small, enough))
        held g (omega (arith, small, few)) (omega (arith, small)) in
    (
      queue,
      e
          ∙ ap (λ k. some (record { order_queue = queue; levels = apply_all no_levels s.log }, k))
              (zero-add (length s.log)),
      empty,
    )
