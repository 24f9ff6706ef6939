-- ===== src/Book/Tests.antt =====
-- A small book, and the theorems on it.
use lockless_concurrent_fram.Common.{ℕ, ◌≡◌, refl, false, some, List, [], ◌∷◌, arith}
use lockless_concurrent_fram.Ring
use lockless_concurrent_fram.Ring.Invariant.Slots.{IsSize}
use lockless_concurrent_fram.Ring.Alone.{Holds}
use lockless_concurrent_fram.Book.{
  Side, buy, sell, Order, Levels, OrderBook, no_levels, raise_bid, lower_ask, process_buy,
  process_sell, process_side, process_single_order, process_all, process_orders,
}
use lockless_concurrent_fram.Book.Single.{apply_all}
use lockless_concurrent_fram.Book.Invariant.{NotCrossed, never_crossed}
use lockless_concurrent_fram.Book.Batch.{process_orders-refines}

abbrev order : Side → ℕ → ℕ → Order
order s p q = record { order_id = 1; side = s; price = p; quantity = q; timestamp = 0 }

abbrev orders : List Order
orders = order buy 95 10 ∷ order sell 105 20 ∷ order buy 105 5 ∷ []

-- The last order meets the ask.
abbrev afterwards : Levels
afterwards = record {
  best_bid = 95;
  best_ask = 105;
  total_buy_quantity = 10;
  total_sell_quantity = 15;
  matched_orders = 1;
}

process_all_runs : process_all (λ _. false ∷ []) no_levels orders ≡ some afterwards
unfolding process_all process_single_order process_side process_buy process_sell raise_bid lower_ask
    no_levels
process_all_runs = refl

never_crossed_example :
    (l : Levels) × (process_all (λ _. false ∷ []) no_levels orders ≡ some l) × NotCrossed l
never_crossed_example = never_crossed orders (λ _. false ∷ []) (λ _. refl)

two_slots : IsSize 2
two_slots = record { pow = record { exponent = 1; is_pow = refl }; two = omega arith }

-- One order waits in a queue of two slots.
abbrev waiting : OrderBook
waiting = record {
  order_queue = record { sequences = λ i. 1; buffer = λ _. order buy 95 10; head = 1; tail = 0 };
  levels = afterwards;
}

waiting-Holds : Holds 2 waiting.order_queue (order buy 95 10 ∷ [])
waiting-Holds = record {
  span = omega arith;
  fits = omega arith;
  room = omega arith;
  items = λ k b. ground arith;
  spare = λ p a b. omega arith;
}

process_orders-refines_example :
    (queue : Ring.Memory Order) × (process_orders 2 (λ _. false ∷ []) (λ _. false ∷ []) waiting 250
      ≡ some
          (record { order_queue = queue; levels = apply_all afterwards (order buy 95 10 ∷ []) }, 1))
    × Holds 2 queue []
process_orders-refines_example =
    process_orders-refines 2 two_slots (λ _. false ∷ []) (λ _. refl) (λ _. false ∷ []) waiting 250
      (order buy 95 10 ∷ []) (λ _. refl) waiting-Holds (omega arith) (omega arith)
