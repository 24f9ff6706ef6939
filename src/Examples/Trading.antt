-- ===== src/Examples/Trading.antt =====
-- examples/order_book_example.cpp. The lists of a call say which of its compare-exchanges fail
-- spuriously: for the calls one after the other, and the rounds of a loop.
pub mod Drain
pub mod Concurrent
pub mod Shows
use mathlib.Core.List.{map}
use lockless_concurrent_fram.Examples.Upto.{upto}
use lockless_concurrent_fram.Common.{
  ℕ, zero, suc, ◌+◌, ◌-◌, ◌*◌, ◌%◌, ◌≤◌, ◌<◌, ◌≡◌, refl, sym, ap, ap₂, ◌∙◌, subst, Bool, true,
  false, Bool-cases, inl, inr, Option, none, some, List, [], ◌∷◌, length, take, drop, length-drop,
  length-take, min, may_succeed, ltb, ◌==◌, if◌then◌else◌, arith,
}
use lockless_concurrent_fram.Common.Words.{add64, word64}
use lockless_concurrent_fram.Ring
use lockless_concurrent_fram.Ring.Alone.{Holds}
use lockless_concurrent_fram.Ring.Invariant.Slots.{IsSize}
use lockless_concurrent_fram.Book.{
  Side, buy, sell, Order, Levels, OrderBook, no_levels, submit_order, process_orders, get_best_bid,
  get_best_ask, get_spread, get_matched_orders,
}
use lockless_concurrent_fram.Book.Single.{
  Ranged, Roomy, AllRanged, units, apply_all, apply_all-take-drop, units-take-drop, AllRanged-take,
  AllRanged-drop, apply_all-Roomy,
}
use lockless_concurrent_fram.Book.Batch.{process_orders-refines}

abbrev pub order : ℕ → Side → ℕ → ℕ → ℕ → Order
order id side price quantity timestamp = record {
  order_id = id;
  side = side;
  price = price;
  quantity = quantity;
  timestamp = timestamp;
}

-- The order that trader `i` submits in round `j`, and all its orders. ORDERS_PER_TRADER, which is 500
-- in the program, is an argument.
unfoldable pub trader_order : ℕ → ℕ → ℕ → Order
trader_order per_trader i j =
    let order_id = i * per_trader + j in
    order order_id (if j % 2 == 0 then buy else sell) (10000 + j % 100 - 50) (10 + j % 90) order_id

unfoldable pub trader_orders : ℕ → ℕ → List Order
trader_orders per_trader i = map (trader_order per_trader i) (upto per_trader)

-- `while (true)` around process_orders(100), with `n` rounds allowed: what is processed in all.
-- `none` stands for a loop that has not ended.
pub process_rest :
    ℕ → ℕ → (ℕ → ℕ → List Bool) → (ℕ → ℕ → List Bool) → OrderBook → ℕ → Option (OrderBook × ℕ)
process_rest size zero pops spurious book total = none
process_rest size (suc n) pops spurious book total =
    elim (process_orders size (pops n) (spurious n) book 100) [
      | none ↦ none
      | some (book', processed) ↦
          let rest = process_rest size n pops spurious book' (add64 total processed) in
          if processed == 0 then some (book', add64 total processed) else rest
    ]

-- A run of submit_order over some orders, whose results the program does not look at.
pub submit_all : ℕ → (ℕ → List Bool) → OrderBook → List Order → Option OrderBook
submit_all size pushes book [] = some book
submit_all size pushes book (o ∷ orders) =
    elim (submit_order size (pushes (length orders)) book o) [
      | none ↦ none
      | some (book', _) ↦ submit_all size pushes book' orders
    ]

-- What the program prints of a book.
pub record Shown : Type 0 where
  pub best_bid : ℕ
  pub best_ask : ℕ
  pub spread : ℕ
  pub matched_orders : ℕ

pub shown : Levels → Shown
shown l = record {
  best_bid = get_best_bid l;
  best_ask = get_best_ask l;
  spread = get_spread l;
  matched_orders = get_matched_orders l;
}

abbrev pub new_book : ℕ → OrderBook
new_book size = record {
  order_queue = record { sequences = λ i. i; buffer = λ _. order 0 buy 0 0 0; head = 0; tail = 0 };
  levels = no_levels;
}

abbrev pub basic_orders : List Order
basic_orders =
    order 1 buy 9950 100 1
    ∷ order 2 buy 9975 200 2
    ∷ order 3 buy 10000 150 3
    ∷ order 4 sell 10050 100 4
    ∷ order 5 sell 10025 200 5
    ∷ order 6 sell 10010 150 6
    ∷ []

pub basic_trading_example : (pushes pops spurious : ℕ → List Bool) → Option Shown
basic_trading_example pushes pops spurious =
    elim (submit_all 1024 pushes (new_book 1024) basic_orders) [
      | none ↦ none
      | some book ↦ elim (process_orders 1024 pops spurious book 10) [
        | none ↦ none
        | some (book', _) ↦ some (shown book'.levels)
      ]
    ]

-- The best ask after the sell order, and the matches after the buy order.
pub matching_example : (ℕ → List Bool) → (pops spurious : ℕ → ℕ → List Bool) → Option (ℕ × ℕ)
matching_example pushes pops spurious =
    elim (submit_order 1024 (pushes 0) (new_book 1024) (order 1 sell 10000 100 1)) [
      | none ↦ none
      | some (book₁, _) ↦ elim (process_orders 1024 (pops 0) (spurious 0) book₁ 10) [
        | none ↦ none
        | some (book₂, _) ↦ elim (submit_order 1024 (pushes 1) book₂ (order 2 buy 10000 100 2)) [
          | none ↦ none
          | some (book₃, _) ↦ elim (process_orders 1024 (pops 1) (spurious 1) book₃ 10) [
            | none ↦ none
            | some (book₄, _) ↦ some (get_best_ask book₂.levels, get_matched_orders book₄.levels)
          ]
        ]
      ]
    ]
