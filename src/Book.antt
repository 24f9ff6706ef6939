-- ===== src/Book.antt =====
-- include/lockless/order_book.hpp: the order book, with one thread at work on it. A list says which
-- weak compare-exchanges fail spuriously.
pub mod Single
pub mod Invariant
pub mod Batch
pub mod Shared
pub mod Market
mod Tests
use lockless_concurrent_fram.Common.{
  ℕ, zero, suc, ◌+◌, ◌-◌, Bool, true, false, not, ◌&&◌, ◌||◌, Option, none, some, List, [], ◌∷◌,
  length, ltb, leb, ◌==◌, if◌then◌else◌, min,
}
use lockless_concurrent_fram.Common.Words.{add64, sub64, max64}
use lockless_concurrent_fram.Ring
use lockless_concurrent_fram.Ring.Calls.{try_push, try_pop_batch}

pub data Side : Type 0 where
  buy sell : Side

pub record Order : Type 0 where
  pub order_id : ℕ
  pub side : Side
  pub price : ℕ
  pub quantity : ℕ
  pub timestamp : ℕ

-- The atomics of `OrderBook`.
pub record Levels : Type 0 where
  pub best_bid : ℕ
  pub best_ask : ℕ
  pub total_buy_quantity : ℕ
  pub total_sell_quantity : ℕ
  pub matched_orders : ℕ

pub record OrderBook : Type 0 where
  pub order_queue : Ring.Memory Order
  pub levels : Levels

unfoldable pub no_levels : Levels
no_levels = record {
  best_bid = 0;
  best_ask = max64;
  total_buy_quantity = 0;
  total_sell_quantity = 0;
  matched_orders = 0;
}

pub submit_order : ℕ → List Bool → OrderBook → Order → Option (OrderBook × Bool)
submit_order queue_size spurious b order = elim (try_push queue_size spurious b.order_queue order) [
  | none ↦ none
  | some (queue, done) ↦ some (record b { order_queue = queue }, done)
]

-- `while (order.price > current_bid)` with its compare-exchange: the new best bid.
pub raise_bid : List Bool → ℕ → ℕ → ℕ → Option ℕ
raise_bid [] best price current = none
raise_bid (spurious ∷ rest) best price current =
    let again = raise_bid rest best price best in
    if ltb current price
    then (if not spurious && best == current then some price else again)
    else some best

-- `while (order.price < current_ask)`.
pub lower_ask : List Bool → ℕ → ℕ → ℕ → Option ℕ
lower_ask [] best price current = none
lower_ask (spurious ∷ rest) best price current =
    let again = lower_ask rest best price best in
    if ltb price current
    then (if not spurious && best == current then some price else again)
    else some best

abbrev pub with_bid : Levels → Option ℕ → Option Levels
with_bid l none = none
with_bid l (some bid) = some (record l { best_bid = bid })

abbrev pub with_ask : Levels → Option ℕ → Option Levels
with_ask l none = none
with_ask l (some ask) = some (record l { best_ask = ask })

pub process_buy : List Bool → Levels → Order → Option Levels
process_buy spurious l order =
    if (not (l.best_ask == max64)) && leb l.best_ask order.price
    then some (record l {
      matched_orders = add64 l.matched_orders 1;
      total_sell_quantity = sub64 l.total_sell_quantity (min order.quantity l.total_sell_quantity);
    })
    else with_bid (record l { total_buy_quantity = add64 l.total_buy_quantity order.quantity })
        (raise_bid spurious l.best_bid order.price l.best_bid)

pub process_sell : List Bool → Levels → Order → Option Levels
process_sell spurious l order =
    if (not (l.best_bid == 0)) && leb order.price l.best_bid
    then some (record l {
      matched_orders = add64 l.matched_orders 1;
      total_buy_quantity = sub64 l.total_buy_quantity (min order.quantity l.total_buy_quantity);
    })
    else with_ask (record l { total_sell_quantity = add64 l.total_sell_quantity order.quantity })
        (lower_ask spurious l.best_ask order.price l.best_ask)

pub process_side : Side → List Bool → Levels → Order → Option Levels
process_side buy spurious l order = process_buy spurious l order
process_side sell spurious l order = process_sell spurious l order

pub process_single_order : List Bool → Levels → Order → Option Levels
process_single_order spurious l order = process_side order.side spurious l order

-- The loop of `process_orders` over the orders that were taken. The call for the first order of
-- those that are left has the list `spurious 0`, the next `spurious 1`, and so on.
pub process_all : (ℕ → List Bool) → Levels → List Order → Option Levels
process_all spurious l [] = some l
process_all spurious l (order ∷ orders) = elim (process_single_order (spurious 0) l order) [
  | none ↦ none
  | some l' ↦ process_all (λ i. spurious (i + 1)) l' orders
]

abbrev pub finish_batch : Ring.Memory Order → List Order → Option Levels → Option (OrderBook × ℕ)
finish_batch queue orders none = none
finish_batch queue orders (some l) =
    some (record { order_queue = queue; levels = l }, length orders)

pub process_orders : ℕ → (ℕ → List Bool) → (ℕ → List Bool) → OrderBook → ℕ → Option (OrderBook × ℕ)
process_orders queue_size pops spurious b batch_size =
    elim (try_pop_batch queue_size pops 0 (min batch_size 100) b.order_queue) [
      | none ↦ none
      | some (queue, orders) ↦ finish_batch queue orders (process_all spurious b.levels orders)
    ]

get_total_buy_quantity : Levels → ℕ
get_total_buy_quantity l = l.total_buy_quantity

get_total_sell_quantity : Levels → ℕ
get_total_sell_quantity l = l.total_sell_quantity

abbrev pub get_matched_orders : Levels → ℕ
get_matched_orders l = l.matched_orders

unfoldable pub get_best_bid : Levels → ℕ
get_best_bid l = l.best_bid

unfoldable pub get_best_ask : Levels → ℕ
get_best_ask l = if l.best_ask == max64 then 0 else l.best_ask

unfoldable pub get_spread : Levels → ℕ
unfolding get_best_bid get_best_ask
get_spread l =
    let bid = get_best_bid l in
    let ask = get_best_ask l in
    if bid == 0 || ask == 0 then 0 else (if ltb bid ask then ask - bid else 0)
