-- ===== src/Book/Shared.antt =====
-- include/lockless/order_book.hpp: process_single_order with many threads at work. It is a sequence
-- of steps with one shared access each, and threads interleave step by step.
pub mod Invariant
pub mod Reachable
pub mod Settled
pub mod Race
pub mod Safety
mod Tests
use lockless_concurrent_fram.Common.{
  ℕ, ◌+◌, ◌≡◌, Bool, true, false, not, ◌&&◌, List, [], ◌∷◌, ltb, leb, ◌==◌, if◌then◌else◌, update,
  min,
}
use lockless_concurrent_fram.Common.Words.{add64, sub64, max64}
use lockless_concurrent_fram.Book.{Side, buy, sell, Order, Levels, no_levels}

-- Where a thread stands in `process_single_order`, with the locals that are live there.
pub data Pc : Type 0 where
  idle : Pc
  buy_ask : (order : Order) → Pc  -- before best_ask_.load
  buy_match : (order : Order) → Pc  -- before matched_orders_.fetch_add
  buy_load : (order : Order) → Pc  -- before total_sell_quantity_.load
  buy_take : (quantity : ℕ) → Pc  -- before total_sell_quantity_.fetch_sub
  buy_add : (order : Order) → Pc  -- before total_buy_quantity_.fetch_add
  buy_bid : (order : Order) → Pc  -- before best_bid_.load
  buy_raise : (order : Order) (current : ℕ) → Pc  -- top of the loop around the exchange
  sell_bid : (order : Order) → Pc
  sell_match : (order : Order) → Pc
  sell_load : (order : Order) → Pc
  sell_take : (quantity : ℕ) → Pc
  sell_add : (order : Order) → Pc
  sell_ask : (order : Order) → Pc
  sell_lower : (order : Order) (current : ℕ) → Pc

-- What a step means for the book: an order is matched; it is added to a total; its call ends with
-- the best price seen to.
pub data Event : Type 0 where
  silent : Event
  matched : Event
  added : (side : Side) (price : ℕ) → Event
  rested : (side : Side) (price : ℕ) → Event

abbrev pub entry : Order → Side → Pc
entry order buy = buy_ask order
entry order sell = sell_bid order

-- One step of one thread. A weak compare-exchange may fail although the values agree: `spurious`.
unfoldable pub step : Bool → Levels → Pc → Levels × Pc × Event
step spurious l idle = (l, idle, silent)
step spurious l (buy_ask o) = (
  l,
  if (not (l.best_ask == max64)) && leb l.best_ask o.price then buy_match o else buy_add o,
  silent,
)
step spurious l (buy_match o) =
    (record l { matched_orders = add64 l.matched_orders 1 }, buy_load o, matched)
step spurious l (buy_load o) = (l, buy_take (min o.quantity l.total_sell_quantity), silent)
step spurious l (buy_take n) =
    (record l { total_sell_quantity = sub64 l.total_sell_quantity n }, idle, silent)
step spurious l (buy_add o) = (
  record l { total_buy_quantity = add64 l.total_buy_quantity o.quantity },
  buy_bid o,
  added buy o.price,
)
step spurious l (buy_bid o) = (l, buy_raise o l.best_bid, silent)
step spurious l (buy_raise o current) =
    if ltb current o.price
    then (if not spurious && l.best_bid == current
        then (record l { best_bid = o.price }, idle, rested buy o.price)
        else (l, buy_raise o l.best_bid, silent))
    else (l, idle, rested buy o.price)
step spurious l (sell_bid o) = (
  l,
  if (not (l.best_bid == 0)) && leb o.price l.best_bid then sell_match o else sell_add o,
  silent,
)
step spurious l (sell_match o) =
    (record l { matched_orders = add64 l.matched_orders 1 }, sell_load o, matched)
step spurious l (sell_load o) = (l, sell_take (min o.quantity l.total_buy_quantity), silent)
step spurious l (sell_take n) =
    (record l { total_buy_quantity = sub64 l.total_buy_quantity n }, idle, silent)
step spurious l (sell_add o) = (
  record l { total_sell_quantity = add64 l.total_sell_quantity o.quantity },
  sell_ask o,
  added sell o.price,
)
step spurious l (sell_ask o) = (l, sell_lower o l.best_ask, silent)
step spurious l (sell_lower o current) =
    if ltb o.price current
    then (if not spurious && l.best_ask == current
        then (record l { best_ask = o.price }, idle, rested sell o.price)
        else (l, sell_lower o l.best_ask, silent))
    else (l, idle, rested sell o.price)

-- What the program does not keep: how many orders were matched, and the prices of the others, once
-- their quantity is added, and once their call has ended.
pub record Log : Type 0 where
  pub matches : ℕ
  pub added_bids : List ℕ
  pub added_asks : List ℕ
  pub rested_bids : List ℕ
  pub rested_asks : List ℕ

abbrev pub no_log : Log
no_log = record {
  matches = 0;
  added_bids = [];
  added_asks = [];
  rested_bids = [];
  rested_asks = [];
}

abbrev pub log_after : Event → Log → Log
log_after silent log = log
log_after matched log = record log { matches = log.matches + 1 }
log_after (added buy p) log = record log { added_bids = p ∷ log.added_bids }
log_after (added sell p) log = record log { added_asks = p ∷ log.added_asks }
log_after (rested buy p) log = record log { rested_bids = p ∷ log.rested_bids }
log_after (rested sell p) log = record log { rested_asks = p ∷ log.rested_asks }

pub record System : Type 0 where
  pub levels : Levels
  pub pc : ℕ → Pc
  pub log : Log

unfoldable pub advance : ℕ → Bool → System → System
advance i spurious s =
    let (l, p, e) = step spurious s.levels (s.pc i) in
    record { levels = l; pc = update s.pc i p; log = log_after e s.log }

unfoldable pub start : System
start = record { levels = no_levels; pc = λ _. idle; log = no_log }

-- A thread begins with an order, or makes a step.
pub data Step (s : System) : System → Type 0 where
  call :
      (i : ℕ) (order : Order)
      → s.pc i ≡ idle
      → Step s (record s { pc = update s.pc i (entry order order.side) })
  move : (i : ℕ) (spurious : Bool) → Step s (advance i spurious s)

pub data Reach : System → Type 0 where
  here : Reach start
  next : {s t : System} → Reach s → Step s t → Reach t
