-- ===== src/Book/Shared/Invariant.antt =====
-- What holds of the best prices and the threads between any two shared accesses.
use lockless_concurrent_fram.Common.{ℕ, ◌%◌, ◌≤◌, ◌≡◌, ◌⊎◌, IsIn, arith}
use lockless_concurrent_fram.Common.Words.{max64, word64}
use lockless_concurrent_fram.Book.{Levels}
use lockless_concurrent_fram.Book.Shared.{
  Pc, idle, buy_ask, buy_match, buy_load, buy_take, buy_add, buy_bid, buy_raise, sell_bid,
  sell_match, sell_load, sell_take, sell_add, sell_ask, sell_lower, Log,
}

abbrev pub Local : Levels → Log → Pc → Type 0
Local l log (buy_bid o) = IsIn o.price log.added_bids
Local l log (buy_raise o c) = IsIn o.price log.added_bids × (c ≤ l.best_bid)
Local l log (sell_ask o) = IsIn o.price log.added_asks
Local l log (sell_lower o c) = IsIn o.price log.added_asks × (l.best_ask ≤ c)
Local l log _ = Unit

pub record Inv (l : Levels) (log : Log) (pc : ℕ → Pc) : Type 0 where
  pub bid_from : (l.best_bid ≡ 0) ⊎ IsIn l.best_bid log.added_bids
  pub ask_from : (l.best_ask ≡ max64) ⊎ IsIn l.best_ask log.added_asks
  pub bid_over : (p : ℕ) → IsIn p log.rested_bids → p ≤ l.best_bid
  pub ask_under : (p : ℕ) → IsIn p log.rested_asks → l.best_ask ≤ p
  pub counted : l.matched_orders ≡ log.matches % word64
  pub locals : (j : ℕ) → Local l log (pc j)

-- What a step may do to what other threads rely on.
pub record Onward (l : Levels) (log : Log) (l' : Levels) (log' : Log) : Type 0 where
  pub up : l.best_bid ≤ l'.best_bid
  pub down : l'.best_ask ≤ l.best_ask
  pub bids : (p : ℕ) → IsIn p log.added_bids → IsIn p log'.added_bids
  pub asks : (p : ℕ) → IsIn p log.added_asks → IsIn p log'.added_asks

pub Local-Onward :
    (l : Levels) (log : Log) (l' : Levels) (log' : Log) (p : Pc)
    → Onward l log l' log'
    → Local l log p
    → Local l' log' p
Local-Onward l log l' log' (buy_bid o) on h = on.bids o.price h
Local-Onward l log l' log' (buy_raise o c) on h = (on.bids o.price h.0, omega (arith, on.up, h.1))
Local-Onward l log l' log' (sell_ask o) on h = on.asks o.price h
Local-Onward l log l' log' (sell_lower o c) on h =
    (on.asks o.price h.0, omega (arith, on.down, h.1))
Local-Onward l log l' log' idle on h = tt
Local-Onward l log l' log' (buy_ask o) on h = tt
Local-Onward l log l' log' (buy_match o) on h = tt
Local-Onward l log l' log' (buy_load o) on h = tt
Local-Onward l log l' log' (buy_take n) on h = tt
Local-Onward l log l' log' (buy_add o) on h = tt
Local-Onward l log l' log' (sell_bid o) on h = tt
Local-Onward l log l' log' (sell_match o) on h = tt
Local-Onward l log l' log' (sell_load o) on h = tt
Local-Onward l log l' log' (sell_take n) on h = tt
Local-Onward l log l' log' (sell_add o) on h = tt
