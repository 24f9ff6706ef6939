-- ===== src/Book/Shared/Settled.antt =====
-- How many calls of process_single_order have matched their order or left it in the book.
use lockless_concurrent_fram.Common.{
  ℕ, ◌+◌, ◌≡◌, refl, inl, inr, Bool, not, ◌&&◌, length, ltb, ◌==◌, Bool-cases, arith,
}
use lockless_concurrent_fram.Book.{Order, Side, buy, sell, Levels}
use lockless_concurrent_fram.Book.Shared.{
  Pc, idle, buy_ask, buy_match, buy_load, buy_take, buy_raise, sell_bid, sell_match, sell_load,
  sell_take, sell_lower, Log, log_after, step, entry,
}

abbrev pub settled : Log → ℕ
settled log = log.matches + length log.rested_bids + length log.rested_asks

-- A call that has done neither yet.
abbrev pub unsettled : Pc → ℕ
unsettled idle = 0
unsettled (buy_load _) = 0
unsettled (buy_take _) = 0
unsettled (sell_load _) = 0
unsettled (sell_take _) = 0
unsettled _ = 1

pub unsettled-entry : (o : Order) (side : Side) → unsettled (entry o side) ≡ 1
unsettled-entry o buy = refl
unsettled-entry o sell = refl

pub step-settled :
    (b : Bool) (l : Levels) (p : Pc) (log : Log)
    → let (l', p', e) = step b l p in
      settled (log_after e log) + unsettled p' ≡ settled log + unsettled p
unfolding step
step-settled b l (buy_ask o) log = ground arith
step-settled b l (buy_match o) log = omega arith
step-settled b l (buy_raise o current) log = elim (Bool-cases (ltb current o.price)) [
  | inr e ↦ rw e (omega arith)
  | inl e ↦ elim (Bool-cases (not b && l.best_bid == current)) [
    | inl won ↦ rw (e, won) (omega arith)
    | inr lost ↦ rw (e, lost) refl
  ]
]
step-settled b l (sell_bid o) log = ground arith
step-settled b l (sell_match o) log = omega arith
step-settled b l (sell_lower o current) log = elim (Bool-cases (ltb o.price current)) [
  | inr e ↦ rw e (omega arith)
  | inl e ↦ elim (Bool-cases (not b && l.best_ask == current)) [
    | inl won ↦ rw (e, won) (omega arith)
    | inr lost ↦ rw (e, lost) refl
  ]
]
step-settled b l p log = refl
