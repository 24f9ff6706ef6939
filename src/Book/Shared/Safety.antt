-- ===== src/Book/Shared/Safety.antt =====
-- What the best prices are, whatever the threads do.
use lockless_concurrent_fram.Common.{ℕ, ◌%◌, ◌≤◌, ◌≡◌, ◌⊎◌, IsIn}
use lockless_concurrent_fram.Common.Words.{max64, word64}
use lockless_concurrent_fram.Book.Shared.{System, Reach}
use lockless_concurrent_fram.Book.Shared.Invariant.{Inv}
use lockless_concurrent_fram.Book.Shared.Reachable.{Reach-Inv}

-- In every state that threads reach by processing orders on a new book: the best bid is 0 or the
-- price of a buy order that was added, and not below that of any buy order whose call has ended
-- without a match; the best ask is UINT64_MAX or the price of a sell order that was added, and not
-- above that of any sell order whose call has ended without a match; and `matched_orders_` is the
-- number of matches modulo 2 ^ 64.
pub best_prices :
    {s : System}
    → Reach s
    → ((s.levels.best_bid ≡ 0) ⊎ IsIn s.levels.best_bid s.log.added_bids)
      × ((s.levels.best_ask ≡ max64) ⊎ IsIn s.levels.best_ask s.log.added_asks)
      × ((p : ℕ) → IsIn p s.log.rested_bids → p ≤ s.levels.best_bid)
      × ((p : ℕ) → IsIn p s.log.rested_asks → s.levels.best_ask ≤ p)
      × (s.levels.matched_orders ≡ s.log.matches % word64)
best_prices {s} r =
    let inv : Inv s.levels s.log s.pc = Reach-Inv r in
    (inv.bid_from, inv.ask_from, inv.bid_over, inv.ask_under, inv.counted)
