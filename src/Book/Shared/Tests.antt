-- ===== src/Book/Shared/Tests.antt =====
-- The theorems at states that two threads reach.
use lockless_concurrent_fram.Common.{ℕ, ◌%◌, ◌≤◌, ◌<◌, ◌≡◌, ◌⊎◌, IsIn, arith}
use lockless_concurrent_fram.Common.Words.{max64, word64}
use lockless_concurrent_fram.Book.{buy, get_best_bid, get_best_ask, get_spread}
use lockless_concurrent_fram.Book.Shared.{idle, entry, System, Reach}
use lockless_concurrent_fram.Book.Shared.Safety.{best_prices}
use lockless_concurrent_fram.Book.Shared.Race.{
  Moves, order, crossed, crossed-Reach, quantity_underflows, stays_crossed,
}

-- Thread 0 has bought at 105 and thread 1 has sold at 100, each before it saw the other's price.
abbrev meeting : System
meeting = crossed 105 100

best_prices_example :
    ((meeting.levels.best_bid ≡ 0) ⊎ IsIn meeting.levels.best_bid meeting.log.added_bids)
    × ((meeting.levels.best_ask ≡ max64) ⊎ IsIn meeting.levels.best_ask meeting.log.added_asks)
    × ((p : ℕ) → IsIn p meeting.log.rested_bids → p ≤ meeting.levels.best_bid)
    × ((p : ℕ) → IsIn p meeting.log.rested_asks → meeting.levels.best_ask ≤ p)
    × (meeting.levels.matched_orders ≡ meeting.log.matches % word64)
best_prices_example = best_prices (crossed-Reach 105 100)

quantity_underflows_example :
    (s : System) × (t : System) × Reach s
    × (s.pc 0 ≡ entry (order buy 100 100) buy)
    × (s.pc 1 ≡ entry (order buy 100 100) buy)
    × ((j : ℕ) → 1 < j → s.pc j ≡ idle)
    × (s.levels.total_sell_quantity ≡ 100)
    × (s.log.matches ≡ 0)
    × Moves s t
    × (t.pc 0 ≡ idle)
    × (t.pc 1 ≡ idle)
    × (t.log.matches ≡ 2)
    × (t.levels.total_sell_quantity ≡ 0xffff_ffff_ffff_ff9c)
quantity_underflows_example = quantity_underflows 100 (omega arith) (omega arith)

stays_crossed_example :
    (s : System) × Reach s
    × (s.pc 0 ≡ idle)
    × (s.pc 1 ≡ idle)
    × (s.log.matches ≡ 0)
    × (get_best_bid s.levels ≡ 105)
    × (get_best_ask s.levels ≡ 100)
    × (get_spread s.levels ≡ 0)
stays_crossed_example = stays_crossed 105 100 (omega arith) (omega arith) (omega arith)
