-- ===== src/Book/Shared/Race.antt =====
-- Two threads at work: a total is loaded and then lowered in two steps, and each thread looks at the
-- best price of the other side before it sets its own.
use lockless_concurrent_fram.Common.{
  ℕ, zero, suc, ◌-◌, ◌<◌, ◌≤◌, ◌≡◌, ◌∙◌, refl, Bool, true, false, ltb, update, min, arith,
}
use lockless_concurrent_fram.Common.Words.{add64, sub64, max64, word64}
use lockless_concurrent_fram.Book.{
  Side, buy, sell, Order, Levels, no_levels, get_best_bid, get_best_ask, get_spread,
}
use lockless_concurrent_fram.Book.Shared.{
  idle, entry, step, System, advance, start, call, move, Reach, here, next,
}

-- `n` steps of thread `i`, whose exchanges do not fail spuriously.
abbrev pub moves : ℕ → ℕ → System → System
moves zero i s = s
moves (suc n) i s = moves n i (advance i false s)

pub moves-Reach : (n i : ℕ) (s : System) → Reach s → Reach (moves n i s)
moves-Reach zero i s r = r
moves-Reach (suc n) i s r = moves-Reach n i (advance i false s) (next r (move i false))

-- Steps of calls that have begun.
pub data Moves (s : System) : System → Type 0 where
  stay : Moves s s
  one_more : {t : System} (i : ℕ) (spurious : Bool) → Moves s t → Moves s (advance i spurious t)

moves-Moves : {s : System} (n i : ℕ) (t : System) → Moves s t → Moves s (moves n i t)
moves-Moves zero i t r = r
moves-Moves (suc n) i t r = moves-Moves n i (advance i false t) (one_more i false r)

abbrev pub order : Side → ℕ → ℕ → Order
order side price quantity = record {
  order_id = 0;
  side = side;
  price = price;
  quantity = quantity;
  timestamp = 0;
}

abbrev calls : ℕ → Order → System → System
calls i o s = record s { pc = update s.pc i (entry o o.side) }

-- Thread 0 sells `q`; then threads 0 and 1 each buy `q`, and both load the total before either
-- lowers it.
module _ (q : ℕ) where
  abbrev sold : System
  sold = moves 4 0 (calls 0 (order sell 100 q) start)

  abbrev both : System
  both = calls 1 (order buy 100 q) (calls 0 (order buy 100 q) sold)

  abbrev pub lowered : System
  lowered = moves 1 1 (moves 1 0 (moves 3 1 (moves 3 0 both)))

  both-Reach : Reach both
  unfolding advance step start no_levels
  both-Reach =
      next
        (next (moves-Reach 4 0 _ (next here (call 0 (order sell 100 q) refl)))
          (call 0 (order buy 100 q) refl))
        (call 1 (order buy 100 q) refl)

  both-idle : (j : ℕ) → 1 < j → both.pc j ≡ idle
  unfolding advance step start no_levels
  both-idle j more = ground (arith, more)

  lowered_lem :
      let t = add64 0 q in lowered.levels.total_sell_quantity ≡ sub64 (sub64 t (min q t)) (min q t)
  unfolding advance step start no_levels
  lowered_lem = refl

  -- For any quantity `q` above 0 and below 2 ^ 64 there is a reachable state of the book in which
  -- the total sell quantity is `q`, nothing was matched, threads 0 and 1 each begin to process an
  -- order that buys `q`, and all others are out of their calls; and from it steps alone, with no
  -- further call, lead to a state in which both calls have ended, both orders were matched, and
  -- the total sell quantity is 2 ^ 64 less `q`.
  pub quantity_underflows :
      0 < q
      → q < word64
      → (s : System) × (t : System) × Reach s
        × (s.pc 0 ≡ entry (order buy 100 q) buy)
        × (s.pc 1 ≡ entry (order buy 100 q) buy)
        × ((j : ℕ) → 1 < j → s.pc j ≡ idle)
        × (s.levels.total_sell_quantity ≡ q)
        × (s.log.matches ≡ 0)
        × Moves s t
        × (t.pc 0 ≡ idle)
        × (t.pc 1 ≡ idle)
        × (t.log.matches ≡ 2)
        × (t.levels.total_sell_quantity ≡ word64 - q)
  unfolding advance step start no_levels
  quantity_underflows pos small =
      let t : add64 0 q ≡ q = omega (arith, small) in
      let total : sub64 (sub64 q (min q q)) (min q q) ≡ word64 - q = omega (arith, pos, small) in
      (
        both,
        lowered,
        both-Reach,
        refl,
        refl,
        both-idle,
        t,
        refl,
        moves-Moves 1 1 _ (moves-Moves 1 0 _ (moves-Moves 3 1 _ (moves-Moves 3 0 both stay))),
        refl,
        refl,
        refl,
        lowered_lem ∙ rw t total,
      )

-- Thread 0 buys at `bid`, and thread 1 sells at `ask`, and each looks at the other side before the
-- other has set its price.
module _ (bid ask : ℕ) where
  abbrev crossing : System
  crossing = calls 1 (order sell ask 1) (calls 0 (order buy bid 1) start)

  abbrev pub crossed : System
  crossed = moves 3 1 (moves 3 0 (moves 1 1 (moves 1 0 crossing)))

  pub crossed-Reach : Reach crossed
  unfolding advance step start no_levels
  crossed-Reach = moves-Reach 3 1 _ (
      moves-Reach 3 0 _ (
        moves-Reach 1 1 _ (
          moves-Reach 1 0 _
            (next (next here (call 0 (order buy bid 1) refl)) (call 1 (order sell ask 1) refl)))))

  crossed_lem :
      0 < bid
      → ask < max64
      → (crossed.pc 0 ≡ idle)
        × (crossed.pc 1 ≡ idle)
        × (crossed.log.matches ≡ 0)
        × (crossed.levels.best_bid ≡ bid)
        × (crossed.levels.best_ask ≡ ask)
  unfolding advance step start no_levels
  crossed_lem pos small =
      let up : ltb 0 bid ≡ true = ground (arith, pos) in
      let down : ltb ask max64 ≡ true = ground (arith, small) in
      rw (up, down) (refl, refl, refl, refl, refl)

  -- What the queries then show.
  shown :
      (l : Levels)
      → l.best_bid ≡ bid
      → l.best_ask ≡ ask
      → ask < max64
      → ask ≤ bid
      → (get_best_bid l ≡ bid) × (get_best_ask l ≡ ask) × (get_spread l ≡ 0)
  unfolding get_best_bid get_best_ask get_spread
  shown l b a small over = (b, ground (arith, a, small), ground (arith, a, b, small, over))

  -- For a bid above 0 and an ask below UINT64_MAX that is not above the bid, there is a reachable
  -- state of the book, with both threads out of their calls and no match, that shows this bid,
  -- this ask, and the spread 0.
  pub stays_crossed :
      0 < bid
      → ask < max64
      → ask ≤ bid
      → (s : System) × Reach s
        × (s.pc 0 ≡ idle)
        × (s.pc 1 ≡ idle)
        × (s.log.matches ≡ 0)
        × (get_best_bid s.levels ≡ bid)
        × (get_best_ask s.levels ≡ ask)
        × (get_spread s.levels ≡ 0)
  stays_crossed pos small over =
      let (calm₀, calm₁, unmatched, bid_is, ask_is) = crossed_lem pos small in
      let (shown_bid, shown_ask, spread) = shown crossed.levels bid_is ask_is small over in
      (crossed, crossed-Reach, calm₀, calm₁, unmatched, shown_bid, shown_ask, spread)
