-- ===== src/Book/Shared/Reachable.antt =====
-- The invariant of Book/Shared/Invariant in every reachable state.
use lockless_concurrent_fram.Common.{
  ℕ, ◌+◌, ◌%◌, ◌≤◌, ◌≡◌, ◌⊎◌, inl, inr, refl, subst, Bool, not, ◌&&◌, ◌∷◌, IsIn, ltb, leb, ◌==◌,
  ltb-false→ge, Bool-cases, update, update_all, arith,
}
use lockless_concurrent_fram.Common.Words.{add64, sub64, max64, word64}
use lockless_concurrent_fram.Book.{Side, buy, sell, Order, Levels, no_levels}
use lockless_concurrent_fram.Book.Shared.{
  Pc, idle, buy_ask, buy_match, buy_load, buy_take, buy_add, buy_bid, buy_raise, sell_bid,
  sell_match, sell_load, sell_take, sell_add, sell_ask, sell_lower, entry, step, Log, log_after,
  System, advance, start, Step, call, move, Reach, here, next,
}
use lockless_concurrent_fram.Book.Shared.Invariant.{Local, Inv, Onward, Local-Onward}

module _ {l : Levels} {log : Log} {pc : ℕ → Pc} (inv : Inv l log pc) (i : ℕ) where
  others :
      (l' : Levels) (log' : Log) (p : Pc)
      → Onward l log l' log'
      → Local l' log' p
      → (j : ℕ) → Local l' log' (update pc i p j)
  others l' log' p on own =
      update_all (Local l' log') pc i p own
        (λ j ne. Local-Onward l log l' log' (pc j) on (inv.locals j))

  -- A step that leaves the prices as they are.
  still :
      (a b c n : ℕ) (p : Pc)
      → c ≡ n % word64
      → Local l log p
      → Inv
          (record l { total_buy_quantity = a; total_sell_quantity = b; matched_orders = c })
          (record log { matches = n })
          (update pc i p)
  still a b c n p counted own = record {
    bid_from = inv.bid_from;
    ask_from = inv.ask_from;
    bid_over = inv.bid_over;
    ask_under = inv.ask_under;
    counted = counted;
    locals = update_all (Local l log) pc i p own (λ j ne. inv.locals j);
  }

  quiet : (p : Pc) → Local l log p → Inv l log (update pc i p)
  quiet p own =
      still l.total_buy_quantity l.total_sell_quantity l.matched_orders log.matches p inv.counted
        own

  next_match :
      (p : Pc)
      → Local l log p
      → Inv
          (record l { matched_orders = add64 l.matched_orders 1 })
          (record log { matches = log.matches + 1 })
          (update pc i p)
  next_match p own =
      still l.total_buy_quantity l.total_sell_quantity (add64 l.matched_orders 1) (log.matches + 1)
        p (omega (arith, inv.counted)) own

  -- An order is added to a total.
  bid_added :
      (o : Order)
      → Inv
          (record l { total_buy_quantity = add64 l.total_buy_quantity o.quantity })
          (record log { added_bids = o.price ∷ log.added_bids })
          (update pc i (buy_bid o))
  bid_added o = record {
    bid_from = elim inv.bid_from [ inl e ↦ inl e | inr h ↦ inr (inr h) ];
    ask_from = inv.ask_from;
    bid_over = inv.bid_over;
    ask_under = inv.ask_under;
    counted = inv.counted;
    locals =
        others (record l { total_buy_quantity = add64 l.total_buy_quantity o.quantity })
          (record log { added_bids = o.price ∷ log.added_bids }) (buy_bid o)
          (record { up = omega arith; down = omega arith; bids = λ p h. inr h; asks = λ p h. h })
          (inl refl);
  }

  ask_added :
      (o : Order)
      → Inv
          (record l { total_sell_quantity = add64 l.total_sell_quantity o.quantity })
          (record log { added_asks = o.price ∷ log.added_asks })
          (update pc i (sell_ask o))
  ask_added o = record {
    bid_from = inv.bid_from;
    ask_from = elim inv.ask_from [ inl e ↦ inl e | inr h ↦ inr (inr h) ];
    bid_over = inv.bid_over;
    ask_under = inv.ask_under;
    counted = inv.counted;
    locals =
        others (record l { total_sell_quantity = add64 l.total_sell_quantity o.quantity })
          (record log { added_asks = o.price ∷ log.added_asks }) (sell_ask o)
          (record { up = omega arith; down = omega arith; bids = λ p h. h; asks = λ p h. inr h })
          (inl refl);
  }

  -- A call ends with `bid` as the best bid, which is not below the order's price.
  bid_rested :
      (o : Order) (bid : ℕ)
      → l.best_bid ≤ bid
      → o.price ≤ bid
      → (bid ≡ 0) ⊎ IsIn bid log.added_bids
      → Inv
          (record l { best_bid = bid })
          (record log { rested_bids = o.price ∷ log.rested_bids })
          (update pc i idle)
  bid_rested o bid up over from = record {
    bid_from = from;
    ask_from = inv.ask_from;
    bid_over = λ p h. elim h [
      | inl e ↦ omega (arith, e, over)
      | inr old ↦ omega (arith, up, inv.bid_over p old)
    ];
    ask_under = inv.ask_under;
    counted = inv.counted;
    locals =
        others (record l { best_bid = bid })
          (record log { rested_bids = o.price ∷ log.rested_bids }) idle
          (record { up = up; down = omega arith; bids = λ p h. h; asks = λ p h. h }) tt;
  }

  ask_rested :
      (o : Order) (ask : ℕ)
      → ask ≤ l.best_ask
      → ask ≤ o.price
      → (ask ≡ max64) ⊎ IsIn ask log.added_asks
      → Inv
          (record l { best_ask = ask })
          (record log { rested_asks = o.price ∷ log.rested_asks })
          (update pc i idle)
  ask_rested o ask down under from = record {
    bid_from = inv.bid_from;
    ask_from = from;
    bid_over = inv.bid_over;
    ask_under = λ p h. elim h [
      | inl e ↦ omega (arith, e, under)
      | inr old ↦ omega (arith, down, inv.ask_under p old)
    ];
    counted = inv.counted;
    locals =
        others (record l { best_ask = ask })
          (record log { rested_asks = o.price ∷ log.rested_asks }) idle
          (record { up = omega arith; down = down; bids = λ p h. h; asks = λ p h. h }) tt;
  }

  raise_step :
      (spurious : Bool) (o : Order) (c : ℕ)
      → Local l log (buy_raise o c)
      → let (l', p, e) = step spurious l (buy_raise o c) in Inv l' (log_after e log) (update pc i p)
  unfolding step
  raise_step spurious o c own = elim (Bool-cases (ltb c o.price)) [
    | inr ge ↦ rw ge (
        bid_rested o l.best_bid (omega arith) (omega (arith, ltb-false→ge c o.price ge, own.1))
          inv.bid_from)
    | inl lt ↦ elim (Bool-cases (not spurious && l.best_bid == c)) [
      | inl won ↦
          rw (lt, won) (bid_rested o o.price (ground (arith, lt, won)) (omega arith) (inr own.0))
      | inr lost ↦ rw (lt, lost) (quiet (buy_raise o l.best_bid) (own.0, omega arith))
    ]
  ]

  lower_step :
      (spurious : Bool) (o : Order) (c : ℕ)
      → Local l log (sell_lower o c)
      → let (l', p, e) = step spurious l (sell_lower o c) in
        Inv l' (log_after e log) (update pc i p)
  unfolding step
  lower_step spurious o c own = elim (Bool-cases (ltb o.price c)) [
    | inr ge ↦ rw ge (
        ask_rested o l.best_ask (omega arith) (omega (arith, ltb-false→ge o.price c ge, own.1))
          inv.ask_from)
    | inl lt ↦ elim (Bool-cases (not spurious && l.best_ask == c)) [
      | inl won ↦
          rw (lt, won) (ask_rested o o.price (ground (arith, lt, won)) (omega arith) (inr own.0))
      | inr lost ↦ rw (lt, lost) (quiet (sell_lower o l.best_ask) (own.0, omega arith))
    ]
  ]

  step-Inv :
      (spurious : Bool) (p : Pc)
      → pc i ≡ p
      → let (l', p', e) = step spurious l p in Inv l' (log_after e log) (update pc i p')
  unfolding step
  step-Inv spurious idle e = quiet idle tt
  step-Inv spurious (buy_ask o) e =
      elim (Bool-cases ((not (l.best_ask == max64)) && leb l.best_ask o.price)) [
        | inl met ↦ rw met (quiet (buy_match o) tt)
        | inr not_met ↦ rw not_met (quiet (buy_add o) tt)
      ]
  step-Inv spurious (buy_match o) e = next_match (buy_load o) tt
  step-Inv spurious (buy_load o) e = quiet (buy_take _) tt
  step-Inv spurious (buy_take n) e =
      still l.total_buy_quantity (sub64 l.total_sell_quantity n) l.matched_orders log.matches idle
        inv.counted tt
  step-Inv spurious (buy_add o) e = bid_added o
  step-Inv spurious (buy_bid o) e =
      quiet (buy_raise o l.best_bid) (subst (Local l log) e (inv.locals i), omega arith)
  step-Inv spurious (buy_raise o c) e =
      raise_step spurious o c (subst (Local l log) e (inv.locals i))
  step-Inv spurious (sell_bid o) e =
      elim (Bool-cases ((not (l.best_bid == 0)) && leb o.price l.best_bid)) [
        | inl met ↦ rw met (quiet (sell_match o) tt)
        | inr not_met ↦ rw not_met (quiet (sell_add o) tt)
      ]
  step-Inv spurious (sell_match o) e = next_match (sell_load o) tt
  step-Inv spurious (sell_load o) e = quiet (sell_take _) tt
  step-Inv spurious (sell_take n) e =
      still (sub64 l.total_buy_quantity n) l.total_sell_quantity l.matched_orders log.matches idle
        inv.counted tt
  step-Inv spurious (sell_add o) e = ask_added o
  step-Inv spurious (sell_ask o) e =
      quiet (sell_lower o l.best_ask) (subst (Local l log) e (inv.locals i), omega arith)
  step-Inv spurious (sell_lower o c) e =
      lower_step spurious o c (subst (Local l log) e (inv.locals i))

abbrev Inv-System : System → Type 0
Inv-System s = Inv s.levels s.log s.pc

start-Inv : Inv-System start
unfolding start no_levels
start-Inv = record {
  bid_from = inl refl;
  ask_from = inl refl;
  bid_over = λ p h. absurd h;
  ask_under = λ p h. absurd h;
  counted = refl;
  locals = λ j. tt;
}

entry-Inv :
    (s : System) (i : ℕ) (o : Order) (side : Side)
    → Inv-System s
    → Inv s.levels s.log (update s.pc i (entry o side))
entry-Inv s i o buy inv = quiet inv i (buy_ask o) tt
entry-Inv s i o sell inv = quiet inv i (sell_bid o) tt

Step-Inv : {s t : System} → Step s t → Inv-System s → Inv-System t
unfolding advance
Step-Inv {s} (call i o e) inv = entry-Inv s i o o.side inv
Step-Inv {s} (move i spurious) inv = step-Inv inv i spurious (s.pc i) refl

pub Reach-Inv : {s : System} → Reach s → Inv-System s
Reach-Inv here = start-Inv
Reach-Inv (next r st) = Step-Inv st (Reach-Inv r)
