-- ===== src/Book/Invariant.antt =====
-- The book never crosses: while both sides have a price, the best bid is below the best ask.
use lockless_concurrent_fram.Common.{
  refl, ℕ, ◌+◌, ◌<◌, ◌≡◌, ◌≢◌, ◌⊎◌, Bool, true, some, inl, inr, List, [], ◌∷◌, may_succeed,
  Option-cases, arith,
}
use lockless_concurrent_fram.Common.Words.{max64}
use lockless_concurrent_fram.Book.{
  Side, buy, sell, Order, Levels, process_buy, process_sell, process_side, process_single_order,
  process_all, get_best_bid, get_best_ask, get_spread, no_levels,
}
use lockless_concurrent_fram.Book.Single.{raise_bid_lem, lower_ask_lem}

-- A best bid of 0 and a best ask of UINT64_MAX stand for an empty side.
abbrev pub NotCrossed : Levels → Type 0
NotCrossed l = (l.best_bid ≡ 0) ⊎ (l.best_ask ≡ max64) ⊎ (l.best_bid < l.best_ask)

process_side-NotCrossed :
    (side : Side) (spurious : List Bool) (l : Levels) (o : Order)
    → may_succeed spurious ≡ true
    → NotCrossed l
    → (l' : Levels) × (process_side side spurious l o ≡ some l') × NotCrossed l'
unfolding process_side process_buy process_sell
process_side-NotCrossed buy spurious l o lucky h =
    let run = raise_bid_lem spurious l.best_bid o.price lucky in
    elim (Option-cases (process_side buy spurious l o)) [
      | inl out ↦ absurd (ground (arith, run, out))
      | inr (l', e) ↦ (l', e, ground (arith, run, e, h))
    ]
process_side-NotCrossed sell spurious l o lucky h =
    let run = lower_ask_lem spurious l.best_ask o.price lucky in
    elim (Option-cases (process_side sell spurious l o)) [
      | inl out ↦ absurd (ground (arith, run, out))
      | inr (l', e) ↦ (l', e, ground (arith, run, e, h))
    ]

process_all-NotCrossed :
    (orders : List Order) (spurious : ℕ → List Bool) (l : Levels)
    → ((i : ℕ) → may_succeed (spurious i) ≡ true)
    → NotCrossed l
    → (l' : Levels) × (process_all spurious l orders ≡ some l') × NotCrossed l'
unfolding process_all process_single_order
process_all-NotCrossed [] spurious l lucky h = (l, refl, h)
process_all-NotCrossed (o ∷ orders) spurious l lucky h =
    let (l₁, e, h₁) = process_side-NotCrossed o.side (spurious 0) l o (lucky 0) h in
    let (l₂, f, h₂) =
      process_all-NotCrossed orders (λ i. spurious (i + 1)) l₁ (λ i. lucky (i + 1)) h₁ in
    (l₂, rw (e, process_all) f, h₂)

-- Whenever orders are processed one after the other from an empty book, no call failing spuriously
-- for ever, the calls end, and then the best bid is below the best ask, or a side has no price.
pub never_crossed :
    (orders : List Order) (spurious : ℕ → List Bool)
    → ((i : ℕ) → may_succeed (spurious i) ≡ true)
    → (l : Levels) × (process_all spurious no_levels orders ≡ some l) × NotCrossed l
unfolding no_levels
never_crossed orders spurious lucky =
    process_all-NotCrossed orders spurious no_levels lucky (inl refl)

-- In a book that does not cross, `get_spread` is 0 if a side shows no price, and otherwise the
-- distance from the best bid to the best ask, which is not 0.
pub get_spread_lem :
    (l : Levels)
    → NotCrossed l
    → ((get_best_bid l ≡ 0) ⊎ (get_best_ask l ≡ 0) → get_spread l ≡ 0)
      × (get_best_bid l ≢ 0
          → get_best_ask l ≢ 0
          → (get_best_bid l + get_spread l ≡ get_best_ask l) × (0 < get_spread l))
unfolding get_best_bid get_best_ask get_spread
get_spread_lem l h = (λ e. ground arith, λ e f. ground arith)
