-- ===== src/Book/Single.antt =====
-- One order at a time: the code against a plain account of what it does.
use lockless_concurrent_fram.Common.{
  zero, suc, take, drop, ℕ, ◌+◌, ◌-◌, ◌<◌, ◌≡◌, refl, Bool, true, false, not, ◌&&◌, some, List, [],
  ◌∷◌, length, may_succeed, leb, ◌==◌, if◌then◌else◌, min, arith,
}
use Prim.Native.Nat.{max}
use lockless_concurrent_fram.Common.Words.{word64, max64}
use lockless_concurrent_fram.Book.{
  Side, buy, sell, Order, Levels, raise_bid, lower_ask, process_buy, process_sell, process_side,
  process_single_order, process_all,
}

-- Prices and quantities are `uint64_t`.
pub record Ranged (o : Order) : Type 0 where
  pub price_ok : o.price < word64
  pub quantity_ok : o.quantity < word64

-- `n` more orders of `q` units in all overflow no counter.
pub record Roomy (l : Levels) (n q : ℕ) : Type 0 where
  pub bid_ok : l.best_bid < word64
  pub ask_ok : l.best_ask < word64
  pub buys_ok : l.total_buy_quantity + q < word64
  pub sells_ok : l.total_sell_quantity + q < word64
  pub matched_ok : l.matched_orders + n < word64

-- An order that meets the other side's best price counts as matched and takes what it can from the
-- other side's total; any other order adds to its own side.
unfoldable pub apply_side : Side → Levels → Order → Levels
apply_side buy l o =
    if not (l.best_ask == max64) && leb l.best_ask o.price
    then record l {
      matched_orders = l.matched_orders + 1;
      total_sell_quantity = l.total_sell_quantity - o.quantity;
    }
    else record l {
      total_buy_quantity = l.total_buy_quantity + o.quantity;
      best_bid = max l.best_bid o.price;
    }
apply_side sell l o =
    if not (l.best_bid == 0) && leb o.price l.best_bid
    then record l {
      matched_orders = l.matched_orders + 1;
      total_buy_quantity = l.total_buy_quantity - o.quantity;
    }
    else record l {
      total_sell_quantity = l.total_sell_quantity + o.quantity;
      best_ask = min l.best_ask o.price;
    }

unfoldable pub apply : Levels → Order → Levels
unfolding apply_side
apply l o = apply_side o.side l o

pub raise_bid_lem :
    (spurious : List Bool) (best price : ℕ)
    → may_succeed spurious ≡ true
    → raise_bid spurious best price best ≡ some (max best price)
unfolding raise_bid
raise_bid_lem [] best price e = cc
raise_bid_lem (false ∷ rest) best price e = ground arith
raise_bid_lem (true ∷ rest) best price e = ground (arith, raise_bid_lem rest best price e)

pub lower_ask_lem :
    (spurious : List Bool) (best price : ℕ)
    → may_succeed spurious ≡ true
    → lower_ask spurious best price best ≡ some (min best price)
unfolding lower_ask
lower_ask_lem [] best price e = cc
lower_ask_lem (false ∷ rest) best price e = ground arith
lower_ask_lem (true ∷ rest) best price e = ground (arith, lower_ask_lem rest best price e)

process_side-apply_side :
    (side : Side) (spurious : List Bool) (l : Levels) (o : Order)
    → may_succeed spurious ≡ true
    → Roomy l 1 o.quantity
    → Ranged o
    → process_side side spurious l o ≡ some (apply_side side l o)
unfolding process_side process_buy process_sell apply_side
process_side-apply_side buy spurious l o e r g =
    ground (arith, raise_bid_lem spurious l.best_bid o.price e)
process_side-apply_side sell spurious l o e r g =
    ground (arith, lower_ask_lem spurious l.best_ask o.price e)

-- When no counter overflows, the order's fields are in range, and some compare-exchange does not
-- fail spuriously, `process_single_order` ends and does what `apply` says.
pub process_single-apply :
    (spurious : List Bool) (l : Levels) (o : Order)
    → may_succeed spurious ≡ true
    → Roomy l 1 o.quantity
    → Ranged o
    → process_single_order spurious l o ≡ some (apply l o)
unfolding process_single_order apply
process_single-apply spurious l o = process_side-apply_side o.side spurious l o

unfoldable pub apply_all : Levels → List Order → Levels
apply_all l [] = l
apply_all l (o ∷ orders) = apply_all (apply l o) orders

abbrev pub units : List Order → ℕ
units [] = 0
units (o ∷ orders) = o.quantity + units orders

abbrev pub AllRanged : List Order → Type 0
AllRanged [] = Unit
AllRanged (o ∷ orders) = Ranged o × AllRanged orders

apply-Roomy :
    (l : Levels) (o : Order) (n q : ℕ)
    → Ranged o
    → Roomy l (1 + n) (o.quantity + q)
    → Roomy (apply l o) n q
unfolding apply
apply-Roomy l o n q g r = by_side o.side
  where
    by_side : (side : Side) → Roomy (apply_side side l o) n q
    by_side buy = ground arith
    by_side sell = ground arith

-- So does the loop over a batch of orders.
pub process_all-apply_all :
    (orders : List Order) (spurious : ℕ → List Bool) (l : Levels)
    → ((i : ℕ) → may_succeed (spurious i) ≡ true)
    → Roomy l (length orders) (units orders)
    → AllRanged orders
    → process_all spurious l orders ≡ some (apply_all l orders)
unfolding process_all apply_all
process_all-apply_all [] spurious l e r g = refl
process_all-apply_all (o ∷ orders) spurious l e r g =
    let one : Roomy l 1 o.quantity = omega (arith, r) in
    let rest : Roomy l (1 + length orders) (o.quantity + units orders) = omega (arith, r) in
    rw (process_single-apply (spurious 0) l o (e 0) one g.0, process_all)
      (process_all-apply_all orders (λ i. spurious (i + 1)) (apply l o) (λ i. e (i + 1))
        (apply-Roomy l o (length orders) (units orders) g.0 rest) g.1)

-- The first `n` orders and the rest.
pub apply_all-take-drop :
    (n : ℕ) (orders : List Order) (l : Levels)
    → apply_all (apply_all l (take n orders)) (drop n orders) ≡ apply_all l orders
unfolding apply_all
apply_all-take-drop zero orders l = refl
apply_all-take-drop (suc n) [] l = refl
apply_all-take-drop (suc n) (o ∷ orders) l = apply_all-take-drop n orders (apply l o)

pub units-take-drop :
    (n : ℕ) (orders : List Order) → units (take n orders) + units (drop n orders) ≡ units orders
units-take-drop zero orders = omega arith
units-take-drop (suc n) [] = omega arith
units-take-drop (suc n) (o ∷ orders) = omega (arith, units-take-drop n orders)

pub AllRanged-take : (n : ℕ) (orders : List Order) → AllRanged orders → AllRanged (take n orders)
AllRanged-take zero orders g = tt
AllRanged-take (suc n) [] g = tt
AllRanged-take (suc n) (o ∷ orders) g = (g.0, AllRanged-take n orders g.1)

pub AllRanged-drop : (n : ℕ) (orders : List Order) → AllRanged orders → AllRanged (drop n orders)
AllRanged-drop zero orders g = g
AllRanged-drop (suc n) [] g = tt
AllRanged-drop (suc n) (o ∷ orders) g = AllRanged-drop n orders g.1

pub apply_all-Roomy :
    (orders : List Order) (l : Levels) (n q : ℕ)
    → AllRanged orders
    → Roomy l (length orders + n) (units orders + q)
    → Roomy (apply_all l orders) n q
unfolding apply_all
apply_all-Roomy [] l n q g r = omega (arith, r)
apply_all-Roomy (o ∷ orders) l n q g r =
    apply_all-Roomy orders (apply l o) n q g.1
      (apply-Roomy l o (length orders + n) (units orders + q) g.0 (omega (arith, r)))
