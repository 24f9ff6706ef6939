-- ===== src/Examples/Fleet/Tests.antt =====
-- Whole runs of the programs with threads, with one item or order for each of their loops.
use mathlib.Core.List.{map}
use lockless_concurrent_fram.Common.{
  ℕ, zero, suc, ◌<◌, ◌≡◌, ◌⊎◌, inl, inr, refl, ap, Bool, true, false, none, some, List, [], ◌∷◌,
  ltb, if◌then◌else◌, arith,
}
use lockless_concurrent_fram.Common.Sums.{weight, total}
use lockless_concurrent_fram.Ring
use lockless_concurrent_fram.Ring.{is_ready}
use lockless_concurrent_fram.Ring.Alone.{Holds}
use lockless_concurrent_fram.Book.{Order, buy, no_levels}
use lockless_concurrent_fram.Book.Single.{apply_all}
use lockless_concurrent_fram.Examples.Upto.{upto}
use lockless_concurrent_fram.Examples.Fleet.{
  Call, resting, pushing, popping, joined, is_busy, System, start, Step, call_push, end_push,
  push_again, call_pop, end_pop, pop_again, join, move, Reach, here, next,
}
use lockless_concurrent_fram.Examples.Mpmc.{mpmc_items, mpmc_quota, occurs, all_consumed}
use lockless_concurrent_fram.Examples.Trading.{order, trader_orders, process_rest}
use lockless_concurrent_fram.Examples.Trading.Concurrent.{concurrent_trading_lem}

abbrev decide : (b : Bool) → (b ≡ true) ⊎ (b ≡ false)
decide true = inl refl
decide false = inr refl

record Played {T : Type 0} (size : ℕ) (items : ℕ → List T) (quota : ℕ → ℕ) (blank : T)
    : Type 0 where
  last : System T
  reach : Reach size 4 items quota blank last

module _ {T : Type 0} {size : ℕ} {items : ℕ → List T} {quota : ℕ → ℕ} {blank : T} (i : ℕ)
    (p : Played size items quota blank) where
  abbrev after :
      {t : System T} → i < 4 → Step size 4 items quota i p.last t → Played size items quota blank
  after lt st = record { last = _; reach = next i lt p.reach st }

  -- Thread `i` begins its next call, or comes to its end.
  begin :
      (todo : List T)
      → i < 4
      → (p.last.threads i).call ≡ resting
      → (p.last.threads i).todo ≡ todo
      → Played size items quota blank
  begin (x ∷ rest) lt e f = elim (decide (is_ready (p.last.ring.pc i))) [
    | inl ready ↦ after lt (call_push x rest e f ready)
    | inr _ ↦ p
  ]
  begin [] lt e f = elim (decide (ltb (p.last.threads i).local_count (quota i))) [
    | inl less ↦ elim (decide (is_ready (p.last.ring.pc i))) [
      | inl ready ↦ after lt (call_pop e f (ground (arith, less)) ready)
      | inr _ ↦ p
    ]
    | inr enough ↦ after lt (join e f (ground (arith, enough)))
  ]

  push_on :
      (pc : Ring.Pc T) (todo : List T)
      → i < 4
      → (p.last.threads i).call ≡ pushing
      → p.last.ring.pc i ≡ pc
      → (p.last.threads i).todo ≡ todo
      → Played size items quota blank
  push_on (Ring.pushed true) (x ∷ rest) lt e f g = after lt (end_push x rest e g f)
  push_on (Ring.pushed false) todo lt e f g = after lt (push_again e f)
  push_on pc todo lt e f g = after lt (move false (ap is_busy e))

  pop_on :
      (pc : Ring.Pc T)
      → i < 4
      → (p.last.threads i).call ≡ popping
      → p.last.ring.pc i ≡ pc
      → Played size items quota blank
  pop_on (Ring.popped (some x)) lt e f = after lt (end_pop x e f)
  pop_on (Ring.popped none) lt e f = after lt (pop_again e f)
  pop_on pc lt e f = after lt (move false (ap is_busy e))

  go_on : (c : Call) → i < 4 → (p.last.threads i).call ≡ c → Played size items quota blank
  go_on resting lt e = begin (p.last.threads i).todo lt e refl
  go_on pushing lt e = push_on (p.last.ring.pc i) (p.last.threads i).todo lt e refl refl
  go_on popping lt e = pop_on (p.last.ring.pc i) lt e refl
  go_on joined lt e = p

-- `k` steps of thread `i`.
turns :
    {T : Type 0} {size : ℕ} {items : ℕ → List T} {quota : ℕ → ℕ} {blank : T}
    → (k i : ℕ) → i < 4
    → Played size items quota blank
    → Played size items quota blank
turns zero i lt p = p
turns (suc k) i lt p = turns k i lt (go_on i p (p.last.threads i).call lt refl)

-- A call takes seven steps with its begin and its end, and one more ends the thread.
one_after_the_other :
    {T : Type 0} {size : ℕ} {items : ℕ → List T} {quota : ℕ → ℕ} {blank : T}
    → Played size items quota blank
    → Played size items quota blank
one_after_the_other p =
    turns 8 3 (omega arith)
      (turns 8 2 (omega arith) (turns 8 1 (omega arith) (turns 8 0 (omega arith) p)))

consumed_2 : Played 1024 (mpmc_items 1) (mpmc_quota 1) 0
consumed_2 = one_after_the_other (record { last = _; reach = here })

consumed_2_over : (i : ℕ) → i < 4 → (consumed_2.last.threads i).call ≡ joined
unfolding consumed_2 one_after_the_other turns go_on begin push_on pop_on start mpmc_items
    mpmc_quota upto Ring.start Ring.init Ring.advance Ring.step Ring.slot
consumed_2_over zero lt = refl
consumed_2_over (suc zero) lt = refl
consumed_2_over (suc (suc zero)) lt = refl
consumed_2_over (suc (suc (suc zero))) lt = refl
consumed_2_over (suc (suc (suc (suc i)))) lt = absurd (omega (arith, lt))

all_consumed_example :
    (consumed_2.last.total_consumed ≡ 2)
    × Holds 1024 consumed_2.last.ring.mem []
    × ((x : ℕ)
        → weight (occurs x) (map (λ e. e.1) consumed_2.last.ring.out) ≡ (if ltb x 2 then 1 else 0))
all_consumed_example = all_consumed 1 (omega arith) consumed_2.reach consumed_2_over

abbrev blank_order : Order
blank_order = order 0 buy 0 0 0

submitted_4 : Played 4096 (trader_orders 1) (λ _. 0) blank_order
submitted_4 = one_after_the_other (record { last = _; reach = here })

submitted_4_over : (i : ℕ) → i < 4 → (submitted_4.last.threads i).call ≡ joined
unfolding submitted_4 one_after_the_other turns go_on begin push_on pop_on start trader_orders upto
    Ring.start Ring.init Ring.advance Ring.step Ring.slot
submitted_4_over zero lt = refl
submitted_4_over (suc zero) lt = refl
submitted_4_over (suc (suc zero)) lt = refl
submitted_4_over (suc (suc (suc zero))) lt = refl
submitted_4_over (suc (suc (suc (suc i)))) lt = absurd (omega (arith, lt))

abbrev never_spurious : ℕ → List Bool
never_spurious _ = false ∷ []

concurrent_trading_lem_example :
    (queue : Ring.Memory Order) × (process_rest 4096 5
        (λ _. never_spurious)
        (λ _. never_spurious)
        (record { order_queue = submitted_4.last.ring.mem; levels = no_levels })
        0
      ≡ some (
        record { order_queue = queue; levels = apply_all no_levels submitted_4.last.ring.log },
        4,
      ))
    × Holds 4096 queue []
    × ((w : Order → ℕ)
        → weight w submitted_4.last.ring.log ≡ total 4 (λ i. weight w (trader_orders 1 i)))
concurrent_trading_lem_example =
    concurrent_trading_lem 1 (omega arith) (omega arith) submitted_4.reach submitted_4_over
      (λ _. never_spurious) (λ _. never_spurious) (λ n i. refl) (λ n i. refl) 5 (omega arith)
