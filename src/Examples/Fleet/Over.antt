-- ===== src/Examples/Fleet/Over.antt =====
-- The ring and the counts when every thread has come to its end.
use mathlib.Core.List.{map}
use native.Mathlib.Decide.{dec_lt}
use lockless_concurrent_fram.Common.{
  ℕ, ◌+◌, ◌<◌, ◌≡◌, refl, sym, ◌∙◌, true, none, List, [], ◌∷◌, length, take, drop, arith,
}
use lockless_concurrent_fram.Common.Sums.{weight, total, total-same, total-nothing}
use lockless_concurrent_fram.Ring.{is_ready}
use lockless_concurrent_fram.Ring.Alone.{Holds}
use lockless_concurrent_fram.Ring.Consumed.{weight-taken}
use lockless_concurrent_fram.Ring.History.{reading}
use lockless_concurrent_fram.Ring.Invariant.Slots.{IsSize}
use lockless_concurrent_fram.Ring.Safety.{in_order, at_rest}
use lockless_concurrent_fram.Examples.Fleet.{joined, System, Reach}
use lockless_concurrent_fram.Examples.Fleet.Invariant.{left, took, counted, Inv}
use lockless_concurrent_fram.Examples.Fleet.Reachable.{Reach-Inv}

pub weight_one : {T : Type 0} (xs : List T) → weight (λ _. 1) xs ≡ length xs
weight_one [] = refl
weight_one (x ∷ xs) = omega (arith, weight_one xs)

module _ {T : Type 0} {size n : ℕ} {items : ℕ → List T} {quota : ℕ → ℕ} {blank : T} {s : System T}
    (r : Reach size n items quota blank s)
    (over : (i : ℕ) → i < n → (s.threads i).call ≡ joined) where
  inv : Inv size n items quota blank s
  inv = Reach-Inv r

  pub over-ready : (i : ℕ) → is_ready (s.ring.pc i) ≡ true
  over-ready i = elim (dec_lt i n) [
    | yes lt ↦ let f = rw (over i lt) at (inv.fits i) in f.0
    | no ge ↦ let f = rw (inv.outside i (omega (arith, ge))) at (inv.fits i) in f.0
  ]

  -- Every item is in the history.
  pub over-sent : (w : T → ℕ) → weight w s.ring.log ≡ total n (λ i. weight w (items i))
  over-sent w = omega (
    arith,
    inv.sent w,
    total-same n (λ i. weight w (left (s.threads i) (s.ring.pc i))) (λ _. 0)
        (λ i lt. let f = rw (over i lt) at (inv.fits i) in rw (over i lt, f.1) refl),
    total-nothing n,
  )

  pub over-taken : weight (λ _. 1) (map (λ e. e.1) s.ring.out) ≡ total n quota
  over-taken =
      inv.taken
      ∙ total-same n (λ i. took (s.threads i) (s.ring.pc i)) quota
          (λ i lt. let f = rw (over i lt) at (inv.fits i) in rw (over i lt) (omega (arith, f.2)))

  pub over-consumed : s.total_consumed ≡ total n quota
  over-consumed =
      inv.consumed
      ∙ total-same n (λ i. counted (s.threads i) (s.ring.pc i)) quota
          (λ i lt. let f = rw (over i lt) at (inv.fits i) in rw (over i lt) f.2)

  module _ (ok : IsSize size)
      (room : total n (λ i. length (items i)) + size < 0x8000_0000_0000_0000) where
    pub over-length : length s.ring.log ≡ total n (λ i. length (items i))
    over-length =
        sym (weight_one s.ring.log)
        ∙ over-sent (λ _. 1)
        ∙ total-same n (λ i. weight (λ _. 1) (items i)) (λ i. length (items i))
            (λ i _. weight_one (items i))

    abbrev roomy : length s.ring.log + size < 0x8000_0000_0000_0000
    roomy = omega (arith, over-length, room)

    pub over-Holds : Holds size s.ring.mem (drop s.ring.mem.tail s.ring.log)
    over-Holds = at_rest size ok inv.ring roomy over-ready

    no_reader : (i : ℕ) → reading (s.ring.pc i) ≡ none
    no_reader i = ground (arith, over-ready i)

    -- What was taken is the oldest part of the history.
    pub over-got :
        (w : T → ℕ)
        → weight w (map (λ e. e.1) s.ring.out) ≡ weight w (take s.ring.mem.tail s.ring.log)
    over-got w =
        let order = in_order size ok inv.ring roomy in
        weight-taken w s.ring.log s.ring.out s.ring.mem.tail order.genuine
          (λ t lt. order.not_lost t lt no_reader) order.not_early
