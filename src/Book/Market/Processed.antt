-- ===== src/Book/Market/Processed.antt =====
-- What has become of the orders when every thread is between two calls.
use mathlib.Core.List.{map}
use native.Mathlib.Decide.{dec_lt}
use lockless_concurrent_fram.Common.{
  ℕ, ◌+◌, ◌<◌, ◌≡◌, refl, ◌∙◌, true, none, length, take, drop, arith,
}
use lockless_concurrent_fram.Common.Sums.{weight, total-same, total-nothing}
use lockless_concurrent_fram.Ring.{is_ready}
use lockless_concurrent_fram.Ring.Alone.{Holds}
use lockless_concurrent_fram.Ring.Consumed.{weight-taken}
use lockless_concurrent_fram.Ring.History.{reading}
use lockless_concurrent_fram.Ring.Invariant.Slots.{IsSize}
use lockless_concurrent_fram.Ring.Safety.{in_order, at_rest}
use lockless_concurrent_fram.Book.{Order}
use lockless_concurrent_fram.Book.Shared.Settled.{unsettled}
use lockless_concurrent_fram.Book.Market.{resting, System, Reach}
use lockless_concurrent_fram.Book.Market.Invariant.{held, Inv}
use lockless_concurrent_fram.Book.Market.Reachable.{Reach-Inv}

module _ {size n : ℕ} {blank : Order} (ok : IsSize size) {s : System} (r : Reach size n blank s)
    (room : length s.ring.log + size < 0x8000_0000_0000_0000)
    (quiet : (i : ℕ) → i < n → (s.threads i).call ≡ resting) where
  inv : Inv size n blank s
  inv = Reach-Inv r

  all_rest : (i : ℕ) → (s.threads i).call ≡ resting
  all_rest i = elim (dec_lt i n) [ yes lt ↦ quiet i lt | no ge ↦ inv.outside i (omega (arith, ge)) ]

  all_ready : (i : ℕ) → is_ready (s.ring.pc i) ≡ true
  all_ready i = let f = rw (all_rest i) at (inv.fits i) in f.0

  no_reader : (i : ℕ) → reading (s.ring.pc i) ≡ none
  no_reader i = ground (arith, all_ready i)

  all_begun : (w : Order → ℕ) → weight w s.begun ≡ weight w (map (λ e. e.1) s.ring.out)
  all_begun w = omega (
    arith,
    inv.taken w,
    total-same n (λ i. held w (s.threads i) (s.ring.pc i)) (λ _. 0)
        (λ i _. let f = rw (all_rest i) at (inv.fits i) in rw (all_rest i, f.2) refl),
    total-nothing n,
  )

  -- In every state that threads reach from a new book by calls of `submit_order` and
  -- `process_orders`, which interleave step by step on a queue of a size that is a power of two
  -- from 2 on, as long as the number of orders queued so far plus this size stays below 2 ^ 63:
  -- when every thread is between two calls, the orders that process_single_order was called with
  -- are those that were queued first, as many as `tail_` says, each as often as it was queued; the
  -- queue holds the others, in order; and each of these calls has either matched its order or left
  -- it in the book.
  pub processed_once :
      ((w : Order → ℕ) → weight w s.begun ≡ weight w (take s.ring.mem.tail s.ring.log))
      × Holds size s.ring.mem (drop s.ring.mem.tail s.ring.log)
      × (s.book.log.matches + length s.book.log.rested_bids + length s.book.log.rested_asks
          ≡ length s.begun)
  processed_once =
      let order = in_order size ok inv.ring room in
      (
        λ w.
            all_begun w
            ∙ weight-taken w s.ring.log s.ring.out s.ring.mem.tail order.genuine
                (λ t lt. order.not_lost t lt no_reader) order.not_early,
        at_rest size ok inv.ring room all_ready,
        omega (
          arith,
          inv.counted,
          total-same n (λ i. unsettled (s.book.pc i)) (λ _. 0)
              (λ i _. let f = rw (all_rest i) at (inv.fits i) in rw f.1 refl),
          total-nothing n,
        ),
      )
