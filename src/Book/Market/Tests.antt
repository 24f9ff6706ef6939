-- ===== src/Book/Market/Tests.antt =====
-- Two threads that submit an order each, one of which then processes a batch.
use lockless_concurrent_fram.Common.{
  ℕ, zero, suc, ◌+◌, ◌<◌, ◌≡◌, refl, true, false, [], ◌∷◌, length, take, drop, arith,
}
use lockless_concurrent_fram.Common.Sums.{weight}
use lockless_concurrent_fram.Ring
use lockless_concurrent_fram.Ring.Alone.{Holds}
use lockless_concurrent_fram.Ring.Invariant.Slots.{IsSize}
use lockless_concurrent_fram.Book.{Order, buy, sell, no_levels}
use lockless_concurrent_fram.Book.Shared
use lockless_concurrent_fram.Book.Market.{
  submitting, popping, processing, resting, System, start, call_submit, end_submit, call_process,
  pop_next, pop_some, pop_none, process_next, end_process, move_submit, move_pop, move_process,
  Reach, here, next,
}
use lockless_concurrent_fram.Book.Market.Processed.{processed_once}

two_slots : IsSize 2
two_slots = record { pow = record { exponent = 1; is_pow = refl }; two = omega arith }

abbrev bid : Order
bid = record { order_id = 1; side = buy; price = 50; quantity = 7; timestamp = 1 }

abbrev ask : Order
ask = record { order_id = 2; side = sell; price = 50; quantity = 4; timestamp = 2 }

record Played : Type 0 where
  last : System
  reach : Reach 2 2 bid last

-- `k` steps of thread `i` inside one of its calls.
abbrev in_submit : (k i : ℕ) → i < 2 → (p : Played) → (p.last.threads i).call ≡ submitting → Played
in_submit zero i lt p e = p
in_submit (suc k) i lt p e =
    in_submit k i lt (record { last = _; reach = next i lt p.reach (move_submit false e) }) e

abbrev in_pop : (k i : ℕ) → i < 2 → (p : Played) → (p.last.threads i).call ≡ popping → Played
in_pop zero i lt p e = p
in_pop (suc k) i lt p e =
    in_pop k i lt (record { last = _; reach = next i lt p.reach (move_pop false e) }) e

abbrev in_process : (k i : ℕ) → i < 2 → (p : Played) → (p.last.threads i).call ≡ processing → Played
in_process zero i lt p e = p
in_process (suc k) i lt p e =
    in_process k i lt (record { last = _; reach = next i lt p.reach (move_process false e) }) e

abbrev here_0 : 0 < 2
here_0 = omega arith

abbrev here_1 : 1 < 2
here_1 = omega arith

-- Both orders are in the queue.
submitted : Played
unfolding start Ring.start Ring.init Ring.advance Ring.step Ring.slot
submitted =
    let a =
      in_submit 5 0 here_0
        (record { last = _; reach = next 0 here_0 here (call_submit bid refl refl) }) refl in
    let b = next 0 here_0 a.reach (end_submit true refl refl) in
    let c =
      in_submit 5 1 here_1
        (record { last = _; reach = next 1 here_1 b (call_submit ask refl refl) }) refl in
    record { last = _; reach = next 1 here_1 c.reach (end_submit true refl refl) }

-- Thread 1 has taken both, and found no more.
batched : Played
unfolding submitted start Ring.start Ring.init Ring.advance Ring.step Ring.slot
batched =
    let a = next 1 here_1 submitted.reach (call_process 10 refl) in
    let b =
      in_pop 5 1 here_1 (record { last = _; reach = next 1 here_1 a (pop_next 9 refl refl refl) })
        refl in
    let c = next 1 here_1 b.reach (pop_some bid refl refl) in
    let d =
      in_pop 5 1 here_1 (record { last = _; reach = next 1 here_1 c (pop_next 8 refl refl refl) })
        refl in
    let e = next 1 here_1 d.reach (pop_some ask refl refl) in
    let f =
      in_pop 2 1 here_1 (record { last = _; reach = next 1 here_1 e (pop_next 7 refl refl refl) })
        refl in
    record { last = _; reach = next 1 here_1 f.reach (pop_none refl refl) }

-- It has left the bid in the book, and matched the ask.
processed : Played
unfolding batched submitted start Ring.start Ring.init Ring.advance Ring.step Ring.slot Shared.start
    Shared.advance Shared.step no_levels
processed =
    let a =
      in_process 4 1 here_1
        (record {
          last = _;
          reach = next 1 here_1 batched.reach (process_next bid (ask ∷ []) refl refl refl);
        })
        refl in
    let b =
      in_process 4 1 here_1
        (record { last = _; reach = next 1 here_1 a.reach (process_next ask [] refl refl refl) })
        refl in
    record { last = _; reach = next 1 here_1 b.reach (end_process refl refl refl) }

processed_quiet : (i : ℕ) → i < 2 → (processed.last.threads i).call ≡ resting
unfolding processed batched submitted start
processed_quiet zero lt = refl
processed_quiet (suc zero) lt = refl
processed_quiet (suc (suc i)) lt = absurd (omega (arith, lt))

processed_once_example :
    ((w : Order → ℕ)
      → weight w processed.last.begun
        ≡ weight w (take processed.last.ring.mem.tail processed.last.ring.log))
    × Holds 2 processed.last.ring.mem (drop processed.last.ring.mem.tail processed.last.ring.log)
    × (processed.last.book.log.matches
          + length processed.last.book.log.rested_bids
          + length processed.last.book.log.rested_asks
        ≡ length processed.last.begun)
unfolding processed batched submitted start Ring.start Ring.init Ring.advance Ring.step Ring.slot
processed_once_example = processed_once two_slots processed.reach (omega arith) processed_quiet
