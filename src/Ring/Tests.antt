-- ===== src/Ring/Tests.antt =====
-- Runs of a ring of two slots, and the theorems at states that such runs reach.
use lockless_concurrent_fram.Common.{
  ℕ, zero, suc, ◌+◌, ◌≡◌, ◌⊎◌, refl, Bool, true, false, some, inl, inr, List, [], ◌∷◌, ◌++◌, drop,
  arith,
}
use lockless_concurrent_fram.Ring.{
  Memory, Pc, slot, init, step, System, start, advance, is_ready, call_push, call_pop, move, Reach,
  here, next,
}
use lockless_concurrent_fram.Ring.Invariant.{push_ticket, pop_ticket}
use lockless_concurrent_fram.Ring.Invariant.Slots.{IsSize}
use lockless_concurrent_fram.Ring.Calls.{try_push, try_pop, try_push_batch, try_pop_batch}
use lockless_concurrent_fram.Ring.Alone.{Holds, calls-refine}
use lockless_concurrent_fram.Ring.Batch.{batches-refine}
use lockless_concurrent_fram.Ring.Safety.{
  InOrder, in_order, slot_exclusive, full_when_refused, empty_when_refused, at_rest,
}
use lockless_concurrent_fram.Ring.SingleSlot.{one_slot_overwrites}

two_slots : IsSize 2
two_slots = record { pow = record { exponent = 1; is_pow = refl }; two = omega arith }

-- What a schedule says next.
data Choice : Type 0 where
  push : ℕ → ℕ → Choice
  pop : ℕ → Choice
  tick : ℕ → Choice

record Played : Type 0 where
  last : System ℕ
  reach : Reach 2 0 last

abbrev decide : (b : Bool) → (b ≡ true) ⊎ (b ≡ false)
decide true = inl refl
decide false = inr refl

play_one : Played → Choice → Played
play_one r (push i x) = elim (decide (is_ready (r.last.pc i))) [
  | inl e ↦ record { last = _; reach = next r.reach (call_push i x e) }
  | inr _ ↦ r
]
play_one r (pop i) = elim (decide (is_ready (r.last.pc i))) [
  | inl e ↦ record { last = _; reach = next r.reach (call_pop i e) }
  | inr _ ↦ r
]
play_one r (tick i) = record { last = _; reach = next r.reach (move i false) }

play : Played → List Choice → Played
unfolding play_one advance step init start slot
play r [] = r
play r (c ∷ cs) = play (play_one r c) cs

abbrev fresh : Played
fresh = record { last = start 2 0; reach = here }

abbrev whole : ℕ → List Choice
whole i = tick i ∷ tick i ∷ tick i ∷ tick i ∷ tick i ∷ []

-- Thread 0 has pushed 7 and 8; thread 1 is about to read the 7.
abbrev reading_7 : Played
reading_7 =
    play fresh
      ((push 0 7 ∷ whole 0) ++ (push 0 8 ∷ whole 0) ++ pop 1 ∷ tick 1 ∷ tick 1 ∷ tick 1 ∷ [])

reading_7_lem :
    (reading_7.last.pc 1 ≡ Pc.pop_read 0)
    × (reading_7.last.log ≡ 7 ∷ 8 ∷ [])
    × (reading_7.last.mem.tail ≡ 1)
unfolding play
reading_7_lem = (refl, refl, refl)

in_order_example : InOrder reading_7.last
unfolding play
in_order_example = in_order 2 two_slots reading_7.reach (omega arith)

slot_exclusive_example : ◌≡◌ {A = ℕ} 1 1
unfolding play
slot_exclusive_example =
    slot_exclusive 2 two_slots reading_7.reach (omega arith) 1 1 0 0 refl refl refl

-- The ring is full with 7 and 8, and thread 2 comes with a 9.
abbrev refused_9 : Played
refused_9 = play fresh ((push 0 7 ∷ whole 0) ++ (push 0 8 ∷ whole 0) ++ push 2 9 ∷ tick 2 ∷ [])

full_when_refused_example :
    (2 ≡ refused_9.last.mem.head)
    × ((refused_9.last.mem.head ≡ refused_9.last.mem.tail + 2)
        ⊎ ((j : ℕ) × (t : ℕ) × (pop_ticket (refused_9.last.pc j) ≡ some t)
            × (t + 2 ≡ refused_9.last.mem.head)))
unfolding play
full_when_refused_example =
    full_when_refused 2 two_slots refused_9.reach (omega arith) 2 9 2 false refl refl

-- Thread 0 has won ticket 0 and has not published; thread 1 finds nothing.
abbrev stalled : Played
stalled = play fresh (push 0 7 ∷ tick 0 ∷ tick 0 ∷ tick 0 ∷ pop 1 ∷ tick 1 ∷ [])

empty_when_refused_example :
    (0 ≡ stalled.last.mem.tail)
    × ((stalled.last.mem.head ≡ stalled.last.mem.tail)
        ⊎ ((j : ℕ) × (push_ticket (stalled.last.pc j) ≡ some stalled.last.mem.tail)))
unfolding play
empty_when_refused_example =
    empty_when_refused 2 two_slots stalled.reach (omega arith) 1 0 false refl refl

abbrev one_item : Played
one_item = play fresh (push 0 7 ∷ whole 0)

one_item_ready : (i : ℕ) → is_ready (one_item.last.pc i) ≡ true
unfolding play
one_item_ready zero = refl
one_item_ready (suc i) = ground arith

at_rest_example : Holds 2 one_item.last.mem (drop one_item.last.mem.tail one_item.last.log)
unfolding play
at_rest_example = at_rest 2 two_slots one_item.reach (omega arith) one_item_ready

one_item_Holds : Holds 2 one_item.last.mem (7 ∷ [])
unfolding play
one_item_Holds = at_rest 2 two_slots one_item.reach (omega arith) one_item_ready

calls-refine_example :
    ((m : Memory ℕ) × (try_push 2 (true ∷ false ∷ []) one_item.last.mem 8 ≡ some (m, true))
      × Holds 2 m (7 ∷ 8 ∷ []))
    × ((m : Memory ℕ) × (try_pop 2 (true ∷ false ∷ []) one_item.last.mem ≡ some (m, some 7))
        × Holds 2 m [])
unfolding play
calls-refine_example =
    calls-refine 2 two_slots one_item.last.mem (7 ∷ []) (true ∷ false ∷ []) 8 one_item_Holds refl
      (omega arith)

abbrev never_spurious : ℕ → List Bool
never_spurious _ = false ∷ []

batches-refine_example :
    (m' : Memory ℕ) × (m'' : Memory ℕ) × (try_push_batch 2 never_spurious one_item.last.mem
        (8 ∷ 9 ∷ [])
        0
      ≡ some (m', 1))
    × Holds 2 m' (7 ∷ 8 ∷ [])
    × (try_pop_batch 2 never_spurious 0 1 m' ≡ some (m'', 7 ∷ []))
    × Holds 2 m'' (8 ∷ [])
unfolding play
batches-refine_example =
    batches-refine 2 two_slots never_spurious (λ _. refl) (8 ∷ 9 ∷ []) (7 ∷ []) 1 one_item.last.mem
      one_item_Holds (omega arith)

abbrev overwritten : Memory ℕ
overwritten = record { sequences = λ _. 1; buffer = λ _. 7; head = 1; tail = 0 }

one_slot_overwrites_example :
    (m : Memory ℕ) × (try_push 1 (false ∷ []) overwritten 8 ≡ some (m, true))
    × (m.sequences 0 ≡ m.head)
    × (m.tail ≡ 0)
    × (m.buffer 0 ≡ 8)
one_slot_overwrites_example = one_slot_overwrites overwritten 8 [] (omega arith) refl
