-- ===== src/Spsc/Tests.antt =====
-- Runs of a queue with an array of two, and the theorems at states that such runs reach.
use lockless_concurrent_fram.Common.{
  ℕ, ◌+◌, ◌≤◌, ◌≡◌, ◌≢◌, ◌⊎◌, refl, Bool, true, false, inl, inr, List, [], ◌∷◌, ◌++◌, length, take,
  arith,
}
use lockless_concurrent_fram.Spsc.{
  Memory, push_load, push_test, pushed, pop_load, next_index, capacity, init, push_step, pop_step,
  System, may_push, may_pop, start, produce, consume, call_push, call_pop, move_producer,
  move_consumer, Reach, here, next,
}
use lockless_concurrent_fram.Spsc.Invariant.{IsSize}
use lockless_concurrent_fram.Spsc.Calls.{push_through, pop_through}
use lockless_concurrent_fram.Spsc.Safety.{fifo, no_overlap, wait_free, returned, finished}

four : IsSize 4
four = record { pow = record { exponent = 2; is_pow = refl }; two = omega arith }

data Choice : Type 0 where
  push : ℕ → Choice
  pop producer consumer : Choice

record Played : Type 0 where
  last : System ℕ
  reach : Reach 4 0 last

abbrev decide : (b : Bool) → (b ≡ true) ⊎ (b ≡ false)
decide true = inl refl
decide false = inr refl

play_one : Played → Choice → Played
play_one r (push x) = elim (decide (may_push r.last.producer)) [
  | inl e ↦ record { last = _; reach = next r.reach (call_push x e) }
  | inr _ ↦ r
]
play_one r pop = elim (decide (may_pop r.last.consumer)) [
  | inl e ↦ record { last = _; reach = next r.reach (call_pop e) }
  | inr _ ↦ r
]
play_one r producer = record { last = _; reach = next r.reach move_producer }
play_one r consumer = record { last = _; reach = next r.reach move_consumer }

play : Played → List Choice → Played
unfolding play_one produce consume push_step pop_step next_index start init
play r [] = r
play r (c ∷ cs) = play (play_one r c) cs

abbrev fresh : Played
fresh = record { last = start 0; reach = here }

abbrev push_all : ℕ → List Choice
push_all x = push x ∷ producer ∷ producer ∷ producer ∷ producer ∷ []

-- The consumer reads the 7 while the producer writes the 8.
abbrev both : Played
both = play fresh (push_all 7 ++ pop ∷ consumer ∷ consumer ∷ push 8 ∷ producer ∷ producer ∷ [])

fifo_example :
    (both.last.out ≡ take (length both.last.out) both.last.log)
    × (length both.last.out ≤ length both.last.log)
    × (length both.last.log ≤ length both.last.out + capacity 4)
fifo_example = fifo 4 four both.reach

no_overlap_example : ◌≢◌ {A = ℕ} 1 0
unfolding play
no_overlap_example = no_overlap 4 four both.reach 8 1 0 refl refl

-- Three items are all that an array of four takes.
abbrev full : Played
full = play fresh (push_all 7 ++ push_all 8 ++ push_all 9 ++ push 10 ∷ producer ∷ [])

full_refuses : (push_step 4 full.last.mem (push_test 10 3)).1 ≡ pushed false
unfolding play
full_refuses = refl

abbrev asking : Played
asking = play fresh (pop ∷ consumer ∷ [])

abbrev blank : Memory ℕ
blank = record { head = 0; tail = 0; buffer = λ _. 0 }

abbrev other : Memory ℕ
other = record { head = 1; tail = 0; buffer = λ _. 7 }

wait_free_example :
    (returned (push_through 4 (blank ∷ other ∷ blank ∷ other ∷ []) (push_load 5)) ≡ true)
    × (finished (pop_through 4 (blank ∷ other ∷ blank ∷ other ∷ []) pop_load) ≡ true)
wait_free_example = wait_free 4 blank other blank other 5
