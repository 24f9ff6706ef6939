-- ===== src/Stack/Shared/Tests.antt =====
-- Two threads on a stack of two nodes, and the theorems at the state that they reach.
use mathlib.Core.List.{map}
use lockless_concurrent_fram.Common.{
  ℕ, zero, suc, ◌≤◌, ◌<◌, ◌≡◌, ◌↔◌, ◌⊎◌, refl, false, some, List, [], length, update, arith,
}
use lockless_concurrent_fram.Common.Words.{max32}
use lockless_concurrent_fram.Stack.{pack, unpack, init}
use lockless_concurrent_fram.Stack.Chain.{Chain, NotIn, Distinct}
use lockless_concurrent_fram.Stack.Shared.{
  push_load, push_try, pop_load, popped, step, bumped, System, advance, start, call_push, call_pop,
  move, Reach, here, next,
}
use lockless_concurrent_fram.Stack.Shared.Nodes.{In}
use lockless_concurrent_fram.Stack.Shared.Invariant.{owned}
use lockless_concurrent_fram.Stack.Shared.Safety.{Answers, linearizable, one_owner}

-- `n` steps of thread `i`.
abbrev moves : ℕ → ℕ → System ℕ → System ℕ
moves zero i s = s
moves (suc n) i s = moves n i (advance i false s)

moves-Reach : (n i : ℕ) (s : System ℕ) → Reach 0 2 s → Reach 0 2 (moves n i s)
moves-Reach zero i s r = r
moves-Reach (suc n) i s r = moves-Reach n i (advance i false s) (next r (move i false))

abbrev pushing : ℕ → System ℕ → System ℕ
pushing x s = record s { pc = update s.pc 0 (push_load x) }

abbrev popping : System ℕ → System ℕ
popping s = record s { pc = update s.pc 1 pop_load }

-- Thread 0 pushes 7, and is about to put 8 on top of it; meanwhile thread 1 takes the 7.
abbrev overtaken : System ℕ
overtaken = moves 7 1 (popping (moves 6 0 (pushing 8 (moves 7 0 (pushing 7 (start 0 2))))))

overtaken-Reach : Reach 0 2 overtaken
unfolding advance step start init pack unpack bumped
overtaken-Reach = moves-Reach 7 1 _ (
    next
      (moves-Reach 6 0 _
        (next (moves-Reach 7 0 _ (next here (call_push 0 7 refl))) (call_push 0 8 refl)))
      (call_pop 1 refl))

overtaken_lem :
    (overtaken.pc 0 ≡ push_try 8 1 (pack 0 1))
    × (overtaken.pc 1 ≡ popped (some 7))
    × (overtaken.contents ≡ [])
    × (overtaken.mem.head ≡ pack max32 2)
unfolding advance step start init pack unpack bumped
overtaken_lem = (refl, refl, refl, refl)

few : overtaken.moves < 0x1_0000_0000
unfolding advance step start init pack unpack bumped
few = omega arith

linearizable_example :
    ((used : List ℕ) × Chain overtaken.mem.node_next (unpack overtaken.mem.head).index used
      × Distinct used
      × (map overtaken.mem.node_data used ≡ overtaken.contents)
      × (length overtaken.contents ≤ overtaken.mem.capacity))
    × ((unpack overtaken.mem.head).index ≡ max32 ↔ overtaken.contents ≡ [])
    × ((i : ℕ) → Answers (overtaken.claim i) (overtaken.pc i))
linearizable_example = linearizable (omega arith) (omega arith) overtaken-Reach few

one_owner_example :
    (used : List ℕ) × (spare : List ℕ) × Chain overtaken.mem.node_next
      (unpack overtaken.mem.head).index
      used
    × Chain overtaken.mem.node_next (unpack overtaken.mem.free_head).index spare
    × ((i n : ℕ)
        → owned (overtaken.pc i) ≡ some n
        → NotIn n used × NotIn n spare × ((j : ℕ) → owned (overtaken.pc j) ≡ some n → i ≡ j))
    × ((n : ℕ)
        → n < overtaken.mem.capacity
        → In n used ⊎ (In n spare ⊎ ((i : ℕ) × (owned (overtaken.pc i) ≡ some n))))
one_owner_example = one_owner (omega arith) (omega arith) overtaken-Reach few
