-- ===== src/Epoch/Tests.antt =====
-- Runs of a reclaimer, and the theorems at states that such runs reach.
use lockless_concurrent_fram.Common.{
  ℕ, ◌+◌, ◌%◌, ◌≤◌, ◌<◌, ◌≡◌, ◌≢◌, IsIn, refl, true, some, [], ◌∷◌, ◌++◌, ◌==◌, if◌then◌else◌,
  update, arith,
}
use lockless_concurrent_fram.Common.Words.{max64}
use lockless_concurrent_fram.Epoch.{
  Memory, RetiredNode, idle, enter_load, retire_load, swap, num_epochs, is_behind, step, take_slot,
  System, advance, start, call_register, call_enter, call_retire, Reach, here, next, IsInside,
}
use lockless_concurrent_fram.Epoch.Grace.{Gone, lags, readers-Gone}
use lockless_concurrent_fram.Epoch.Race.{Others, moves, moves-Reach, freed_too_early}
use lockless_concurrent_fram.Epoch.Calls.{find_slot, register_thread, all_current, retire, destroy}
use lockless_concurrent_fram.Epoch.Calls.Quiescent.{deleted_by_third}
use lockless_concurrent_fram.Epoch.Counts.{times, carried}
use lockless_concurrent_fram.Common.Sums.{total}
use lockless_concurrent_fram.Epoch.Conserved.{retired_objects, conserved}

abbrev registered : System
registered = record start { mem = take_slot 0 start.mem }

-- Thread 1 retires an object with nobody inside: 72 steps.
abbrev retired : ℕ → System → System
retired x s = moves 72 1 (record s { pc = update s.pc 1 (retire_load x) })

-- Then thread 0 enters, at epoch 2.
abbrev entering : System
entering = let s = retired 8 (retired 7 registered) in record s { pc = update s.pc 0 enter_load }

abbrev inside : System
inside = moves 2 0 entering

-- Thread 1 retires once more, and has just advanced to epoch 3.
abbrev advancing : System
advancing = moves 70 1 (record inside { pc = update inside.pc 1 (retire_load 9) })

advancing-Reach : Reach advancing
unfolding advance step start take_slot is_behind
advancing-Reach = moves-Reach 70 1 _ (
    next 1
      (moves-Reach 2 0 _ (
        next 0
          (moves-Reach 72 1 _ (
            next 1
              (moves-Reach 72 1 _
                (next 1 (next 0 here (call_register refl refl (omega arith))) (call_retire 7 refl)))
              (call_retire 8 refl)))
          (call_enter refl refl refl)))
      (call_retire 9 refl))

advancing_lem :
    (advancing.pc 1 ≡ swap 3)
    × (advancing.entered 0 ≡ 2)
    × (advancing.mem.local_epoch 0 ≡ 2)
    × (advancing.mem.retire_lists 0 ≡ record { ptr = 7; epoch = 0 } ∷ [])
unfolding advance step start take_slot is_behind
advancing_lem = (refl, refl, refl, refl)

lags_example :
    (advancing.mem.in_use 0 ≡ true)
    × (advancing.entered 0 ≤ advancing.mem.global_epoch)
    × (advancing.mem.global_epoch ≤ advancing.entered 0 + 1)
unfolding advance step start take_slot is_behind
lags_example = lags advancing-Reach (omega arith) 0 (λ e. omega (arith, e))

readers-Gone_example : Gone advancing 3 (advancing.mem.retire_lists (3 % num_epochs))
unfolding advance step start take_slot is_behind
readers-Gone_example = readers-Gone advancing-Reach (omega arith) 1 3 refl

freed_too_early_example :
    (s : System) × (t : System) × Reach s
    × (s.mem.global_epoch ≡ 1)
    × (s.mem.local_epoch 0 ≡ 0)
    × (s.pc 0 ≡ idle)
    × (s.pc 1 ≡ swap 1)
    × (s.pc 2 ≡ retire_load 8)
    × ((j : ℕ) → 2 < j → s.pc j ≡ idle)
    × ((k : ℕ) (node : RetiredNode) → IsIn node (s.mem.retire_lists k) → node.ptr ≢ 8)
    × (s.freed ≡ [])
    × Others 0 s t
    × IsInside t 0
    × (t.freed ≡ 8 ∷ [])
    × (t.mem.retire_lists 0 ≡ record { ptr = 7; epoch = 0 } ∷ [])
freed_too_early_example = freed_too_early 7 8 (λ e. omega (arith, e))

-- Slot 0 is taken, and its thread is inside since epoch 4.
abbrev busy : Memory
busy = record {
  global_epoch = 5;
  local_epoch = λ i. if i == 0 then 4 else max64;
  in_use = λ i. i == 0;
  retire_lists = λ i. if i == 0 then record { ptr = 3; epoch = 3 } ∷ [] else [];
}

abbrev calm : Memory
calm = record busy { local_epoch = λ _. max64 }

second_slot : (register_thread busy).1 ≡ some 1
unfolding register_thread find_slot
second_slot = refl

blocked_retire : (retire busy 9).1 ≡ []
unfolding retire all_current is_behind
blocked_retire = refl

deleted_by_third_example :
    (retire (retire (retire calm 10).0 11).0 12).1
    ≡ calm.retire_lists (5 % num_epochs) ++ record { ptr = 10; epoch = 5 } ∷ []
deleted_by_third_example = deleted_by_third calm 10 11 12 (λ i. refl) (omega arith)

-- Thread 0 has put object 7 into a list, and is about to look whether it may advance.
abbrev pushed_7 : System
pushed_7 = moves 2 0 (record start { pc = update start.pc 0 (retire_load 7) })

pushed_7-Reach : Reach pushed_7
unfolding start
pushed_7-Reach = moves-Reach 2 0 _ (next 0 here (call_retire 7 refl))

pushed_7_quiet : (i : ℕ) → 1 ≤ i → pushed_7.pc i ≡ idle
unfolding advance step start
pushed_7_quiet i le = ground (arith, le)

conserved_example :
    times 7 (pushed_7.freed ++ destroy pushed_7.mem) + total 1 (λ i. carried 7 (pushed_7.pc i))
    ≡ times 7 (retired_objects pushed_7-Reach)
conserved_example = conserved pushed_7-Reach 7 1 pushed_7_quiet
