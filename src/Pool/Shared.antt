-- ===== src/Pool/Shared.antt =====
-- include/lockless/object_pool.hpp: the pool with many threads at work, over the stack of
-- Stack/Shared, whose calls threads interleave step by step.
pub mod Split
pub mod Passage
pub mod Spare
pub mod Invariant
pub mod Reachable
pub mod Inside
pub mod Turns
pub mod Safety
mod Tests
use lockless_concurrent_fram.Common.{
  ℕ, ◌+◌, ◌-◌, ◌%◌, ◌<◌, ◌≡◌, ◌≢◌, Bool, true, false, ◌||◌, Option, none, some, List, [], ◌∷◌, ◌++◌,
  ltb, leb, if◌then◌else◌, update,
}
use lockless_concurrent_fram.Common.Words.{word32}
use lockless_concurrent_fram.Stack.Shared
use lockless_concurrent_fram.Stack.Shared.{push_load, pushed, pop_load, popped, is_ready}

-- The call that a thread is in: the constructor's try_push, `acquire`, or `release`.
pub data Call : Type 0 where
  resting filling acquiring releasing : Call

-- `held` are the objects that a thread has from `acquire` and not yet given to `release`, and
-- `filled` counts the calls of try_push that the constructor has begun.
pub record System : Type 0 where
  pub stack : Shared.System ℕ
  pub call : ℕ → Call
  pub held : ℕ → List ℕ
  pub filled : ℕ

-- `release` of a pointer: the index that it pushes, if any. Addresses are counted in objects.
pub released_index : ℕ → ℕ → ℕ → Option ℕ
released_index base capacity p =
    if ltb p base || leb capacity (p - base) then none else some ((p - base) % word32)

-- The stack as thread `u` begins a call of it.
abbrev pub calls_push : ℕ → ℕ → Shared.System ℕ → Shared.System ℕ
calls_push u i s = record s { pc = update s.pc u (push_load i) }

abbrev pub calls_pop : ℕ → Shared.System ℕ → Shared.System ℕ
calls_pop u s = record s { pc = update s.pc u pop_load }

pub start : ℕ → System
start capacity = record {
  stack = Shared.start 0 capacity;
  call = λ _. resting;
  held = λ _. [];
  filled = 0;
}

-- The constructor is done.
abbrev pub IsOpen : ℕ → System → Type 0
IsOpen capacity s = (s.filled ≡ capacity) × (s.call 0 ≢ filling)

-- What thread `u` does. Thread 0 runs the constructor, which goes on only while its pushes return
-- true. A thread releases what it holds.
module _ (base capacity : ℕ) where
  pub data Step (u : ℕ) (s : System) : System → Type 0 where
    call_fill :
        u ≡ 0
        → s.call u ≡ resting
        → is_ready (s.stack.pc u) ≡ true
        → s.filled < capacity
        → Step u s (record s {
          stack = calls_push u s.filled s.stack;
          call = update s.call u filling;
          filled = s.filled + 1;
        })
    end_fill :
        s.call u ≡ filling
        → s.stack.pc u ≡ pushed true
        → Step u s (record s { call = update s.call u resting })
    call_acquire :
        IsOpen capacity s
        → s.call u ≡ resting
        → is_ready (s.stack.pc u) ≡ true
        → Step u s (record s { stack = calls_pop u s.stack; call = update s.call u acquiring })
    end_acquire :
        (i : ℕ)
        → s.call u ≡ acquiring
        → s.stack.pc u ≡ popped (some i)
        → Step u s
            (record s { call = update s.call u resting; held = update s.held u (i ∷ s.held u) })
    end_acquire_null :
        s.call u ≡ acquiring
        → s.stack.pc u ≡ popped none
        → Step u s (record s { call = update s.call u resting })
    call_release :
        (before : List ℕ) (i : ℕ) (after : List ℕ) (idx : ℕ)
        → IsOpen capacity s
        → s.call u ≡ resting
        → is_ready (s.stack.pc u) ≡ true
        → s.held u ≡ before ++ i ∷ after
        → released_index base capacity (base + i) ≡ some idx
        → Step u s (record s {
          stack = calls_push u idx s.stack;
          call = update s.call u releasing;
          held = update s.held u (before ++ after);
        })
    release_nothing :
        (before : List ℕ) (i : ℕ) (after : List ℕ)
        → IsOpen capacity s
        → s.call u ≡ resting
        → s.held u ≡ before ++ i ∷ after
        → released_index base capacity (base + i) ≡ none
        → Step u s (record s { held = update s.held u (before ++ after) })
    end_release :
        (result : Bool)
        → s.call u ≡ releasing
        → s.stack.pc u ≡ pushed result
        → Step u s (record s { call = update s.call u resting })
    move :
        (spurious : Bool)
        → s.call u ≢ resting
        → Step u s (record s { stack = Shared.advance u spurious s.stack })

  pub data Reach : System → Type 0 where
    here : Reach (start capacity)
    next : {s t : System} (u : ℕ) → Reach s → Step u s t → Reach t
