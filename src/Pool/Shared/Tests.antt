-- ===== src/Pool/Shared/Tests.antt =====
-- A pool of two objects at addresses 100 and 101: thread 0 builds it, threads 1 and 2 acquire.
use lockless_concurrent_fram.Common.{
  ℕ, zero, suc, ◌+◌, ◌<◌, ◌≡◌, ◌≢◌, ◌⊎◌, inl, refl, false, ◌∷◌, update, arith,
}
use lockless_concurrent_fram.Common.Words.{word32}
use lockless_concurrent_fram.Stack.{unpack, pack, init}
use lockless_concurrent_fram.Stack.Chain.{Distinct, NotIn}
use lockless_concurrent_fram.Stack.Shared
use lockless_concurrent_fram.Stack.Shared.{pushed, popped, push_load, pop_load}
use lockless_concurrent_fram.Stack.Shared.Nodes.{In}
use lockless_concurrent_fram.Pool.Shared.{
  resting, filling, acquiring, System, start, call_fill, end_fill, call_acquire, end_acquire, move,
  Reach, here, next, calls_push, calls_pop,
}
use lockless_concurrent_fram.Pool.Shared.Invariant.{carried}
use lockless_concurrent_fram.Pool.Shared.Safety.{one_holder, none_lost}

-- `n` steps of thread `u` in its call.
abbrev moves : ℕ → ℕ → System → System
moves zero u s = s
moves (suc n) u s = moves n u (record s { stack = Shared.advance u false s.stack })

moves-Reach :
    (n u : ℕ) (s : System) → s.call u ≢ resting → Reach 100 2 s → Reach 100 2 (moves n u s)
moves-Reach zero u s busy r = r
moves-Reach (suc n) u s busy r = moves-Reach n u _ busy (next u r (move false busy))

abbrev ends : ℕ → System → System
ends u s = record s { call = update s.call u resting }

abbrev fills : System → System
fills s = record s {
  stack = calls_push 0 s.filled s.stack;
  call = update s.call 0 filling;
  filled = s.filled + 1;
}

abbrev acquires : ℕ → System → System
acquires u s = record s { stack = calls_pop u s.stack; call = update s.call u acquiring }

abbrev built : System
built = ends 0 (moves 7 0 (fills (ends 0 (moves 7 0 (fills (start 2))))))

built-Reach : Reach 100 2 built
unfolding start Shared.start Shared.advance Shared.step Shared.bumped pack unpack init
built-Reach =
    next 0
      (moves-Reach 7 0 _ (λ e. cc)
        (next 0
          (next 0
            (moves-Reach 7 0 _ (λ e. cc) (next 0 here (call_fill refl refl refl (omega arith))))
            (end_fill refl refl))
          (call_fill refl refl refl (omega arith))))
      (end_fill refl refl)

-- Thread 1 holds object 1, and thread 2 has taken object 0 off the stack.
abbrev given : System
given =
    let s = moves 7 1 (acquires 1 built) in
    record (ends 1 s) { held = update s.held 1 (1 ∷ s.held 1) }

abbrev leaving : System
leaving = moves 3 2 (acquires 2 given)

leaving-Reach : Reach 100 2 leaving
unfolding start Shared.start Shared.advance Shared.step Shared.bumped pack unpack init
leaving-Reach =
    moves-Reach 3 2 _ (λ e. cc)
      (next 2
        (next 1
          (moves-Reach 7 1 _ (λ e. cc)
            (next 1 built-Reach (call_acquire (refl, λ e. cc) refl refl)))
          (end_acquire 1 refl refl))
        (call_acquire (refl, λ e. cc) refl refl))

few : leaving.stack.moves < word32
unfolding start Shared.start Shared.advance Shared.step Shared.bumped pack unpack init
few = omega arith

one_holder_example :
    (1 < 2)
    × NotIn 1 leaving.stack.contents
    × Distinct (leaving.held 1)
    × ((w : ℕ) → In 1 (leaving.held w) → 1 ≡ w)
unfolding start Shared.start Shared.advance Shared.step Shared.bumped pack unpack init
one_holder_example = one_holder (omega arith) (omega arith) leaving-Reach few 1 1 (inl refl)

none_lost_example :
    ((u : ℕ) → leaving.call u ≢ resting → leaving.stack.pc u ≢ pushed false)
    × ((i : ℕ)
        → i < leaving.filled
        → In i leaving.stack.contents
          ⊎ ((u : ℕ) × (In i (leaving.held u)
                ⊎ ((leaving.call u ≢ resting)
                    × In i
                        (carried (leaving.call u) (leaving.stack.pc u) (leaving.stack.claim u))))))
none_lost_example = none_lost (omega arith) (omega arith) leaving-Reach few
