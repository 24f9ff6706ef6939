-- ===== src/Pool/Shared/Reachable.antt =====
-- The invariant of the pool at its start, after every step, and in every reachable state.
use lockless_concurrent_fram.Common.{
  ℕ, ◌+◌, ◌≤◌, ◌<◌, ◌≡◌, ◌≢◌, inl, refl, sym, ap, ◌∙◌, subst, Bool, true, false, some-injective,
  ◌∷◌, ◌++◌, update, update_self, arith,
}
use lockless_concurrent_fram.Common.Words.{max32, word32}
use lockless_concurrent_fram.Stack.Shared
use lockless_concurrent_fram.Stack.Shared.Reachable as Stacked
use lockless_concurrent_fram.Stack.Start.{init-capacity}
use lockless_concurrent_fram.Stack.Chain.{Distinct}
use lockless_concurrent_fram.Stack.Shared.{
  Pc, idle, push_load, push_next, pushed, pop_load, popped, is_ready, step, contents_after,
  claim_after,
}
use lockless_concurrent_fram.Stack.Shared.Nodes.{In}
use lockless_concurrent_fram.Stack.Shared.Reachable.{Held-System, moves-Step, ready_free}
use lockless_concurrent_fram.Pool.Shared.{
  Call, resting, filling, acquiring, releasing, System, start, Step, call_fill, end_fill,
  call_acquire, end_acquire, end_acquire_null, call_release, release_nothing, end_release, move,
  Reach, here, next,
}
use lockless_concurrent_fram.Pool.Shared.Split.{Split, shuffled, brought}
use lockless_concurrent_fram.Pool.Shared.Invariant.{
  Inv, owns, Off-update, Off-same, In-front, In-middle, Distinct-front, released_index_lem,
}
use lockless_concurrent_fram.Pool.Shared.Turns.{
  at_rest, at_pop, resting_owns, same_turn, ended, push_begun,
}
use lockless_concurrent_fram.Pool.Shared.Inside.{moved}

-- The steps of the pool are steps of its stack, or leave the stack alone.
stack-Step :
    {base capacity u : ℕ} {s t : System}
    → Step base capacity u s t
    → Shared.Reach 0 capacity s.stack
    → Shared.Reach 0 capacity t.stack
stack-Step {u = u} {s = s} (call_fill z e ready lt) r =
    Shared.next r (Shared.call_push u s.filled ready)
stack-Step (end_fill e p) r = r
stack-Step {u = u} (call_acquire opened e ready) r = Shared.next r (Shared.call_pop u ready)
stack-Step (end_acquire i e p) r = r
stack-Step (end_acquire_null e p) r = r
stack-Step {u = u} (call_release before i after idx opened e ready h f) r =
    Shared.next r (Shared.call_push u idx ready)
stack-Step (release_nothing before i after opened e h f) r = r
stack-Step (end_release result e p) r = r
stack-Step {u = u} (move b e) r = Shared.next r (Shared.move u b)

pub stack-Reach :
    {base capacity : ℕ} {s : System} → Reach base capacity s → Shared.Reach 0 capacity s.stack
unfolding start
stack-Reach here = Shared.here
stack-Reach (next u r st) = stack-Step st (stack-Reach r)

abbrev is_resting : Call → Bool
is_resting resting = true
is_resting _ = false

busy_when : {c d : Call} → c ≡ d → is_resting d ≡ false → c ≢ resting
busy_when e f g = ground (arith, ap is_resting (sym e ∙ g), f)

-- Every step keeps the invariant.
Step-Inv :
    {base capacity u : ℕ} {s t : System}
    → capacity ≤ max32
    → Step base capacity u s t
    → Held-System s.stack
    → Inv capacity s
    → Inv capacity t
Step-Inv {u = u} {s = s} small (call_fill z e ready lt) stacked inv =
    push_begun inv u filling s.filled s.held (s.filled + 1) (λ f. cc) (Off-same s.held u)
      (subst
        (λ xs.
          Split (update (owns s.call s.stack.pc s.stack.claim s.held) u (s.filled ∷ xs))
            (s.filled + 1) s.stack.contents)
        (resting_owns inv u e) (brought inv.split u))
      (omega (arith, lt))
Step-Inv {u = u} {s = s} small (end_fill e p) stacked inv =
    ended inv u s.held (busy_when e refl) (rw p refl) (Off-same s.held u) (rw p refl)
Step-Inv {u = u} {s = s} small (call_acquire opened e ready) stacked inv =
    same_turn inv u (update s.call u acquiring) (update s.stack.pc u pop_load) s.held
      (Off-update s.call u acquiring) (Off-update s.stack.pc u pop_load) (Off-same s.held u)
      (rw (update_self s.call u acquiring, update_self s.stack.pc u pop_load)
        (sym (resting_owns inv u e)))
      (rw (update_self s.call u acquiring, update_self s.stack.pc u pop_load) at_pop)
Step-Inv {u = u} {s = s} small (end_acquire i e p) stacked inv =
    ended inv u (update s.held u (i ∷ s.held u)) (busy_when e refl) (rw p refl)
      (Off-update s.held u (i ∷ s.held u)) (rw (p, update_self s.held u (i ∷ s.held u)) refl)
Step-Inv {u = u} {s = s} small (end_acquire_null e p) stacked inv =
    ended inv u s.held (busy_when e refl) (rw p refl) (Off-same s.held u) (rw p refl)
Step-Inv {base = base} {capacity = capacity} {u = u} {s = s} small
      (call_release before i after idx opened e ready h f) stacked inv =
    let mine : owns s.call s.stack.pc s.stack.claim s.held u ≡ before ++ i ∷ after =
      resting_owns inv u e ∙ h in
    let lt : i < capacity = omega (
      arith,
      inv.few,
      (inv.split.elsewhere u i (subst (In i) (sym mine) (In-middle i i before after (inl refl)))).0,
    ) in
    let same : i ≡ idx = some-injective (sym (released_index_lem base capacity i lt small) ∙ f) in
    push_begun inv u releasing idx (update s.held u (before ++ after)) s.filled (λ g. cc)
      (Off-update s.held u (before ++ after))
      (rw (update_self s.held u (before ++ after)) (
        subst
          (λ i.
            Split (update (owns s.call s.stack.pc s.stack.claim s.held) u (i ∷ before ++ after))
              s.filled s.stack.contents)
          same
          (shuffled inv.split u (i ∷ before ++ after)
            (Distinct-front i before after (subst Distinct mine (inv.split.singly u)))
            (λ j k. subst (In j) (sym mine) (In-middle i j before after k))
            (λ j k. In-front i j before after (subst (In j) mine k)))))
      inv.few
Step-Inv {base = base} {capacity = capacity} {u = u} {s = s} small
      (release_nothing before i after opened e h f) stacked inv =
    let mine : owns s.call s.stack.pc s.stack.claim s.held u ≡ before ++ i ∷ after =
      resting_owns inv u e ∙ h in
    let lt : i < capacity = omega (
      arith,
      inv.few,
      (inv.split.elsewhere u i (subst (In i) (sym mine) (In-middle i i before after (inl refl)))).0,
    ) in
    absurd (ground (arith, released_index_lem base capacity i lt small, f))
Step-Inv {u = u} {s = s} small (end_release result e p) stacked inv =
    ended inv u s.held (busy_when e refl) (rw p refl) (Off-same s.held u) (rw p refl)
Step-Inv {u = u} small (move b busy) stacked inv = moved inv stacked u b busy

start-Inv : {capacity : ℕ} → capacity ≤ max32 → Inv capacity (start capacity)
unfolding start Shared.start
start-Inv {capacity} small = record {
  split = record {
    distinct = tt;
    below = tt;
    singly = λ u. tt;
    elsewhere = λ u i h. elim h [ ];
    alone = λ u w i h. elim h [ ];
    covered = λ i lt. absurd (omega (arith, lt));
  };
  few = omega arith;
  same_capacity = init-capacity 0 capacity small;
  places = λ u. at_rest idle refl;
}

moves-stack :
    {base capacity u : ℕ} {s t : System} → Step base capacity u s t → s.stack.moves ≤ t.stack.moves
moves-stack {u = u} {s = s} (move b busy) = moves-Step {s = s.stack} (Shared.move u b)
moves-stack st = ground arith

-- In every reachable state the invariants of the pool and of its stack hold, as long as fewer than
-- 2 ^ 32 exchanges have won.
pub Reach-Inv :
    {base capacity : ℕ} {s : System}
    → 0 < capacity
    → capacity ≤ max32
    → Reach base capacity s
    → s.stack.moves < word32
    → Inv capacity s × Held-System s.stack
Reach-Inv {base = base} pos small here room =
    (start-Inv small, Stacked.Reach-Inv pos small (stack-Reach {base = base} here) room)
Reach-Inv pos small (next u r st) room =
    let (inv, stacked) = Reach-Inv pos small r (omega (arith, room, moves-stack st)) in
    (Step-Inv small st stacked inv, Stacked.Reach-Inv pos small (stack-Reach (next u r st)) room)
