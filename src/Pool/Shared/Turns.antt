-- ===== src/Pool/Shared/Turns.antt =====
-- The begin and the end of a call of the pool, and the invariant of the pool.
use native.Mathlib.Decide.{ℕ_discrete}
use lockless_concurrent_fram.Common.{
  ℕ, ◌≤◌, ◌≡◌, ◌≢◌, refl, sym, ap, ◌∙◌, subst, true, List, ◌∷◌, ◌++◌, update, update_self,
}
use lockless_concurrent_fram.Stack.Shared.{Pc, push_load, pop_load, is_ready}
use lockless_concurrent_fram.Pool.Shared.{Call, resting, acquiring, System, calls_push}
use lockless_concurrent_fram.Pool.Shared.Split.{Split, same_owns}
use lockless_concurrent_fram.Pool.Shared.Passage.{passing}
use lockless_concurrent_fram.Pool.Shared.Invariant.{
  Inv, Fits, Off, owns, carried, carried_busy, owns-update, Off-update, Off-same, update-same,
}

pub places-Off :
    (u : ℕ) (call call' : ℕ → Call) (pc pc' : ℕ → Pc ℕ)
    → Off u call' call
    → Off u pc' pc
    → Fits (call' u) (pc' u)
    → ((w : ℕ) → Fits (call w) (pc w))
    → (w : ℕ) → Fits (call' w) (pc' w)
places-Off u call call' pc pc' c p own all w = elim (ℕ_discrete u w) [
  | yes e ↦ subst (λ w. Fits (call' w) (pc' w)) e own
  | no ne ↦ rw (c w ne, p w ne) (all w)
]

-- A thread at a place that says nothing of the stack.
pub at_rest : (p : Pc ℕ) → is_ready p ≡ true → Fits resting p
at_rest p e = record {
  rested = λ _. e;
  stocked = λ x old ne. absurd (ne refl);
  granted = λ ne. absurd (ne refl);
}

at_push : (c : Call) (i : ℕ) → c ≢ resting → Fits c (push_load i)
at_push c i busy = record {
  rested = λ e. absurd (busy e);
  stocked = λ x old ne e. absurd (cc);
  granted = λ ne e. cc;
}

pub at_pop : Fits acquiring pop_load
at_pop = record {
  rested = λ e. absurd (cc);
  stocked = λ x old ne e. absurd (cc);
  granted = λ ne e. cc;
}

module _ {capacity : ℕ} {s : System} (inv : Inv capacity s) (u : ℕ) where
  -- A call of thread `u` begins or ends, with the stack's memory as it was.
  turned :
      (call' : ℕ → Call) (pc' : ℕ → Pc ℕ) (held' : ℕ → List ℕ) (filled' : ℕ)
      → Split (owns call' pc' s.stack.claim held') filled' s.stack.contents
      → filled' ≤ capacity
      → Off u call' s.call
      → Off u pc' s.stack.pc
      → Fits (call' u) (pc' u)
      → Inv capacity (record s {
        stack = record s.stack { pc = pc' };
        call = call';
        held = held';
        filled = filled';
      })
  turned call' pc' held' filled' split few c p own = record {
    split = split;
    few = few;
    same_capacity = inv.same_capacity;
    places = places-Off u s.call call' s.stack.pc pc' c p own inv.places;
  }

  -- What thread `u` has, written out.
  pub resting_owns : s.call u ≡ resting → owns s.call s.stack.pc s.stack.claim s.held u ≡ s.held u
  resting_owns e = ap (λ c. carried c (s.stack.pc u) (s.stack.claim u) ++ s.held u) e

  pub busy_owns :
      s.call u ≢ resting
      → owns s.call s.stack.pc s.stack.claim s.held u
        ≡ passing (s.stack.pc u) (s.stack.claim u) ++ s.held u
  busy_owns ne =
      ap (λ xs. xs ++ s.held u) (carried_busy (s.call u) (s.stack.pc u) (s.stack.claim u) ne)

  -- A turn in which nothing changes hands.
  pub same_turn :
      (call' : ℕ → Call) (pc' : ℕ → Pc ℕ) (held' : ℕ → List ℕ)
      → Off u call' s.call
      → Off u pc' s.stack.pc
      → Off u held' s.held
      → owns call' pc' s.stack.claim held' u ≡ owns s.call s.stack.pc s.stack.claim s.held u
      → Fits (call' u) (pc' u)
      → Inv capacity (record s { stack = record s.stack { pc = pc' }; call = call'; held = held' })
  same_turn call' pc' held' c p h e own =
      let mine = owns s.call s.stack.pc s.stack.claim s.held in
      turned call' pc' held' s.filled
        (same_owns inv.split _ (λ w.
          owns-update u s.call call' s.stack.pc pc' s.stack.claim s.stack.claim s.held held'
            (mine u) c p (Off-same s.stack.claim u) h e w
          ∙ update-same mine u (mine u) refl w))
        inv.few c p own

  -- A call has ended, at a place of the stack that carries what the thread now holds.
  pub ended :
      (held' : ℕ → List ℕ)
      → s.call u ≢ resting
      → is_ready (s.stack.pc u) ≡ true
      → Off u held' s.held
      → held' u ≡ passing (s.stack.pc u) (s.stack.claim u) ++ s.held u
      → Inv capacity (record s { call = update s.call u resting; held = held' })
  ended held' busy ready h e =
      same_turn (update s.call u resting) s.stack.pc held' (Off-update s.call u resting)
        (Off-same s.stack.pc u) h
        (ap (λ c. carried c (s.stack.pc u) (s.stack.claim u) ++ held' u)
            (update_self s.call u resting)
          ∙ e
          ∙ sym (busy_owns busy))
        (rw (update_self s.call u resting) (at_rest (s.stack.pc u) ready))

  -- A push begins, of the object `i` in front of `rest`.
  pub push_begun :
      (c : Call) (i : ℕ) (held' : ℕ → List ℕ) (filled' : ℕ)
      → c ≢ resting
      → Off u held' s.held
      → Split
          (update (owns s.call s.stack.pc s.stack.claim s.held) u (i ∷ held' u))
          filled'
          s.stack.contents
      → filled' ≤ capacity
      → Inv capacity (record s {
        stack = calls_push u i s.stack;
        call = update s.call u c;
        held = held';
        filled = filled';
      })
  push_begun c i held' filled' busy h split few =
      let call' = update s.call u c in
      let pc' = update s.stack.pc u (push_load i) in
      turned call' pc' held' filled'
        (same_owns split _ (λ w.
          owns-update u s.call call' s.stack.pc pc' s.stack.claim s.stack.claim s.held held'
            (i ∷ held' u) (Off-update s.call u c) (Off-update s.stack.pc u (push_load i))
            (Off-same s.stack.claim u) h
            (rw (update_self s.call u c, update_self s.stack.pc u (push_load i))
              (ap (λ xs. xs ++ held' u) (carried_busy c (push_load i) (s.stack.claim u) busy)))
            w))
        few (Off-update s.call u c) (Off-update s.stack.pc u (push_load i))
        (rw (update_self s.call u c, update_self s.stack.pc u (push_load i)) (at_push c i busy))
