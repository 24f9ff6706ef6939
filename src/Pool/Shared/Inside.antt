-- ===== src/Pool/Shared/Inside.antt =====
-- A step of a thread inside a call of the pool's stack, and the invariant of the pool.
use lockless_concurrent_fram.Common.{
  ℕ, ◌≡◌, ◌≢◌, inl, inr, refl, sym, ap, ◌∙◌, subst, Bool, Option, none, some, List, [], ◌∷◌, ◌++◌,
  update, update_self, update_ne, arith,
}
use lockless_concurrent_fram.Common.Words.{max32}
use lockless_concurrent_fram.Stack.{Stack, unpack}
use lockless_concurrent_fram.Stack.Lifo.{pop}
use lockless_concurrent_fram.Stack.Shared
use lockless_concurrent_fram.Stack.Shared.{
  Pc, idle, push_load, push_next, pushed, pop_load, popped, is_ready, step, contents_after,
  claim_after,
}
use lockless_concurrent_fram.Stack.Shared.Nodes.{In}
use lockless_concurrent_fram.Stack.Shared.Invariant.{owned}
use lockless_concurrent_fram.Stack.Shared.Reachable.{Held-System, ready_free}
use lockless_concurrent_fram.Pool.Shared.{resting, System}
use lockless_concurrent_fram.Pool.Shared.Split.{same_owns}
use lockless_concurrent_fram.Pool.Shared.Passage.{passing, owned-passing, step-Effect}
use lockless_concurrent_fram.Pool.Shared.Spare.{spare_node}
use lockless_concurrent_fram.Pool.Shared.Invariant.{
  Inv, Off, owns, carried_busy, Call-cases, owns-update, Off-update, Off-same, Effect-Split,
  stocked_step, granted_step,
}
use lockless_concurrent_fram.Pool.Shared.Turns.{places-Off, busy_owns}

claim_after-Off :
    (u : ℕ) (e : Shared.Event ℕ) (q : List ℕ) (claim : ℕ → Option ℕ)
    → Off u (claim_after u e q claim) claim
claim_after-Off u Shared.took q claim w ne = update_ne claim u w (pop q).1 ne
claim_after-Off u e q claim w ne = ground arith

capacity-step : (b : Bool) (m : Stack ℕ) (p : Pc ℕ) → (step b m p).0.capacity ≡ m.capacity
unfolding step
capacity-step b m p = ground arith

module _ {capacity : ℕ} {s : System} (inv : Inv capacity s) (stacked : Held-System s.stack) where
  -- A thread that has a node carries an object.
  carries :
      (w k : ℕ)
      → owned (s.stack.pc w) ≡ some k
      → (i : ℕ) × In i (owns s.call s.stack.pc s.stack.claim s.held w)
  carries w k o = elim (Call-cases (s.call w)) [
    | inl e ↦ absurd (ground (arith, o, ready_free (s.stack.pc w) ((inv.places w).rested e)))
    | inr busy ↦
        let (used, spare, held) = stacked in
        let (i, e) =
          owned-passing s.stack.mem (s.stack.pc w) (s.stack.claim w) k (held.locals w) o in
        (i, subst (In i) (sym (busy_owns inv w busy ∙ ap (λ xs. xs ++ s.held w) e)) (inl refl))
  ]

  -- The stack makes a step for thread `u`.
  pub moved :
      (u : ℕ) (b : Bool)
      → s.call u ≢ resting
      → Inv capacity (record s { stack = Shared.advance u b s.stack })
  unfolding Shared.advance
  moved u b busy =
      let (used, spare, held) = stacked in
      let p = s.stack.pc u in
      let (m', p', e) = step b s.stack.mem p in
      let pc' = update s.stack.pc u p' in
      let claim' = claim_after u e s.stack.contents s.stack.claim in
      let place = inv.places u in
      let free : (y : ℕ)
          → owned p ≡ none
          → passing p (s.stack.claim u) ≡ y ∷ []
          → (unpack s.stack.mem.free_head).index ≢ max32 =
        λ y o f.
          spare_node held inv.split (omega (arith, inv.few, inv.same_capacity)) carries u y o
            (subst (In y) (sym (busy_owns inv u busy ∙ ap (λ xs. xs ++ s.held u) f)) (inl refl)) in
      record {
        split =
            same_owns
              (Effect-Split u (s.held u)
                (step-Effect held u b p refl (λ x old f. place.stocked x old busy f))
                (busy_owns inv u busy) inv.split)
              _
              (owns-update u s.call s.call s.stack.pc pc' s.stack.claim claim' s.held s.held
                (passing p' (claim' u) ++ s.held u) (Off-same s.call u) (Off-update s.stack.pc u p')
                (claim_after-Off u e s.stack.contents s.stack.claim) (Off-same s.held u)
                (rw (update_self s.stack.pc u p')
                  (ap (λ xs. xs ++ s.held u) (carried_busy (s.call u) p' (claim' u) busy))));
        few = inv.few;
        same_capacity = capacity-step b s.stack.mem p ∙ inv.same_capacity;
        places =
            places-Off u s.call s.call s.stack.pc pc' (Off-same s.call u)
              (Off-update s.stack.pc u p')
              (rw (update_self s.stack.pc u p') (record {
                rested = λ f. absurd (busy f);
                stocked = λ x old ne f. stocked_step s.stack.mem b p (s.stack.claim u) x old free f;
                granted = λ ne f.
                    granted_step s.stack.mem b p (λ x old. place.stocked x old busy)
                      (place.granted busy) f;
              }))
              inv.places;
      }
