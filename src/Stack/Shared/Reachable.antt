-- ===== src/Stack/Shared/Reachable.antt =====
-- The invariant of the shared stack at its start, after every step, and in every reachable state.
use native.Mathlib.Nat.{le_refl}
use lockless_concurrent_fram.Common.{
  ℕ, zero, suc, ◌+◌, ◌-◌, ◌≤◌, ◌<◌, ◌≡◌, ◌≢◌, inl, inr, refl, sym, ap, ◌∙◌, subst, Bool, true,
  false, not, ◌&&◌, Option, none, some, List, [], ◌∷◌, ◌==◌, ==_iff, Bool-cases, update,
  update_self, arith,
}
use lockless_concurrent_fram.Common.Words.{word32, max32}
use lockless_concurrent_fram.Stack.{Stack, unpack, null_index, init}
use lockless_concurrent_fram.Stack.Start.{indices, init-Layout, init-capacity, init-tags}
use lockless_concurrent_fram.Stack.Shared.{
  Pc, idle, push_load, push_next, push_cas, push_write, push_head, push_link, push_try, pushed,
  pop_load, pop_next, pop_cas, pop_read, pop_free, pop_link, pop_try, popped, Event, silent, step,
  is_ready, System, contents_after, claim_after, moves_after, advance, start, Step, call_push,
  call_pop, move, Reach, here, next,
}
use lockless_concurrent_fram.Stack.Shared.Nodes.{In, Seen-now}
use lockless_concurrent_fram.Stack.Shared.Invariant.{owned, Local, Inv}
use lockless_concurrent_fram.Stack.Shared.Moves.{
  quiet-Inv, written-Inv, linked-Inv, pushed-Inv, freed-Inv, reserved-Inv,
}
use lockless_concurrent_fram.Stack.Shared.Taken.{took-Inv}

In-indices : (from n i : ℕ) → from ≤ i → i < from + n → In i (indices from n)
In-indices from zero i le lt = absurd (omega arith)
In-indices from (suc n) i le lt = elim (Bool-cases (i == from)) [
  | inl e ↦ inl ((==_iff _ _).0 e)
  | inr e ↦ inr (In-indices (from + 1) n i (ground (arith, e)) (omega (arith, lt)))
]

module _ {T : Type 0} where
  abbrev pub Held : Stack T → (ℕ → Pc T) → List T → (ℕ → Option T) → ℕ → Type 0
  Held m pc contents claim moves =
      (used : List ℕ) × (spare : List ℕ) × Inv m pc contents claim moves used spare

  module _ {m : Stack T} {pc : ℕ → Pc T} {contents : List T} {claim : ℕ → Option T} {moves : ℕ}
      {used spare : List ℕ} (inv : Inv m pc contents claim moves used spare) where
    stay :
        (i : ℕ) (p q : Pc T)
        → pc i ≡ p
        → owned q ≡ owned p
        → Local m (claim i) q
        → Held m (update pc i q) contents claim moves
    stay i p q e same new = (used, spare, quiet-Inv i q inv (same ∙ ap owned (sym e)) new)

    -- A compare-exchange of a weak kind: it wins only if the words agree.
    step-Inv :
        (i : ℕ) (b : Bool) (p : Pc T)
        → pc i ≡ p
        → moves_after (step b m p).2 moves < word32
        → let (m', p', e) = step b m p in
          Held m'
            (update pc i p')
            (contents_after e contents)
            (claim_after i e contents claim)
            (moves_after e moves)
    unfolding step
    step-Inv i b idle e room = stay i idle idle e refl tt
    step-Inv i b (push_load x) e room =
        stay i (push_load x) (push_next x m.free_head) e refl (Seen-now m.free_head)
    step-Inv i b (push_next x old) e room =
        let own : Local m (claim i) (push_next x old) =
          subst (Local m (claim i)) e (inv.locals i) in
        elim (Bool-cases ((unpack old).index == null_index)) [
          | inl null ↦ rw null (stay i (push_next x old) (pushed false) e refl tt)
          | inr some_left ↦ rw some_left (
              stay i (push_next x old) (push_cas x old (m.node_next (unpack old).index)) e refl
                (own, ground (arith, some_left), λ _. refl))
        ]
    step-Inv i b (push_cas x old n) e room =
        let own : Local m (claim i) (push_cas x old n) =
          subst (Local m (claim i)) e (inv.locals i) in
        elim (Bool-cases (not b && m.free_head == old)) [
          | inr lost ↦
              rw lost
                (stay i (push_cas x old n) (push_next x m.free_head) e refl (Seen-now m.free_head))
          | inl won ↦
              let same : old ≡ m.free_head = ground (arith, won) in
              let (spare', inv') =
                reserved-Inv spare inv i n (push_write x (unpack m.free_head).index) (ap owned e)
                  refl (subst (λ w. (unpack w).index ≢ max32) same own.1)
                  (subst (λ w. m.node_next (unpack w).index ≡ n) same (own.2 same)) (rw won at room)
                  tt in
              rw (won, same) (used, spare', inv')
        ]
    step-Inv i b (push_write x n) e room = (
      used,
      spare,
      written-Inv inv i n (ap owned e) x (push_head x n) refl (update_self m.node_data n x),
    )
    step-Inv i b (push_head x n) e room =
        let own : Local m (claim i) (push_head x n) = subst (Local m (claim i)) e (inv.locals i) in
        stay i (push_head x n) (push_link x n m.head) e refl (own, Seen-now m.head)
    step-Inv i b (push_link x n old) e room =
        let own : Local m (claim i) (push_link x n old) =
          subst (Local m (claim i)) e (inv.locals i) in
        (
          used,
          spare,
          linked-Inv inv i n (ap owned e) (unpack old).index (push_try x n old) refl
              (own.0, own.1, update_self m.node_next n (unpack old).index),
        )
    step-Inv i b (push_try x n old) e room =
        let own : Local m (claim i) (push_try x n old) =
          subst (Local m (claim i)) e (inv.locals i) in
        elim (Bool-cases (not b && m.head == old)) [
          | inr lost ↦
              rw lost
                (stay i (push_try x n old) (push_link x n m.head) e refl (own.0, Seen-now m.head))
          | inl won ↦
              let same : old ≡ m.head = ground (arith, won) in
              rw (won, same)
                (
                  n ∷ used,
                  spare,
                  pushed-Inv inv i n (ap owned e) x (pushed true) refl own.0
                      (own.2 ∙ ap (λ w. (unpack w).index) same) (rw won at room) tt,
                )
        ]
    step-Inv i b (pushed r) e room = stay i (pushed r) (pushed r) e refl tt
    step-Inv i b pop_load e room = stay i pop_load (pop_next m.head) e refl (Seen-now m.head)
    step-Inv i b (pop_next old) e room =
        let own : Local m (claim i) (pop_next old) = subst (Local m (claim i)) e (inv.locals i) in
        elim (Bool-cases ((unpack old).index == null_index)) [
          | inl null ↦ rw null (stay i (pop_next old) (popped none) e refl tt)
          | inr some_left ↦ rw some_left (
              stay i (pop_next old) (pop_cas old (m.node_next (unpack old).index)) e refl
                (own, ground (arith, some_left), λ _. refl))
        ]
    step-Inv i b (pop_cas old n) e room =
        let own : Local m (claim i) (pop_cas old n) = subst (Local m (claim i)) e (inv.locals i) in
        elim (Bool-cases (not b && m.head == old)) [
          | inr lost ↦ rw lost (stay i (pop_cas old n) (pop_next m.head) e refl (Seen-now m.head))
          | inl won ↦
              let same : old ≡ m.head = ground (arith, won) in
              let (used', inv') =
                took-Inv used inv i n (ap owned e)
                  (subst (λ w. (unpack w).index ≢ max32) same own.1)
                  (subst (λ w. m.node_next (unpack w).index ≡ n) same (own.2 same))
                  (rw won at room) in
              rw (won, same) (used', spare, inv')
        ]
    step-Inv i b (pop_read n) e room =
        stay i (pop_read n) (pop_free n (m.node_data n)) e refl
          (subst (Local m (claim i)) e (inv.locals i))
    step-Inv i b (pop_free n x) e room =
        let own : Local m (claim i) (pop_free n x) = subst (Local m (claim i)) e (inv.locals i) in
        stay i (pop_free n x) (pop_link n x m.free_head) e refl (own, Seen-now m.free_head)
    step-Inv i b (pop_link n x old) e room =
        let own : Local m (claim i) (pop_link n x old) =
          subst (Local m (claim i)) e (inv.locals i) in
        (
          used,
          spare,
          linked-Inv inv i n (ap owned e) (unpack old).index (pop_try n x old) refl
              (own.0, own.1, update_self m.node_next n (unpack old).index),
        )
    step-Inv i b (pop_try n x old) e room =
        let own : Local m (claim i) (pop_try n x old) =
          subst (Local m (claim i)) e (inv.locals i) in
        elim (Bool-cases (not b && m.free_head == old)) [
          | inr lost ↦ rw lost (
              stay i (pop_try n x old) (pop_link n x m.free_head) e refl
                (own.0, Seen-now m.free_head))
          | inl won ↦
              let same : old ≡ m.free_head = ground (arith, won) in
              rw (won, same)
                (
                  used,
                  n ∷ spare,
                  freed-Inv inv i n (ap owned e) (popped (some x)) refl
                      (own.2 ∙ ap (λ w. (unpack w).index) same) (rw won at room) own.0,
                )
        ]
    step-Inv i b (popped none) e room = stay i (popped none) (popped none) e refl tt
    step-Inv i b (popped (some x)) e room =
        stay i (popped (some x)) (popped (some x)) e refl
          (subst (Local m (claim i)) e (inv.locals i))

  abbrev pub Held-System : System T → Type 0
  Held-System s = Held s.mem s.pc s.contents s.claim s.moves

  start-Inv :
      (blank : T) (capacity : ℕ)
      → 0 < capacity
      → capacity ≤ max32
      → Held-System (start blank capacity)
  unfolding start
  start-Inv blank capacity pos small =
      let l = init-Layout blank capacity small (capacity - 1) (omega (arith, pos)) in
      let cap : (init blank capacity).capacity ≡ capacity = init-capacity blank capacity small in
      (
        [],
        indices 0 (suc (capacity - 1)),
        record {
          used_chain = l.used_chain;
          spare_chain = l.spare_chain;
          shares = record {
            distinct = tt;
            distinct' = l.spare_distinct;
            apart = tt;
            below = tt;
            below' = l.spare_below;
            elsewhere = λ i n e. cc;
            alone = λ i j n e f. cc;
            covered = λ n lt.
                inr (
                  inl (In-indices 0 (suc (capacity - 1)) n (omega arith) (omega (arith, lt, cap))));
          };
          small = omega (arith, cap, small);
          items = refl;
          tags = init-tags blank capacity small;
          room = omega arith;
          locals = λ i. tt;
        },
      )

  pub ready_free : (p : Pc T) → is_ready p ≡ true → owned p ≡ none
  ready_free idle e = refl
  ready_free p e = ground arith

  -- Every step keeps the invariant, as long as fewer than 2 ^ 32 exchanges have won.
  pub Step-Inv : {s t : System T} → Step s t → t.moves < word32 → Held-System s → Held-System t
  unfolding advance
  Step-Inv {s} (call_push i x r) room (used, spare, inv) =
      stay inv i (s.pc i) (push_load x) refl (sym (ready_free (s.pc i) r)) tt
  Step-Inv {s} (call_pop i r) room (used, spare, inv) =
      stay inv i (s.pc i) pop_load refl (sym (ready_free (s.pc i) r)) tt
  Step-Inv {s} (move i b) room (used, spare, inv) = step-Inv inv i b (s.pc i) refl room

  moves_after-le : (e : Event T) (n : ℕ) → n ≤ moves_after e n
  moves_after-le silent n = le_refl _
  moves_after-le e n = ground arith

  pub moves-Step : {s t : System T} → Step s t → s.moves ≤ t.moves
  unfolding advance
  moves-Step (call_push i x r) = le_refl _
  moves-Step (call_pop i r) = le_refl _
  moves-Step {s} (move i b) = moves_after-le (step b s.mem (s.pc i)).2 s.moves

  pub Reach-Inv :
      {blank : T} {capacity : ℕ} {s : System T}
      → 0 < capacity
      → capacity ≤ max32
      → Reach blank capacity s
      → s.moves < word32
      → Held-System s
  Reach-Inv {blank} {capacity} pos small here room = start-Inv blank capacity pos small
  Reach-Inv pos small (next r st) room =
      Step-Inv st room (Reach-Inv pos small r (omega (arith, moves-Step st)))
