-- ===== src/Ring/Reachable.antt =====
-- The invariant at the start of `RingBuffer`, after every step, and in every reachable state.
use lockless_concurrent_fram.Common.{
  ℕ, ◌+◌, ◌-◌, ◌≤◌, ◌<◌, ◌≡◌, refl, sym, ap, ◌∙◌, ◌∷◌, ◌++◌, subst, Bool, true, false, none, inl,
  inr, List, [], length, update, length-snoc, arith, ◌==◌, Bool-cases, ==_iff,
}
use native.Mathlib.Nat.{le_refl}
use lockless_concurrent_fram.Common.Words.{add64, sub64}
use lockless_concurrent_fram.Ring.{
  Memory, Pc, idle, push_load, push_seq, push_cas, push_write, push_publish, pushed, pop_load,
  pop_seq, pop_cas, pop_read, pop_publish, popped, Event, slot, init, step, after_push_seq,
  after_pop_seq, log_after, System, start, advance, is_ready, Step, call_push, call_pop, move,
  Reach, here, next,
}
use lockless_concurrent_fram.Ring.Invariant.{push_ticket, pop_ticket, Local, Inv}
use lockless_concurrent_fram.Ring.Invariant.Slots.{IsSize, slot-lt, slot-of_lt}
use lockless_concurrent_fram.Ring.Invariant.Quiet.{keep-Inv, write-Inv}
use lockless_concurrent_fram.Ring.Invariant.Reserve.{head_moved-Inv, tail_moved-Inv}
use lockless_concurrent_fram.Ring.Invariant.Publish.{published-Inv, released-Inv}

module _ {T : Type 0} (size : ℕ) (ok : IsSize size) where
  module _ {m : Memory T} {pc : ℕ → Pc T} {log : List T} (inv : Inv size m pc log) where
    -- What the test on `diff` tells a producer.
    after_push_seq-Local :
        (x : T) (h : ℕ)
        → h ≤ m.head
        → Local size m log (after_push_seq x h (sub64 (m.sequences (slot size h)) h))
    after_push_seq-Local x h le = ground (arith, inv.bound h, inv.room, inv.tail_le)

    -- What the test on `diff` tells a consumer.
    after_pop_seq-Local :
        (t : ℕ)
        → t ≤ m.tail
        → Local size m log (after_pop_seq t (sub64 (m.sequences (slot size t)) (add64 t 1)))
    after_pop_seq-Local t le = ground (arith, inv.bound t, inv.room, inv.tail_le)

    reserve_push :
        (i : ℕ) (x : T) (h : ℕ)
        → pc i ≡ push_cas x h
        → m.head ≡ h
        → length (log ++ x ∷ []) + size < 0x8000_0000_0000_0000
        → Inv size (record m { head = add64 h 1 }) (update pc i (push_write x h)) (log ++ x ∷ [])
    reserve_push i x h e same room =
        let w : add64 m.head 1 ≡ m.head + 1 = omega (arith, inv.room) in
        let e' : pc i ≡ push_cas x m.head = e ∙ ap (push_cas x) (sym same) in
        let more : m.head + 1 + size < 0x8000_0000_0000_0000 =
          omega (arith, room, length-snoc log x, inv.counted) in
        rw (← same, w) (head_moved-Inv size ok m log inv more i x e')

    reserve_pop :
        (i t : ℕ)
        → pc i ≡ pop_cas t
        → m.tail ≡ t
        → Inv size (record m { tail = add64 t 1 }) (update pc i (pop_read t)) log
    reserve_pop i t e same =
        let w : add64 m.tail 1 ≡ m.tail + 1 = omega (arith, inv.room, inv.tail_le) in
        rw (← same, w) (tail_moved-Inv size ok m log inv i (e ∙ ap pop_cas (sym same)))

    -- The steps of a thread at `p`, in turn.
    step-Inv :
        (i : ℕ) (spurious : Bool) (p : Pc T)
        → pc i ≡ p
        → length (log_after (step size spurious m p).2 log) + size < 0x8000_0000_0000_0000
        → let (m', p', e) = step size spurious m p in Inv size m' (update pc i p') (log_after e log)
    unfolding step
    step-Inv i b idle e room = keep-Inv size inv i idle (rw e) (rw e) tt
    step-Inv i b (push_load x) e room =
        keep-Inv size inv i (push_seq x m.head) (rw e) (rw e) (le_refl _)
    step-Inv i b (push_seq x h) e room =
        let d : ℕ = sub64 (m.sequences (slot size h)) h in
        keep-Inv size inv i (after_push_seq x h d) (rw e (ground arith)) (rw e (ground arith))
          (after_push_seq-Local x h (subst (Local size m log) e (inv.locals i)))
    step-Inv i true (push_cas x h) e room =
        keep-Inv size inv i (push_seq x m.head) (rw e) (rw e) (le_refl _)
    step-Inv i false (push_cas x h) e room = elim (Bool-cases (m.head == h)) [
      | inl same ↦ rw same (reserve_push i x h e ((==_iff _ _).0 same) (rw same at room))
      | inr other ↦ rw other (keep-Inv size inv i (push_seq x m.head) (rw e) (rw e) (le_refl _))
    ]
    step-Inv i b (push_write x h) e room = write-Inv size m log h x ok inv i e
    step-Inv i b (push_publish x h) e room =
        let lt : h < m.head = (subst (Local size m log) e (inv.locals i)).0 in
        let w : add64 h 1 ≡ h + 1 = omega (arith, inv.room) in
        rw w (published-Inv size ok m log h inv i x e)
    step-Inv i b (pushed r) e room = keep-Inv size inv i (pushed r) (rw e) (rw e) tt
    step-Inv i b pop_load e room = keep-Inv size inv i (pop_seq m.tail) (rw e) (rw e) (le_refl _)
    step-Inv i b (pop_seq t) e room =
        let d : ℕ = sub64 (m.sequences (slot size t)) (add64 t 1) in
        keep-Inv size inv i (after_pop_seq t d) (rw e (ground arith)) (rw e (ground arith))
          (after_pop_seq-Local t (subst (Local size m log) e (inv.locals i)))
    step-Inv i true (pop_cas t) e room =
        keep-Inv size inv i (pop_seq m.tail) (rw e) (rw e) (le_refl _)
    step-Inv i false (pop_cas t) e room = elim (Bool-cases (m.tail == t)) [
      | inl same ↦ rw same (reserve_pop i t e ((==_iff _ _).0 same))
      | inr other ↦ rw other (keep-Inv size inv i (pop_seq m.tail) (rw e) (rw e) (le_refl _))
    ]
    step-Inv i b (pop_read t) e room =
        let own = subst (Local size m log) e (inv.locals i) in
        keep-Inv size inv i (pop_publish t (m.buffer (slot size t))) (rw e) (rw e)
          (own.0, own.1, own.2, (inv.full t own.2).1)
    step-Inv i b (pop_publish t x) e room =
        let lt : t < m.tail = (subst (Local size m log) e (inv.locals i)).0 in
        let w : add64 (add64 t (size - 1)) 1 ≡ t + size =
          omega (arith, inv.room, inv.tail_le, ok.two) in
        rw w (released-Inv size ok m log t inv i x e)
    step-Inv i b (popped r) e room = keep-Inv size inv i (popped r) (rw e) (rw e) tt

  start-Inv :
      (blank : T)
      → size < 0x8000_0000_0000_0000
      → Inv size (start size blank).mem (start size blank).pc (start size blank).log
  unfolding start init
  start-Inv blank small = record {
    tail_le = omega arith;
    head_le = omega arith;
    room = omega arith;
    counted = refl;
    full = λ p e. absurd (no_slot p e);
    free = λ p e. omega (arith, slot-lt size ok.pow p);
    bound = λ p. omega (arith, slot-lt size ok.pow p);
    passed = λ p lt. absurd (omega arith);
    covered_push = λ p a b. absurd (omega arith);
    covered_pop = λ p a b. inl (slot-of_lt size ok.pow p (omega arith));
    locals = λ i. tt;
    push_unique = λ i j p e f. cc;
    pop_unique = λ i j p e f. cc;
  }
    where
      no_slot : (p : ℕ) → slot size p ≡ p + 1 → ⊥
      no_slot p e =
          let lt : p + 1 < size = omega (arith, slot-lt size ok.pow p) in
          omega (arith, slot-of_lt size ok.pow p (omega arith))

  length-log_after : (e : Event T) (log : List T) → length log ≤ length (log_after e log)
  length-log_after Event.silent log = le_refl _
  length-log_after (Event.reserved x) log = omega (arith, length-snoc log x)
  length-log_after (Event.took t x) log = le_refl _

  pub length-Step : {s t : System T} → Step size s t → length s.log ≤ length t.log
  unfolding advance
  length-Step (call_push i x r) = le_refl _
  length-Step (call_pop i r) = le_refl _
  length-Step {s} (move i b) = length-log_after (step size b s.mem (s.pc i)).2 s.log

  ready_tickets : (p : Pc T) → is_ready p ≡ true → (push_ticket p ≡ none) × (pop_ticket p ≡ none)
  ready_tickets idle e = (refl, refl)
  ready_tickets p e = ground arith

  -- Every step keeps the invariant, as long as no counter has come near the end of its range.
  pub Step-Inv :
      {s t : System T}
      → Step size s t
      → length t.log + size < 0x8000_0000_0000_0000
      → Inv size s.mem s.pc s.log
      → Inv size t.mem t.pc t.log
  unfolding advance
  Step-Inv {s} (call_push i x r) room inv =
      let q = ready_tickets (s.pc i) r in keep-Inv size inv i (push_load x) (sym q.0) (sym q.1) tt
  Step-Inv {s} (call_pop i r) room inv =
      let q = ready_tickets (s.pc i) r in keep-Inv size inv i pop_load (sym q.0) (sym q.1) tt
  Step-Inv {s} (move i b) room inv = step-Inv inv i b (s.pc i) refl room

  pub Reach-Inv :
      {blank : T} {s : System T}
      → Reach size blank s
      → length s.log + size < 0x8000_0000_0000_0000
      → Inv size s.mem s.pc s.log
  Reach-Inv {blank} here room = start-Inv blank (omega arith)
  Reach-Inv (next r st) room = Step-Inv st room (Reach-Inv r (omega (arith, length-Step st)))
