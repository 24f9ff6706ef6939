-- ===== src/Ring/Invariant/Publish.antt =====
-- The two stores to `sequences_[index]`: a producer publishes its slot, a consumer releases its own.
use native.Mathlib.Decide.{ℕ_discrete}
use lockless_concurrent_fram.Common.{
  ℕ, ◌+◌, ◌≤◌, ◌<◌, ◌≡◌, ◌≢◌, subst, true, some, inl, inr, List, update, update_all, arith,
}
use lockless_concurrent_fram.Ring.{
  Memory, Pc, slot, idle, push_publish, pushed, pop_publish, popped,
}
use lockless_concurrent_fram.Ring.Invariant.{push_ticket, pop_ticket, Local, Inv}
use lockless_concurrent_fram.Ring.Invariant.Slots.{IsSize, slot_turn, slot_next, slot-add_size}

module _ {T : Type 0} (size : ℕ) (ok : IsSize size) (m : Memory T) (log : List T) (h : ℕ) where
  abbrev pub published : Memory T
  published = record m { sequences = update m.sequences (slot size h) (h + 1) }

  apart : (p : ℕ) → slot size p ≢ slot size (p + 1)
  apart = slot_next size ok.pow ok.two

  turn : (p q : ℕ) → slot size p ≡ slot size q → p < q → p + size ≤ q
  turn = slot_turn size ok.pow

  Local-published :
      (q : Pc T)
      → h < m.head
      → m.sequences (slot size h) ≡ h
      → push_ticket q ≢ some h
      → Local size m log q
      → Local size published log q
  Local-published idle lt e ne loc = tt
  Local-published (Pc.pop_cas t) lt e ne loc = ground (arith, apart t)
  Local-published (Pc.pop_read t) lt e ne loc = ground (arith, apart t)
  Local-published (pop_publish t x) lt e ne loc = ground (arith, apart t)
  Local-published q lt e ne loc = ground arith

  -- sequences_[index].store(head + 1)
  pub published-Inv :
      {pc : ℕ → Pc T}
      → Inv size m pc log
      → (i : ℕ) (x : T) → pc i ≡ push_publish x h
      → Inv size published (update pc i (pushed true)) log
  published-Inv {pc} inv i x here = record {
    tail_le = inv.tail_le;
    head_le = inv.head_le;
    room = inv.room;
    counted = inv.counted;
    full = λ p e. ground (arith, own, inv.full p, apart p, apart h);
    free = λ p e. ground (arith, own, inv.free p, apart h);
    bound = λ p. ground (arith, own, inv.bound p, inv.head_le);
    passed = λ p lt. ground (arith, own, inv.passed p lt);
    covered_push = λ q a b. elim (ℕ_discrete h q) [
      | yes e ↦ inl (ground arith)
      | no ne ↦ elim (inv.covered_push q a b) [
        | inl e ↦ inl (ground (arith, own, turn h q, turn q h, inv.head_le))
        | inr (j, e) ↦ inr (j, ground arith)
      ]
    ];
    covered_pop = λ q a b. elim (inv.covered_pop q a b) [
      | inl e ↦ inl (ground (arith, own, turn h q))
      | inr (j, t, e, k) ↦ inr (j, t, ground arith, k)
    ];
    locals = update_all (Local size published log) pc i (pushed true) tt (λ j ne.
        Local-published (pc j) own.0 own.2 (λ f. ne (inv.push_unique i j h (rw here) f))
          (inv.locals j));
    push_unique = λ a b t g k. ground (arith, inv.push_unique a b t);
    pop_unique = λ a b t g k. ground (arith, inv.pop_unique a b t);
  }
    where
      own : Local size m log (push_publish x h)
      own = subst (Local size m log) here (inv.locals i)

  abbrev pub released : Memory T
  released = record m { sequences = update m.sequences (slot size h) (h + size) }

  Local-released :
      (q : Pc T)
      → h < m.tail
      → m.sequences (slot size h) ≡ h + 1
      → pop_ticket q ≢ some h
      → Local size m log q
      → Local size released log q
  Local-released idle lt e ne loc = tt
  Local-released q lt e ne loc = ground (arith, apart h)

  -- sequences_[index].store(tail + mask_ + 1)
  pub released-Inv :
      {pc : ℕ → Pc T}
      → Inv size m pc log
      → (i : ℕ) (x : T) → pc i ≡ pop_publish h x
      → Inv size released (update pc i (popped (some x))) log
  released-Inv {pc} inv i x here = record {
    tail_le = inv.tail_le;
    head_le = inv.head_le;
    room = inv.room;
    counted = inv.counted;
    full = λ p e. ground (arith, own, inv.full p, apart p, slot-add_size size ok.pow h, ok.two);
    free = λ p e. ground (arith, own, inv.free p);
    bound = λ p. ground (arith, own, inv.bound p);
    passed = λ p lt. ground (arith, own, inv.passed p lt, ok.two);
    covered_push = λ q a b. elim (inv.covered_push q a b) [
      | inl e ↦ inl (ground (arith, own, turn h q))
      | inr (j, e) ↦ inr (j, ground arith)
    ];
    covered_pop = λ q a b. elim (ℕ_discrete (h + size) q) [
      | yes e ↦ inl (ground (arith, slot-add_size size ok.pow h))
      | no ne ↦ elim (inv.covered_pop q a b) [
        | inl e ↦
            inl (ground (arith, own, turn h q, turn (h + size) q, slot-add_size size ok.pow h))
        | inr (j, t, e, k) ↦ inr (j, t, ground arith, k)
      ]
    ];
    locals = update_all (Local size released log) pc i (popped (some x)) tt (λ j ne.
        Local-released (pc j) own.0 own.2 (λ f. ne (inv.pop_unique i j h (rw here) f))
          (inv.locals j));
    push_unique = λ a b t g k. ground (arith, inv.push_unique a b t);
    pop_unique = λ a b t g k. ground (arith, inv.pop_unique a b t);
  }
    where
      own : Local size m log (pop_publish h x)
      own = subst (Local size m log) here (inv.locals i)
