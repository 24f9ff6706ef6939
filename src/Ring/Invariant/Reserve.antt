-- ===== src/Ring/Invariant/Reserve.antt =====
-- The two compare-exchanges that win: a ticket is reserved at `head_` or at `tail_`.
use native.Mathlib.Decide.{dec_lt}
use lockless_concurrent_fram.Common.{
  ℕ, ◌+◌, ◌≤◌, ◌<◌, ◌≡◌, ◌≢◌, refl, subst, some, inl, inr, List, [], ◌∷◌, ◌++◌, length, update,
  update_all, length-snoc, get_elem?, get_elem?-append_left, get_elem?-snoc, arith,
}
use lockless_concurrent_fram.Ring.{Memory, Pc, slot, idle, push_cas, push_write, pop_cas, pop_read}
use lockless_concurrent_fram.Ring.Invariant.{push_ticket, pop_ticket, Local, Inv}
use lockless_concurrent_fram.Ring.Invariant.Slots.{IsSize, slot-add_size}

module _ {T : Type 0} (size : ℕ) (m : Memory T) (log : List T) where
  push_ticket-lt : (q : Pc T) (p : ℕ) → Local size m log q → push_ticket q ≡ some p → p < m.head
  push_ticket-lt idle p loc e = ground arith
  push_ticket-lt q p loc e = ground arith

  pop_ticket-lt : (q : Pc T) (p : ℕ) → Local size m log q → pop_ticket q ≡ some p → p < m.tail
  pop_ticket-lt idle p loc e = ground arith
  pop_ticket-lt q p loc e = ground arith

module _ {T : Type 0} (size : ℕ) (ok : IsSize size) (m : Memory T) (log : List T) where
  abbrev pub head_moved : Memory T
  head_moved = record m { head = m.head + 1 }

  abbrev pub tail_moved : Memory T
  tail_moved = record m { tail = m.tail + 1 }

  older :
      (x : T) (p : ℕ)
      → length log ≡ m.head
      → p < m.head
      → get_elem? (log ++ x ∷ []) p ≡ get_elem? log p
  older x p e lt = get_elem?-append_left log (x ∷ []) p (omega arith)

  newest : (x : T) → length log ≡ m.head → get_elem? (log ++ x ∷ []) m.head ≡ some x
  newest x e = subst (λ k. get_elem? (log ++ x ∷ []) k ≡ some x) e (get_elem?-snoc log x)

  -- A consumer at work on ticket `t` keeps `head_` within a turn of it.
  within :
      (t : ℕ)
      → m.sequences (slot size m.head) ≡ m.head
      → m.sequences (slot size t) ≡ t + 1
      → m.head ≢ t + size
  within t e f g = ground (arith, slot-add_size size ok.pow t, ok.two)

  Local-head_moved :
      (x : T) (q : Pc T)
      → length log ≡ m.head
      → m.tail ≤ m.head
      → m.sequences (slot size m.head) ≡ m.head
      → Local size m log q
      → Local size head_moved (log ++ x ∷ []) q
  Local-head_moved x idle e le f loc = tt
  Local-head_moved x (push_write y h) e le f loc = ground (arith, older x h)
  Local-head_moved x (Pc.push_publish y h) e le f loc = ground (arith, older x h)
  Local-head_moved x (Pc.push_cas y h) e le f loc = ground arith
  Local-head_moved x (pop_read t) e le f loc = ground (arith, within t)
  Local-head_moved x (Pc.pop_publish t y) e le f loc = ground (arith, within t, older x t)
  Local-head_moved x q e le f loc = ground arith

  -- head_.compare_exchange_weak(head, head + 1)
  pub head_moved-Inv :
      {pc : ℕ → Pc T}
      → Inv size m pc log
      → m.head + 1 + size < 0x8000_0000_0000_0000
      → (i : ℕ) (x : T) → pc i ≡ push_cas x m.head
      → Inv size head_moved (update pc i (push_write x m.head)) (log ++ x ∷ [])
  head_moved-Inv {pc} inv room i x here = record {
    tail_le = omega (arith, inv.tail_le);
    head_le = omega (arith, inv.free m.head own, inv.head_le);
    room = room;
    counted = omega (arith, length-snoc log x, inv.counted);
    full = λ p e. ground (arith, inv.full p e, older x p inv.counted);
    free = inv.free;
    bound = inv.bound;
    passed = inv.passed;
    covered_push = λ q a b. elim (dec_lt q m.head) [
      | yes lt ↦ elim (inv.covered_push q a lt) [
        | inl h ↦ inl h
        | inr (j, h) ↦ inr (j, ground arith)
      ]
      | no ge ↦ inr (i, ground arith)
    ];
    covered_pop = λ q a b. elim (inv.covered_pop q (omega arith) b) [
      | inl h ↦ inl h
      | inr (j, t, h, k) ↦ inr (j, t, ground arith, k)
    ];
    locals =
        update_all (Local size head_moved (log ++ x ∷ [])) pc i (push_write x m.head)
          (omega arith, inv.tail_le, own, newest x inv.counted)
          (λ j _. Local-head_moved x (pc j) inv.counted inv.tail_le own (inv.locals j));
    push_unique = λ a b t g h. ground (
      arith,
      inv.push_unique a b t,
      push_ticket-lt size m log (pc a) t (inv.locals a),
      push_ticket-lt size m log (pc b) t (inv.locals b),
    );
    pop_unique = λ a b t g h. ground (arith, inv.pop_unique a b t);
  }
    where
      own : m.sequences (slot size m.head) ≡ m.head
      own = (subst (Local size m log) here (inv.locals i)).1 refl

  -- A producer at work on a ticket keeps `tail_` from passing it.
  Local-tail_moved :
      (q : Pc T)
      → m.sequences (slot size m.tail) ≡ m.tail + 1
      → Local size m log q
      → Local size tail_moved log q
  Local-tail_moved idle f loc = tt
  Local-tail_moved q f loc = ground arith

  -- tail_.compare_exchange_weak(tail, tail + 1)
  pub tail_moved-Inv :
      {pc : ℕ → Pc T}
      → Inv size m pc log
      → (i : ℕ) → pc i ≡ pop_cas m.tail
      → Inv size tail_moved (update pc i (pop_read m.tail)) log
  tail_moved-Inv {pc} inv i here = record {
    tail_le = omega (arith, (inv.full m.tail own).0);
    head_le = omega (arith, inv.head_le);
    room = inv.room;
    counted = inv.counted;
    full = inv.full;
    free = λ p e. omega (arith, inv.free p e);
    bound = λ p. omega (arith, inv.bound p);
    passed = λ p lt. elim (dec_lt p m.tail) [
      | yes old ↦ inv.passed p old
      | no new ↦ ground (arith, own)
    ];
    covered_push = λ q a b. elim (inv.covered_push q (omega arith) b) [
      | inl h ↦ inl h
      | inr (j, h) ↦ inr (j, ground arith)
    ];
    covered_pop = λ q a b. elim (dec_lt q (m.tail + size)) [
      | yes lt ↦ elim (inv.covered_pop q a lt) [
        | inl h ↦ inl h
        | inr (j, t, h, k) ↦ inr (j, t, ground arith, k)
      ]
      | no ge ↦ inr (i, m.tail, ground arith, omega arith)
    ];
    locals =
        update_all (Local size tail_moved log) pc i (pop_read m.tail)
          (omega arith, inv.head_le, own) (λ j _. Local-tail_moved (pc j) own (inv.locals j));
    push_unique = λ a b t g h. ground (arith, inv.push_unique a b t);
    pop_unique = λ a b t g h. ground (
      arith,
      inv.pop_unique a b t,
      pop_ticket-lt size m log (pc a) t (inv.locals a),
      pop_ticket-lt size m log (pc b) t (inv.locals b),
    );
  }
    where
      own : m.sequences (slot size m.tail) ≡ m.tail + 1
      own = (subst (Local size m log) here (inv.locals i)).1 refl
