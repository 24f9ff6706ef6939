-- ===== src/Ring/Invariant/Quiet.antt =====
-- Steps that leave memory as it is, or write the slot that the thread owns.
use lockless_concurrent_fram.Common.{
  ℕ, ◌≡◌, ◌≢◌, subst, some, inl, inr, List, update, update_all, arith,
}
use native.Mathlib.Decide.{ℕ_discrete}
use lockless_concurrent_fram.Ring.{Memory, Pc, slot, idle, push_write, push_publish}
use lockless_concurrent_fram.Ring.Invariant.{push_ticket, pop_ticket, Local, Inv}
use lockless_concurrent_fram.Ring.Invariant.Slots.{IsSize, slot_next}

module _ {T : Type 0} (size : ℕ) where
  -- The thread goes on with the same tickets.
  pub keep-Inv :
      {m : Memory T} {pc : ℕ → Pc T} {log : List T}
      → Inv size m pc log
      → (i : ℕ) (p : Pc T) → push_ticket p ≡ push_ticket (pc i)
      → pop_ticket p ≡ pop_ticket (pc i)
      → Local size m log p
      → Inv size m (update pc i p) log
  keep-Inv {m} {pc} {log} inv i p e f loc = record {
    tail_le = inv.tail_le;
    head_le = inv.head_le;
    room = inv.room;
    counted = inv.counted;
    full = inv.full;
    free = inv.free;
    bound = inv.bound;
    passed = inv.passed;
    covered_push = λ q a b. elim (inv.covered_push q a b) [
      | inl h ↦ inl h
      | inr (j, h) ↦ inr (j, ground arith)
    ];
    covered_pop = λ q a b. elim (inv.covered_pop q a b) [
      | inl h ↦ inl h
      | inr (j, t, h, k) ↦ inr (j, t, ground arith, k)
    ];
    locals = update_all (Local size m log) pc i p loc (λ j _. inv.locals j);
    push_unique = λ a b t g h. ground (arith, inv.push_unique a b t);
    pop_unique = λ a b t g h. ground (arith, inv.pop_unique a b t);
  }

module _ {T : Type 0} (size : ℕ) (m : Memory T) (log : List T) (h : ℕ) (x : T) where
  abbrev written : Memory T
  written = record m { buffer = update m.buffer (slot size h) x }

  -- The items of other threads' tickets stand elsewhere.
  Local-written :
      (q : Pc T)
      → m.sequences (slot size h) ≡ h
      → push_ticket q ≢ some h
      → Local size m log q
      → Local size written log q
  Local-written idle e ne loc = tt
  Local-written q e ne loc = ground arith

  -- buffer_[index] = item.
  pub write-Inv :
      IsSize size
      → {pc : ℕ → Pc T} → Inv size m pc log
      → (i : ℕ) → pc i ≡ push_write x h
      → Inv size written (update pc i (push_publish x h)) log
  write-Inv ok {pc} inv i here =
      keep-Inv size
        (record {
          tail_le = inv.tail_le;
          head_le = inv.head_le;
          room = inv.room;
          counted = inv.counted;
          full = λ p e. ground (arith, inv.full p, own, slot_next size ok.pow ok.two p);
          free = inv.free;
          bound = inv.bound;
          passed = inv.passed;
          covered_push = inv.covered_push;
          covered_pop = inv.covered_pop;
          locals = λ j. elim (ℕ_discrete i j) [
            | yes e ↦ rw (← e, here) own
            | no ne ↦
                Local-written (pc j) own.2 (λ f. ne (inv.push_unique i j h (rw here) f))
                  (inv.locals j)
          ];
          push_unique = inv.push_unique;
          pop_unique = inv.pop_unique;
        })
        i (push_publish x h) (rw here) (rw here) (ground (arith, own))
    where
      own : Local size m log (push_write x h)
      own = subst (Local size m log) here (inv.locals i)
