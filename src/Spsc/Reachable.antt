-- ===== src/Spsc/Reachable.antt =====
-- The invariant of `SPSCQueue` after every step of either thread.
use lockless_concurrent_fram.Common.{
  ℕ, suc, ◌+◌, ◌<◌, ◌≡◌, refl, sym, ap, ◌∙◌, false, none, inl, inr, List, [], ◌∷◌, ◌++◌, length,
  length-snoc, get_elem?-append_left, get_elem?-snoc, take-append_left, take-suc, update, arith,
  ◌==◌, Bool-cases,
}
use native.Mathlib.Decide.{dec_lt}
use native.Mathlib.Nat.{add-mod_right, zero-mod}
use lockless_concurrent_fram.Spsc.{
  Memory, PushPc, PopPc, push_load, push_test, push_write, push_publish, pushed, pop_load, pop_test,
  pop_read, pop_publish, popped, next_index, init, push_step, pop_step, System, log_after,
  out_after, start, produce, consume, Step, call_push, call_pop, move_producer, move_consumer,
  Reach, here, next,
}
use lockless_concurrent_fram.Spsc.Invariant.{
  IsSize, next_index-mod, mod_apart, PushLocal, PopLocal, Inv,
}

module _ {T : Type 0} (size : ℕ) (ok : IsSize size) where
  module _ {m : Memory T} {p : PushPc T} {c : PopPc T} {log out : List T}
      (inv : Inv size m p c log out) where
    -- A step of the producer that changes no memory.
    push_keeps : (p' : PushPc T) → PushLocal size m log out p' → Inv size m p' c log out
    push_keeps p' loc = record {
      head_at = inv.head_at;
      tail_at = inv.tail_at;
      out_le = inv.out_le;
      log_lt = inv.log_lt;
      fifo = inv.fifo;
      stored = inv.stored;
      push_local = loc;
      pop_local = inv.pop_local;
    }

    pop_keeps : (c' : PopPc T) → PopLocal size m log out c' → Inv size m p c' log out
    pop_keeps c' loc = record {
      head_at = inv.head_at;
      tail_at = inv.tail_at;
      out_le = inv.out_le;
      log_lt = inv.log_lt;
      fifo = inv.fifo;
      stored = inv.stored;
      push_local = inv.push_local;
      pop_local = loc;
    }

    -- Room for one more, as the producer tests it.
    not_full : (next_index size m.head == m.tail) ≡ false → length log + 1 < length out + size
    not_full e = elim (dec_lt (length log + 1) (length out + size)) [
      | yes lt ↦ lt
      | no ge ↦
          let turn : length log + 1 ≡ length out + size = omega (arith, inv.log_lt) in
          let same : next_index size m.head ≡ m.tail =
            rw (inv.head_at, inv.tail_at, next_index-mod size ok, turn) (add-mod_right _ _) in
          absurd (ground (arith, same))
    ]

    not_empty : (m.tail == m.head) ≡ false → length out < length log
    not_empty e = elim (dec_lt (length out) (length log)) [
      | yes lt ↦ lt
      | no ge ↦
          let level : length out ≡ length log = omega (arith, inv.out_le) in
          let same : m.tail ≡ m.head = rw (inv.head_at, inv.tail_at, level) in
          absurd (ground (arith, same))
    ]

  -- The consumer's locals while the producer works.
  PopLocal-write :
      (m : Memory T) (log out : List T) (c : PopPc T) (buffer : ℕ → T) (head : ℕ)
      → PopLocal size m log out c
      → PopLocal size (record m { buffer = buffer; head = head }) log out c
  PopLocal-write m log out PopPc.idle b h loc = tt
  PopLocal-write m log out c b h loc = ground arith

  PopLocal-log :
      (m : Memory T) (log out : List T) (x : T) (c : PopPc T)
      → PopLocal size m log out c
      → PopLocal size m (log ++ x ∷ []) out c
  PopLocal-log m log out x PopPc.idle loc = tt
  PopLocal-log m log out x c loc =
      ground (arith, length-snoc log x, get_elem?-append_left log (x ∷ []) (length out))

  push_step-Inv :
      {m : Memory T} {c : PopPc T} {log out : List T} (p : PushPc T)
      → Inv size m p c log out
      → let (m', p') = push_step size m p in Inv size m' p' c (log_after p log) out
  unfolding push_step
  push_step-Inv PushPc.idle inv = inv
  push_step-Inv (push_load x) inv = push_keeps inv _ refl
  push_step-Inv {m} (push_test x h) inv = elim (Bool-cases (next_index size h == m.tail)) [
    | inl full ↦ rw full (push_keeps inv (pushed false) tt)
    | inr room ↦
        rw room (
          push_keeps inv (push_write x h)
            (inv.push_local, not_full inv (rw inv.push_local at room)))
  ]
  push_step-Inv {m} {c} {log} {out} (push_write x h) inv = record {
    head_at = inv.head_at;
    tail_at = inv.tail_at;
    out_le = inv.out_le;
    log_lt = inv.log_lt;
    fifo = inv.fifo;
    stored = λ k a b.
        ground (arith, inv.stored k a b, inv.head_at, inv.log_lt, mod_apart size ok k (length log));
    push_local = ground arith;
    pop_local = PopLocal-write m log out c (update m.buffer h x) m.head inv.pop_local;
  }
  push_step-Inv {m} {c} {log} {out} (push_publish x h) inv = record {
    head_at = rw (inv.push_local.0, inv.head_at, length-snoc) (next_index-mod size ok (length log));
    tail_at = inv.tail_at;
    out_le = omega (arith, inv.out_le, length-snoc log x);
    log_lt = omega (arith, inv.push_local.1, length-snoc log x);
    fifo = inv.fifo ∙ sym (take-append_left (length out) log (x ∷ []) inv.out_le);
    stored = λ k a b. elim (dec_lt k (length log)) [
      | yes old ↦ get_elem?-append_left log (x ∷ []) k old ∙ inv.stored k a old
      | no new ↦
          let e : k ≡ length log = omega (arith, length-snoc log x) in
          ground (arith, get_elem?-snoc log x, inv.push_local, inv.head_at)
    ];
    push_local = tt;
    pop_local = PopLocal-log m log out x c inv.pop_local;
  }
  push_step-Inv (pushed b) inv = inv

  -- The producer's locals while the consumer releases a slot.
  PushLocal-out :
      (m : Memory T) (log out : List T) (x : T) (tail : ℕ) (p : PushPc T)
      → PushLocal size m log out p
      → PushLocal size (record m { tail = tail }) log (out ++ x ∷ []) p
  PushLocal-out m log out x t PushPc.idle loc = tt
  PushLocal-out m log out x t p loc = ground (arith, length-snoc out x)

  pop_step-Inv :
      {m : Memory T} {p : PushPc T} {log out : List T} (c : PopPc T)
      → Inv size m p c log out
      → let (m', c') = pop_step size m c in Inv size m' p c' log (out_after c out)
  unfolding pop_step
  pop_step-Inv PopPc.idle inv = inv
  pop_step-Inv pop_load inv = pop_keeps inv _ refl
  pop_step-Inv {m} (pop_test t) inv = elim (Bool-cases (t == m.head)) [
    | inl empty ↦ rw empty (pop_keeps inv (popped none) tt)
    | inr some_ ↦
        rw some_
          (pop_keeps inv (pop_read t) (inv.pop_local, not_empty inv (rw inv.pop_local at some_)))
  ]
  pop_step-Inv {m} {p} {log} {out} (pop_read t) inv =
      pop_keeps inv (pop_publish t (m.buffer t))
        (ground (arith, inv.pop_local, inv.tail_at, inv.stored (length out)))
  pop_step-Inv {m} {p} {log} {out} (pop_publish t x) inv =
      let (at_, lt, e) = inv.pop_local in
      record {
        head_at = inv.head_at;
        tail_at = rw (at_, inv.tail_at, length-snoc) (next_index-mod size ok (length out));
        out_le = omega (arith, lt, length-snoc out x);
        log_lt = omega (arith, inv.log_lt, length-snoc out x);
        fifo =
            let one : length (out ++ x ∷ []) ≡ suc (length out) =
              omega (arith, length-snoc out x) in
            rw one (ap (λ l. l ++ x ∷ []) inv.fifo ∙ sym (take-suc (length out) log e));
        stored = λ k a b. inv.stored k (omega (arith, length-snoc out x)) b;
        push_local = PushLocal-out m log out x (next_index size t) p inv.push_local;
        pop_local = tt;
      }
  pop_step-Inv (popped r) inv = inv

  pub Step-Inv :
      {s t : System T}
      → Step size s t
      → Inv size s.mem s.producer s.consumer s.log s.out
      → Inv size t.mem t.producer t.consumer t.log t.out
  unfolding produce consume
  Step-Inv (call_push x e) inv = push_keeps inv (push_load x) tt
  Step-Inv (call_pop e) inv = pop_keeps inv pop_load tt
  Step-Inv {s} move_producer inv = push_step-Inv s.producer inv
  Step-Inv {s} move_consumer inv = pop_step-Inv s.consumer inv

  pub Reach-Inv :
      {blank : T} {s : System T}
      → Reach size blank s
      → Inv size s.mem s.producer s.consumer s.log s.out
  unfolding start init
  Reach-Inv here = record {
    head_at = sym (zero-mod size);
    tail_at = sym (zero-mod size);
    out_le = omega arith;
    log_lt = omega (arith, ok.two);
    fifo = refl;
    stored = λ k a b. absurd (omega arith);
    push_local = tt;
    pop_local = tt;
  }
  Reach-Inv (next r st) = Step-Inv st (Reach-Inv r)
