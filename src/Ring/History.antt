-- ===== src/Ring/History.antt =====
-- What consumers take: the item of each ticket, once, and only when it is its turn.
use native.Mathlib.Decide.{ℕ_discrete, dec_lt}
use lockless_concurrent_fram.Common.{
  ℕ, ◌+◌, ◌%◌, ◌≤◌, ◌<◌, ◌≡◌, ◌⊎◌, refl, subst, Bool, true, false, Option, none, some, inl, inr,
  List, [], ◌∷◌, ◌++◌, length, get_elem?, update, arith, ◌==◌, if◌then◌else◌, Bool-cases, ==_iff,
}
use lockless_concurrent_fram.Ring.{
  Memory, Pc, idle, push_load, push_cas, pop_load, pop_seq, pop_cas, pop_read, pop_publish, Event,
  slot, step, log_after, out_after, System, advance, is_ready, call_push, call_pop, move, Reach,
  here, next, start,
}
use lockless_concurrent_fram.Ring.Invariant.{Local, Inv}
use lockless_concurrent_fram.Ring.Invariant.Slots.{IsSize}
use lockless_concurrent_fram.Ring.Reachable.{Reach-Inv, length-Step}

module _ {T : Type 0} where
  -- How often the item of a ticket was taken.
  unfoldable pub times : ℕ → List (ℕ × T) → ℕ
  times t [] = 0
  times t ((u, x) ∷ out) = (if u == t then 1 else 0) + times t out

  -- Every item taken is the one that was reserved under its ticket.
  abbrev pub Genuine : List T → List (ℕ × T) → Type 0
  Genuine log [] = Unit
  Genuine log ((t, x) ∷ out) = (get_elem? log t ≡ some x) × Genuine log out

  times-snoc :
      (t u : ℕ) (x : T) (out : List (ℕ × T))
      → times t (out ++ (u, x) ∷ []) ≡ times t out + (if u == t then 1 else 0)
  unfolding times
  times-snoc t u x [] = omega arith
  times-snoc t u x (e ∷ out) = omega (arith, times-snoc t u x out)

  Genuine-snoc :
      (log : List T) (t : ℕ) (x : T) (out : List (ℕ × T))
      → get_elem? log t ≡ some x
      → Genuine log out
      → Genuine log (out ++ (t, x) ∷ [])
  Genuine-snoc log t x [] e g = (e, tt)
  Genuine-snoc log t x (_ ∷ out) e g = (g.0, Genuine-snoc log t x out e g.1)

  get_elem?-append :
      (log more : List T) (t : ℕ) {x : T}
      → get_elem? log t ≡ some x
      → get_elem? (log ++ more) t ≡ some x
  get_elem?-append [] more t e = cc
  get_elem?-append (y ∷ log) more ℕ.zero e = e
  get_elem?-append (y ∷ log) more (ℕ.suc t) e = get_elem?-append log more t e

  Genuine-append :
      (log more : List T) (out : List (ℕ × T)) → Genuine log out → Genuine (log ++ more) out
  Genuine-append log more [] g = tt
  Genuine-append log more ((t, x) ∷ out) g =
      (get_elem?-append log more t g.0, Genuine-append log more out g.1)

  Genuine-log_after :
      (e : Event T) (log : List T) (out : List (ℕ × T))
      → Genuine log out
      → Genuine (log_after e log) out
  Genuine-log_after Event.silent log out g = g
  Genuine-log_after (Event.reserved x) log out g = Genuine-append log (x ∷ []) out g
  Genuine-log_after (Event.took t x) log out g = g

  -- The ticket that a consumer has won and has not yet read.
  abbrev pub reading : Pc T → Option ℕ
  reading (pop_read t) = some t
  reading _ = none

  pub record Taken (tail : ℕ) (pc : ℕ → Pc T) (log : List T) (out : List (ℕ × T)) : Type 0 where
    pub genuine : Genuine log out
    pub once : (t : ℕ) → times t out ≤ 1
    pub early : (t : ℕ) → tail ≤ t → times t out ≡ 0
    pub held : (i t : ℕ) → reading (pc i) ≡ some t → (t < tail) × (times t out ≡ 0)
    pub held_once : (i j t : ℕ) → reading (pc i) ≡ some t → reading (pc j) ≡ some t → i ≡ j
    pub covered : (t : ℕ) → t < tail → (times t out ≡ 1) ⊎ ((i : ℕ) × (reading (pc i) ≡ some t))

  module _ {tail : ℕ} {pc : ℕ → Pc T} {log : List T} {out : List (ℕ × T)}
      (h : Taken tail pc log out) where
    -- A step that neither wins a ticket to read nor reads.
    keep-Taken :
        (e : Event T) (i : ℕ) (p : Pc T)
        → reading p ≡ none
        → reading (pc i) ≡ none
        → Taken tail (update pc i p) (log_after e log) out
    keep-Taken e i p new old = record {
      genuine = Genuine-log_after e log out h.genuine;
      once = h.once;
      early = h.early;
      held = λ j t f. ground (arith, h.held j t);
      held_once = λ a b t f g. ground (arith, h.held_once a b t);
      covered =
          λ t lt. elim (h.covered t lt) [ inl f ↦ inl f | inr (j, f) ↦ inr (j, ground arith) ];
    }

    win-Taken :
        (i : ℕ) → reading (pc i) ≡ none → Taken (tail + 1) (update pc i (pop_read tail)) log out
    win-Taken i old = record {
      genuine = h.genuine;
      once = h.once;
      early = λ t le. h.early t (omega arith);
      held = λ j t f. ground (arith, h.held j t, h.early t);
      held_once = λ a b t f g. ground (arith, h.held_once a b t, h.held a t, h.held b t);
      covered = λ t lt. elim (dec_lt t tail) [
        | yes old' ↦ elim (h.covered t old') [ inl f ↦ inl f | inr (j, f) ↦ inr (j, ground arith) ]
        | no new ↦ inr (i, ground arith)
      ];
    }

    read-Taken :
        (i t : ℕ) (x : T)
        → pc i ≡ pop_read t
        → get_elem? log t ≡ some x
        → Taken tail (update pc i (pop_publish t x)) log (out ++ (t, x) ∷ [])
    read-Taken i t x e f = record {
      genuine = Genuine-snoc log t x out f h.genuine;
      once = λ u. ground (arith, times-snoc u t x out, h.once u, h.held i t);
      early = λ u le. ground (arith, times-snoc u t x out, h.early u, h.held i t);
      held = λ j u g. ground (arith, times-snoc u t x out, h.held j u, h.held_once i j u);
      held_once = λ a b u g k. ground (arith, h.held_once a b u);
      covered = λ u lt. elim (ℕ_discrete t u) [
        | yes same ↦ inl (ground (arith, times-snoc u t x out, h.held i t))
        | no other ↦ elim (h.covered u lt) [
          | inl g ↦ inl (ground (arith, times-snoc u t x out))
          | inr (j, g) ↦ inr (j, ground arith)
        ]
      ];
    }

module _ {T : Type 0} (size : ℕ) (ok : IsSize size) where
  step-Taken :
      {m : Memory T} {pc : ℕ → Pc T} {log : List T} {out : List (ℕ × T)}
      → Inv size m pc log
      → Taken m.tail pc log out
      → (i : ℕ) (spurious : Bool) (p : Pc T) → pc i ≡ p
      → let (m', p', e) = step size spurious m p in
        Taken m'.tail (update pc i p') (log_after e log) (out_after e out)
  unfolding step
  step-Taken inv h i b idle e = keep-Taken h Event.silent i idle refl (rw e)
  step-Taken inv h i b (push_load x) e = keep-Taken h Event.silent i _ refl (rw e)
  step-Taken inv h i b (Pc.push_seq x k) e = keep-Taken h Event.silent i _ (ground arith) (rw e)
  step-Taken inv h i true (push_cas x k) e = keep-Taken h Event.silent i _ refl (rw e)
  step-Taken {m} inv h i false (push_cas x k) e = elim (Bool-cases (m.head == k)) [
    | inl same ↦ rw same (keep-Taken h (Event.reserved x) i _ refl (rw e))
    | inr other ↦ rw other (keep-Taken h Event.silent i _ refl (rw e))
  ]
  step-Taken inv h i b (Pc.push_write x k) e = keep-Taken h Event.silent i _ refl (rw e)
  step-Taken inv h i b (Pc.push_publish x k) e = keep-Taken h Event.silent i _ refl (rw e)
  step-Taken inv h i b (Pc.pushed r) e = keep-Taken h Event.silent i _ refl (rw e)
  step-Taken inv h i b pop_load e = keep-Taken h Event.silent i _ refl (rw e)
  step-Taken inv h i b (pop_seq t) e = keep-Taken h Event.silent i _ (ground arith) (rw e)
  step-Taken inv h i true (pop_cas t) e = keep-Taken h Event.silent i _ refl (rw e)
  step-Taken {m} {log} {out} inv h i false (pop_cas t) e = elim (Bool-cases (m.tail == t)) [
    | inl same ↦
        let eq : m.tail ≡ t = (==_iff _ _).0 same in
        let w : (m.tail + 1) % 0x1_0000_0000_0000_0000 ≡ m.tail + 1 =
          omega (arith, inv.room, inv.tail_le) in
        rw same (rw (← eq, w) (win-Taken h i (rw e)))
    | inr other ↦ rw other (keep-Taken h Event.silent i _ refl (rw e))
  ]
  step-Taken {m} {log} inv h i b (pop_read t) e =
      let own = subst (Local size m log) e (inv.locals i) in
      read-Taken h i t (m.buffer (slot size t)) e (inv.full t own.2).1
  step-Taken inv h i b (pop_publish t x) e = keep-Taken h Event.silent i _ refl (rw e)
  step-Taken inv h i b (Pc.popped r) e = keep-Taken h Event.silent i _ refl (rw e)

  ready-reading : (p : Pc T) → is_ready p ≡ true → reading p ≡ none
  ready-reading idle e = refl
  ready-reading p e = ground arith

  pub Reach-Taken :
      {blank : T} {s : System T}
      → Reach size blank s
      → length s.log + size < 0x8000_0000_0000_0000
      → Taken s.mem.tail s.pc s.log s.out
  unfolding advance start times
  Reach-Taken here room = record {
    genuine = tt;
    once = λ t. omega arith;
    early = λ t le. refl;
    held = λ i t e. cc;
    held_once = λ i j t e f. cc;
    covered = λ t lt. absurd (omega arith);
  }
  Reach-Taken (next {s} r (call_push i x q)) room =
      keep-Taken (Reach-Taken r room) Event.silent i (push_load x) refl (ready-reading (s.pc i) q)
  Reach-Taken (next {s} r (call_pop i q)) room =
      keep-Taken (Reach-Taken r room) Event.silent i pop_load refl (ready-reading (s.pc i) q)
  Reach-Taken (next {s} r (move i b)) room =
      let before : length s.log + size < 0x8000_0000_0000_0000 =
        omega (arith, length-Step size ok {s = s} (move i b)) in
      step-Taken (Reach-Inv size ok r before) (Reach-Taken r before) i b (s.pc i) refl
