-- ===== src/Examples/Fleet/Invariant.antt =====
-- Which items are in the history, and how many were taken, in every reachable state.
use mathlib.Core.List.{map}
use native.Mathlib.Decide.{ℕ_discrete}
use lockless_concurrent_fram.Common.{
  ℕ, ◌+◌, ◌≤◌, ◌<◌, ◌≡◌, ◌≢◌, ap, ap₂, ◌∙◌, subst, true, List, [], arith,
}
use lockless_concurrent_fram.Common.Sums.{weight, total, total-change}
use lockless_concurrent_fram.Ring
use lockless_concurrent_fram.Ring.{Pc, push_load, pushed, pop_load, popped, is_ready}
use lockless_concurrent_fram.Examples.Fleet.{
  Call, resting, pushing, popping, joined, Thread, System,
}
use lockless_concurrent_fram.Ring.Turns.{Pushes, Pops, unsent, in_hand}

abbrev pub counted_at : Call → ℕ → ℕ
counted_at joined count = count
counted_at _ count = 0

module _ {T : Type 0} where
  -- How a thread's point in its function fits that in its call.
  abbrev pub FitsAt : ℕ → Call → Pc T → List T → ℕ → Type 0
  FitsAt share resting p todo count = (is_ready p ≡ true) × (count ≤ share)
  FitsAt share pushing p todo count = Pushes p todo × (count ≤ share)
  FitsAt share popping p todo count = Pops p × (todo ≡ []) × (count < share)
  FitsAt share joined p todo count = (is_ready p ≡ true) × (todo ≡ []) × (count ≡ share)

  abbrev pub left_at : Call → Pc T → List T → List T
  left_at pushing p todo = unsent p todo
  left_at _ p todo = todo

  abbrev pub took_at : Call → Pc T → ℕ
  took_at popping p = in_hand (λ _. 1) p
  took_at _ p = 0

  abbrev pub Fits : ℕ → Thread T → Pc T → Type 0
  Fits share th p = FitsAt share th.call p th.todo th.local_count

  -- The items that are not in the history yet, the items that were taken, and what was added to
  -- the sum.
  abbrev pub left : Thread T → Pc T → List T
  left th p = left_at th.call p th.todo

  abbrev pub took : Thread T → Pc T → ℕ
  took th p = th.local_count + took_at th.call p

  abbrev pub counted : Thread T → Pc T → ℕ
  counted th p = counted_at th.call th.local_count

module _ {T : Type 0} (size n : ℕ) (items : ℕ → List T) (quota : ℕ → ℕ) (blank : T) where
  pub record Inv (s : System T) : Type 0 where
    pub ring : Ring.Reach size blank s.ring
    pub fits : (i : ℕ) → Fits (quota i) (s.threads i) (s.ring.pc i)
    pub outside : (i : ℕ) → n ≤ i → (s.threads i).call ≡ resting
    pub sent :
        (w : T → ℕ)
        → weight w s.ring.log + total n (λ i. weight w (left (s.threads i) (s.ring.pc i)))
          ≡ total n (λ i. weight w (items i))
    pub taken :
        weight (λ _. 1) (map (λ e. e.1) s.ring.out)
        ≡ total n (λ i. took (s.threads i) (s.ring.pc i))
    pub consumed : s.total_consumed ≡ total n (λ i. counted (s.threads i) (s.ring.pc i))

  -- What a step of thread `i` does.
  pub record Moved (i : ℕ) (s t : System T) : Type 0 where
    pub thread : Thread T
    pub pc : Pc T
    pub at_thread : t.threads i ≡ thread
    pub at_pc : t.ring.pc i ≡ pc
    pub threads : (j : ℕ) → i ≢ j → t.threads j ≡ s.threads j
    pub pcs : (j : ℕ) → i ≢ j → t.ring.pc j ≡ s.ring.pc j
    pub ring : Ring.Reach size blank t.ring
    pub fits : Fits (quota i) thread pc
    pub sent :
        (w : T → ℕ)
        → weight w t.ring.log + weight w (left thread pc)
          ≡ weight w s.ring.log + weight w (left (s.threads i) (s.ring.pc i))
    pub taken :
        weight (λ _. 1) (map (λ e. e.1) t.ring.out) + took (s.threads i) (s.ring.pc i)
        ≡ weight (λ _. 1) (map (λ e. e.1) s.ring.out) + took thread pc
    pub consumed :
        t.total_consumed + counted (s.threads i) (s.ring.pc i)
        ≡ s.total_consumed + counted thread pc

  pub Moved-Inv : (i : ℕ) {s t : System T} → i < n → Inv s → Moved i s t → Inv t
  Moved-Inv i {s} {t} lt inv m = record {
    ring = m.ring;
    fits = λ j. elim (ℕ_discrete i j) [
      | yes e ↦
          subst (λ j. Fits (quota j) (t.threads j) (t.ring.pc j)) e
            (rw (m.at_thread, m.at_pc) m.fits)
      | no ne ↦ rw (m.threads j ne, m.pcs j ne) (inv.fits j)
    ];
    outside =
        λ j le. ap (λ th. th.call) (m.threads j (λ e. omega (arith, e, le, lt))) ∙ inv.outside j le;
    sent = λ w. omega (arith, inv.sent w, m.sent w, changed (λ th p. weight w (left th p)));
    taken = omega (arith, inv.taken, m.taken, changed took);
    consumed = omega (arith, inv.consumed, m.consumed, changed counted);
  }
    where
      changed :
          (f : Thread T → Pc T → ℕ)
          → total n (λ i. f (t.threads i) (t.ring.pc i)) + f (s.threads i) (s.ring.pc i)
            ≡ total n (λ i. f (s.threads i) (s.ring.pc i)) + f m.thread m.pc
      changed f = omega (
        arith,
        total-change n i (λ i. f (t.threads i) (t.ring.pc i)) (λ i. f (s.threads i) (s.ring.pc i))
            lt (λ j ne. ap₂ f (m.threads j ne) (m.pcs j ne)),
        ap₂ f m.at_thread m.at_pc,
      )
