-- ===== src/Book/Market/Invariant.antt =====
-- Where the orders are that were taken out of the queue, and what a step of one thread changes.
use mathlib.Core.List.{map}
use native.Mathlib.Decide.{ℕ_discrete}
use lockless_concurrent_fram.Common.{
  ℕ, ◌+◌, ◌≤◌, ◌<◌, ◌≡◌, ◌≢◌, ap, ap₂, ◌∙◌, subst, true, List, [], ◌∷◌, length, arith,
}
use lockless_concurrent_fram.Common.Sums.{weight, total, total-change}
use lockless_concurrent_fram.Ring
use lockless_concurrent_fram.Ring.{is_ready}
use lockless_concurrent_fram.Ring.Turns.{Pushes, Pops, in_hand}
use lockless_concurrent_fram.Book.{Order}
use lockless_concurrent_fram.Book.Shared
use lockless_concurrent_fram.Book.Shared.{idle}
use lockless_concurrent_fram.Book.Shared.Settled.{settled, unsettled}
use lockless_concurrent_fram.Book.Market.{
  Call, resting, submitting, filling, popping, processing, Thread, System,
}

-- How a thread's points in the queue and in the book fit that in its own call.
abbrev pub FitsAt : Call → Ring.Pc Order → Shared.Pc → List Order → Type 0
FitsAt resting p q orders = (is_ready p ≡ true) × (q ≡ idle) × (orders ≡ [])
FitsAt submitting p q orders = ((o : Order) × Pushes p (o ∷ [])) × (q ≡ idle) × (orders ≡ [])
FitsAt filling p q orders = (is_ready p ≡ true) × (q ≡ idle)
FitsAt popping p q orders = Pops p × (q ≡ idle)
FitsAt processing p q orders = is_ready p ≡ true

abbrev pub Fits : Thread → Ring.Pc Order → Shared.Pc → Type 0
Fits th p q = FitsAt th.call p q th.orders

abbrev pub hand_at : (Order → ℕ) → Call → Ring.Pc Order → ℕ
hand_at w popping p = in_hand w p
hand_at w _ p = 0

-- The orders that a thread has taken out and not begun to process.
abbrev pub held : (Order → ℕ) → Thread → Ring.Pc Order → ℕ
held w th p = weight w th.orders + hand_at w th.call p

abbrev pub taken_out : (Order → ℕ) → System → ℕ
taken_out w s = weight w (map (λ e. e.1) s.ring.out)

module _ (size n : ℕ) (blank : Order) where
  pub record Inv (s : System) : Type 0 where
    pub ring : Ring.Reach size blank s.ring
    pub book : Shared.Reach s.book
    pub fits : (i : ℕ) → Fits (s.threads i) (s.ring.pc i) (s.book.pc i)
    pub outside : (i : ℕ) → n ≤ i → (s.threads i).call ≡ resting
    pub taken :
        (w : Order → ℕ)
        → taken_out w s ≡ weight w s.begun + total n (λ i. held w (s.threads i) (s.ring.pc i))
    pub counted : settled s.book.log + total n (λ i. unsettled (s.book.pc i)) ≡ length s.begun

  -- What a step of thread `i` does.
  pub record Moved (i : ℕ) (s t : System) : Type 0 where
    pub thread : Thread
    pub pc : Ring.Pc Order
    pub point : Shared.Pc
    pub at_thread : t.threads i ≡ thread
    pub at_pc : t.ring.pc i ≡ pc
    pub at_point : t.book.pc i ≡ point
    pub threads : (j : ℕ) → i ≢ j → t.threads j ≡ s.threads j
    pub pcs : (j : ℕ) → i ≢ j → t.ring.pc j ≡ s.ring.pc j
    pub points : (j : ℕ) → i ≢ j → t.book.pc j ≡ s.book.pc j
    pub ring : Ring.Reach size blank t.ring
    pub book : Shared.Reach t.book
    pub fits : Fits thread pc point
    pub taken :
        (w : Order → ℕ)
        → taken_out w t + (weight w s.begun + held w (s.threads i) (s.ring.pc i))
          ≡ taken_out w s + (weight w t.begun + held w thread pc)
    pub counted :
        settled t.book.log + unsettled point + length s.begun
        ≡ settled s.book.log + unsettled (s.book.pc i) + length t.begun

  pub Moved-Inv : (i : ℕ) {s t : System} → i < n → Inv s → Moved i s t → Inv t
  Moved-Inv i {s} {t} lt inv m = record {
    ring = m.ring;
    book = m.book;
    fits = λ j. elim (ℕ_discrete i j) [
      | yes e ↦
          subst (λ j. Fits (t.threads j) (t.ring.pc j) (t.book.pc j)) e
            (rw (m.at_thread, m.at_pc, m.at_point) m.fits)
      | no ne ↦ rw (m.threads j ne, m.pcs j ne, m.points j ne) (inv.fits j)
    ];
    outside =
        λ j le. ap (λ th. th.call) (m.threads j (λ e. omega (arith, e, le, lt))) ∙ inv.outside j le;
    taken = λ w. omega (
      arith,
      inv.taken w,
      m.taken w,
      total-change n i (λ i. held w (t.threads i) (t.ring.pc i))
          (λ i. held w (s.threads i) (s.ring.pc i)) lt
          (λ j ne. ap₂ (held w) (m.threads j ne) (m.pcs j ne)),
      ap₂ (held w) m.at_thread m.at_pc,
    );
    counted = omega (
      arith,
      inv.counted,
      m.counted,
      total-change n i (λ i. unsettled (t.book.pc i)) (λ i. unsettled (s.book.pc i)) lt
          (λ j ne. ap unsettled (m.points j ne)),
      ap unsettled m.at_point,
    );
  }
