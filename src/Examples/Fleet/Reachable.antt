-- ===== src/Examples/Fleet/Reachable.antt =====
-- The invariant of Examples/Fleet/Invariant in every reachable state.
use mathlib.Core.List.{map}
use lockless_concurrent_fram.Common.{
  ℕ, ◌+◌, ◌≡◌, ◌⊎◌, refl, sym, ap, inl, inr, Bool, true, List, update, update_self, update_ne,
  arith,
}
use lockless_concurrent_fram.Common.Sums.{weight, total-nothing}
use lockless_concurrent_fram.Ring
use lockless_concurrent_fram.Ring.{Pc, push_load, pushed, pop_load, popped, is_ready}
use lockless_concurrent_fram.Examples.Fleet.{
  Call, resting, pushing, popping, joined, is_busy, Thread, System, calls, goes_on, start, Step,
  call_push, end_push, push_again, call_pop, end_pop, pop_again, join, move, Reach, here, next,
}
use lockless_concurrent_fram.Ring.Turns.{step-Sends, step-Takes}
use lockless_concurrent_fram.Examples.Fleet.Invariant.{
  Fits, left_at, left, took_at, took, counted_at, counted, Inv, Moved, Moved-Inv,
}

busy-cases : (c : Call) → is_busy c ≡ true → (c ≡ pushing) ⊎ (c ≡ popping)
busy-cases pushing e = inl refl
busy-cases popping e = inr refl
busy-cases resting e = cc
busy-cases joined e = cc

module _ {T : Type 0} {size n : ℕ} {items : ℕ → List T} {quota : ℕ → ℕ} {blank : T} where
  -- A thread begins a call.
  calls-Moved :
      (i : ℕ) (p : Pc T) (c : Call) {s : System T}
      → Ring.Reach size blank (record s.ring { pc = update s.ring.pc i p })
      → (s.threads i).call ≡ resting
      → Fits (quota i) (record (s.threads i) { call = c }) p
      → left_at c p (s.threads i).todo ≡ (s.threads i).todo
      → took_at c p ≡ 0
      → counted_at c (s.threads i).local_count ≡ 0
      → Moved size n items quota blank i s (calls i p c s)
  calls-Moved i p c {s} ring at_rest fits same none_taken none_counted = record {
    thread = record (s.threads i) { call = c };
    pc = p;
    at_thread = update_self s.threads i (record (s.threads i) { call = c });
    at_pc = update_self s.ring.pc i p;
    threads = λ j ne. update_ne s.threads i j (record (s.threads i) { call = c }) ne;
    pcs = λ j ne. update_ne s.ring.pc i j p ne;
    ring = ring;
    fits = fits;
    sent = λ w. rw (at_rest, same) refl;
    taken = rw (at_rest, none_taken) refl;
    consumed = rw (at_rest, none_counted) refl;
  }

  -- A thread goes on after a call.
  goes_on-Moved :
      (i : ℕ) (th : Thread T) {s : System T}
      → Ring.Reach size blank s.ring
      → Fits (quota i) th (s.ring.pc i)
      → left th (s.ring.pc i) ≡ left (s.threads i) (s.ring.pc i)
      → took th (s.ring.pc i) ≡ took (s.threads i) (s.ring.pc i)
      → counted th (s.ring.pc i) ≡ counted (s.threads i) (s.ring.pc i)
      → Moved size n items quota blank i s (goes_on i th s)
  goes_on-Moved i th {s} ring fits same same_taken same_counted = record {
    thread = th;
    pc = s.ring.pc i;
    at_thread = update_self s.threads i th;
    at_pc = refl;
    threads = λ j ne. update_ne s.threads i j th ne;
    pcs = λ j ne. refl;
    ring = ring;
    fits = fits;
    sent = λ w. ap (λ l. weight w s.ring.log + weight w l) same;
    taken = ap (λ k. weight (λ _. 1) (map (λ e. e.1) s.ring.out) + k) (sym same_taken);
    consumed = ap (λ k. s.total_consumed + k) (sym same_counted);
  }

  move-Moved :
      (i : ℕ) (b : Bool) {s : System T}
      → Inv size n items quota blank s
      → ((s.threads i).call ≡ pushing) ⊎ ((s.threads i).call ≡ popping)
      → Moved size n items quota blank i s (record s { ring = Ring.advance size i b s.ring })
  unfolding Ring.advance
  move-Moved i b {s} inv (inl at_push) =
      let p = (Ring.step size b s.ring.mem (s.ring.pc i)).1 in
      let f = rw at_push at (inv.fits i) in
      let d = λ (w : T → ℕ).
        step-Sends size b w s.ring.mem (s.ring.pc i) (s.threads i).todo s.ring.log s.ring.out f.0 in
      let none_taken = (d (λ _. 0)).none_taken in
      record {
        thread = s.threads i;
        pc = p;
        at_thread = refl;
        at_pc = update_self s.ring.pc i p;
        threads = λ j ne. refl;
        pcs = λ j ne. update_ne s.ring.pc i j p ne;
        ring = Ring.next inv.ring (Ring.move i b);
        fits = rw at_push ((d (λ _. 0)).stays, f.1);
        sent = λ w. rw at_push (d w).sent;
        taken = rw at_push (
            ap (λ o. weight (λ _. 1) (map (λ e. e.1) o) + ((s.threads i).local_count + 0))
              none_taken);
        consumed = rw at_push refl;
      }
  move-Moved i b {s} inv (inr at_pop) =
      let p = (Ring.step size b s.ring.mem (s.ring.pc i)).1 in
      let f = rw at_pop at (inv.fits i) in
      let d = step-Takes size b (λ _. 1) s.ring.mem (s.ring.pc i) s.ring.log s.ring.out f.0 in
      record {
        thread = s.threads i;
        pc = p;
        at_thread = refl;
        at_pc = update_self s.ring.pc i p;
        threads = λ j ne. refl;
        pcs = λ j ne. update_ne s.ring.pc i j p ne;
        ring = Ring.next inv.ring (Ring.move i b);
        fits = rw at_pop (d.stays, f.1, f.2);
        sent = λ w. rw at_pop (ap (λ l. weight w l + weight w (s.threads i).todo) d.none_sent);
        taken = rw at_pop (omega (arith, d.taken));
        consumed = rw at_pop refl;
      }

  Step-Moved :
      (i : ℕ) {s t : System T}
      → Inv size n items quota blank s
      → Step size n items quota i s t
      → Moved size n items quota blank i s t
  Step-Moved i {s} inv (call_push x rest at_rest todo ready) =
      let f = rw at_rest at (inv.fits i) in
      calls-Moved i (push_load x) pushing (Ring.next inv.ring (Ring.call_push i x ready)) at_rest
        (rw todo (refl, f.1)) refl refl refl
  Step-Moved i {s} inv (end_push x rest at_push todo done) =
      let f = rw at_push at (inv.fits i) in
      goes_on-Moved i (record (s.threads i) { call = resting; todo = rest }) inv.ring
        (rw done (refl, f.1)) (rw (at_push, done, todo) refl) (rw at_push refl) (rw at_push refl)
  Step-Moved i {s} inv (push_again at_push done) =
      let f = rw at_push at (inv.fits i) in
      goes_on-Moved i (record (s.threads i) { call = resting }) inv.ring (rw done (refl, f.1))
        (rw (at_push, done) refl) (rw at_push refl) (rw at_push refl)
  Step-Moved i {s} inv (call_pop at_rest todo less ready) =
      calls-Moved i pop_load popping (Ring.next inv.ring (Ring.call_pop i ready)) at_rest
        (tt, todo, less) refl refl refl
  Step-Moved i {s} inv (end_pop x at_pop done) =
      let f = rw at_pop at (inv.fits i) in
      goes_on-Moved i
        (record (s.threads i) { call = resting; local_count = (s.threads i).local_count + 1 })
        inv.ring (rw done (refl, omega (arith, f.2))) (rw at_pop refl)
        (rw (at_pop, done) (omega arith)) (rw at_pop refl)
  Step-Moved i {s} inv (pop_again at_pop done) =
      let f = rw at_pop at (inv.fits i) in
      goes_on-Moved i (record (s.threads i) { call = resting }) inv.ring
        (rw done (refl, omega (arith, f.2))) (rw at_pop refl) (rw (at_pop, done) refl)
        (rw at_pop refl)
  Step-Moved i {s} inv (join at_rest todo enough) =
      let f = rw at_rest at (inv.fits i) in
      let th : Thread T = record (s.threads i) { call = joined } in
      record {
        thread = th;
        pc = s.ring.pc i;
        at_thread = update_self s.threads i th;
        at_pc = refl;
        threads = λ j ne. update_ne s.threads i j th ne;
        pcs = λ j ne. refl;
        ring = inv.ring;
        fits = (f.0, todo, omega (arith, enough, f.1));
        sent = λ w. rw at_rest refl;
        taken = rw at_rest refl;
        consumed = rw at_rest (omega arith);
      }
  Step-Moved i {s} inv (move b busy) = move-Moved i b inv (busy-cases (s.threads i).call busy)

  pub Reach-Inv : {s : System T} → Reach size n items quota blank s → Inv size n items quota blank s
  unfolding start Ring.start
  Reach-Inv here = record {
    ring = Ring.here;
    fits = λ i. (refl, omega arith);
    outside = λ i le. refl;
    sent = λ w. omega arith;
    taken = sym (total-nothing n);
    consumed = sym (total-nothing n);
  }
  Reach-Inv (next i lt r st) =
      let inv = Reach-Inv r in Moved-Inv size n items quota blank i lt inv (Step-Moved i inv st)
