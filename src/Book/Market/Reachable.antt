-- ===== src/Book/Market/Reachable.antt =====
-- The invariant of Book/Market/Invariant in every reachable state.
use mathlib.Core.List.{map}
use lockless_concurrent_fram.Common.{
  ℕ, ◌+◌, ◌≡◌, refl, ap, Bool, [], ◌∷◌, ◌++◌, length, update, update_self, update_ne, arith, min,
}
use lockless_concurrent_fram.Common.Sums.{weight, weight-append, total-nothing}
use lockless_concurrent_fram.Ring
use lockless_concurrent_fram.Ring.{Pc, push_load, pushed, pop_load, popped, is_ready}
use lockless_concurrent_fram.Ring.Turns.{step-Sends, step-Takes}
use lockless_concurrent_fram.Book.{Order}
use lockless_concurrent_fram.Book.Shared
use lockless_concurrent_fram.Book.Shared.{idle, entry}
use lockless_concurrent_fram.Book.Shared.Settled.{unsettled-entry, step-settled}
use lockless_concurrent_fram.Book.Market.{
  resting, submitting, filling, popping, processing, Thread, System, calls, goes_on, start, Step,
  call_submit, end_submit, call_process, pop_next, pop_some, pop_none, batch_full, process_next,
  end_process, move_submit, move_pop, move_process, Reach, here, next,
}
use lockless_concurrent_fram.Book.Market.Invariant.{Fits, held, taken_out, Inv, Moved, Moved-Inv}

module _ {size n : ℕ} {blank : Order} where
  -- A thread calls an operation of the queue.
  calls-Moved :
      (i : ℕ) (p : Pc Order) (th : Thread) {s : System}
      → Inv size n blank s
      → Ring.Reach size blank (record s.ring { pc = update s.ring.pc i p })
      → Fits th p (s.book.pc i)
      → ((w : Order → ℕ) → held w th p ≡ held w (s.threads i) (s.ring.pc i))
      → Moved size n blank i s (calls i p th s)
  calls-Moved i p th {s} inv ring fits same = record {
    thread = th;
    pc = p;
    point = s.book.pc i;
    at_thread = update_self s.threads i th;
    at_pc = update_self s.ring.pc i p;
    at_point = refl;
    threads = λ j ne. update_ne s.threads i j th ne;
    pcs = λ j ne. update_ne s.ring.pc i j p ne;
    points = λ j ne. refl;
    ring = ring;
    book = inv.book;
    fits = fits;
    taken = λ w. omega (arith, same w);
    counted = refl;
  }

  -- A thread goes on between two calls.
  goes_on-Moved :
      (i : ℕ) (th : Thread) {s : System}
      → Inv size n blank s
      → Fits th (s.ring.pc i) (s.book.pc i)
      → ((w : Order → ℕ) → held w th (s.ring.pc i) ≡ held w (s.threads i) (s.ring.pc i))
      → Moved size n blank i s (goes_on i th s)
  goes_on-Moved i th {s} inv fits same = record {
    thread = th;
    pc = s.ring.pc i;
    point = s.book.pc i;
    at_thread = update_self s.threads i th;
    at_pc = refl;
    at_point = refl;
    threads = λ j ne. update_ne s.threads i j th ne;
    pcs = λ j ne. refl;
    points = λ j ne. refl;
    ring = inv.ring;
    book = inv.book;
    fits = fits;
    taken = λ w. omega (arith, same w);
    counted = refl;
  }

  -- A thread makes a step inside a call of the queue.
  ring-Moved :
      (i : ℕ) (b : Bool) {s : System}
      → Inv size n blank s
      → let p = (Ring.step size b s.ring.mem (s.ring.pc i)).1 in
        Fits (s.threads i) p (s.book.pc i)
        → ((w : Order → ℕ)
            → let t : System = record s { ring = Ring.advance size i b s.ring } in
              taken_out w t + held w (s.threads i) (s.ring.pc i)
              ≡ taken_out w s + held w (s.threads i) p)
        → Moved size n blank i s (record s { ring = Ring.advance size i b s.ring })
  unfolding Ring.advance
  ring-Moved i b {s} inv fits same =
      let p = (Ring.step size b s.ring.mem (s.ring.pc i)).1 in
      record {
        thread = s.threads i;
        pc = p;
        point = s.book.pc i;
        at_thread = refl;
        at_pc = update_self s.ring.pc i p;
        at_point = refl;
        threads = λ j ne. refl;
        pcs = λ j ne. update_ne s.ring.pc i j p ne;
        points = λ j ne. refl;
        ring = Ring.next inv.ring (Ring.move i b);
        book = inv.book;
        fits = fits;
        taken = λ w. omega (arith, same w);
        counted = refl;
      }

  Step-Moved :
      (i : ℕ) {s t : System} → Inv size n blank s → Step size i s t → Moved size n blank i s t
  unfolding Ring.advance Shared.advance
  Step-Moved i {s} inv (call_submit o at_rest ready) =
      let (_, q, none_held) = rw at_rest at (inv.fits i) in
      calls-Moved i (push_load o) (record (s.threads i) { call = submitting }) inv
        (Ring.next inv.ring (Ring.call_push i o ready)) ((o, refl), q, none_held)
        (λ w. rw at_rest refl)
  Step-Moved i {s} inv (end_submit r at_submit done) =
      let (_, q, none_held) = rw at_submit at (inv.fits i) in
      goes_on-Moved i (record (s.threads i) { call = resting }) inv (rw done refl, q, none_held)
        (λ w. rw at_submit refl)
  Step-Moved i {s} inv (call_process k at_rest) =
      let (ready, q, none_held) = rw at_rest at (inv.fits i) in
      goes_on-Moved i (record { call = filling; room = min k 100; orders = [] }) inv (ready, q)
        (λ w. rw (at_rest, none_held) refl)
  Step-Moved i {s} inv (pop_next k at_fill more ready) =
      let (_, q) = rw at_fill at (inv.fits i) in
      calls-Moved i pop_load (record (s.threads i) { call = popping; room = k }) inv
        (Ring.next inv.ring (Ring.call_pop i ready)) (tt, q) (λ w. rw at_fill refl)
  Step-Moved i {s} inv (pop_some o at_pop done) =
      let (_, q) = rw at_pop at (inv.fits i) in
      goes_on-Moved i
        (record (s.threads i) { call = filling; orders = (s.threads i).orders ++ o ∷ [] }) inv
        (rw done refl, q)
        (λ w. rw (at_pop, done) (omega (arith, weight-append w (s.threads i).orders (o ∷ []))))
  Step-Moved i {s} inv (pop_none at_pop done) =
      goes_on-Moved i (record (s.threads i) { call = processing }) inv (rw done refl)
        (λ w. rw (at_pop, done) refl)
  Step-Moved i {s} inv (batch_full at_fill full) =
      let (ready, q) = rw at_fill at (inv.fits i) in
      goes_on-Moved i (record (s.threads i) { call = processing }) inv ready (λ w. rw at_fill refl)
  Step-Moved i {s} inv (process_next o rest at_process more free) =
      let th : Thread = record (s.threads i) { orders = rest } in
      let q = entry o o.side in
      record {
        thread = th;
        pc = s.ring.pc i;
        point = q;
        at_thread = update_self s.threads i th;
        at_pc = refl;
        at_point = update_self s.book.pc i q;
        threads = λ j ne. update_ne s.threads i j th ne;
        pcs = λ j ne. refl;
        points = λ j ne. update_ne s.book.pc i j q ne;
        ring = inv.ring;
        book = Shared.next inv.book (Shared.call i o free);
        fits = rw at_process (rw at_process at (inv.fits i));
        taken = λ w. rw (at_process, more) (omega arith);
        counted = rw free (omega (arith, unsettled-entry o o.side));
      }
  Step-Moved i {s} inv (end_process at_process none_left free) =
      let ready = rw at_process at (inv.fits i) in
      goes_on-Moved i (record (s.threads i) { call = resting }) inv (ready, free, none_left)
        (λ w. rw at_process refl)
  Step-Moved i {s} inv (move_submit b at_submit) =
      let ((o, at_push), q, none_held) = rw at_submit at (inv.fits i) in
      let d =
        step-Sends size b (λ _. 0) s.ring.mem (s.ring.pc i) (o ∷ []) s.ring.log s.ring.out
          at_push in
      ring-Moved i b inv (rw at_submit ((o, d.stays), q, none_held)) (λ w. rw at_submit (
        ap (λ out. weight w (map (λ e. e.1) out) + (weight w (s.threads i).orders + 0))
          d.none_taken))
  Step-Moved i {s} inv (move_pop b at_pop) =
      let (pops, q) = rw at_pop at (inv.fits i) in
      let d = λ (w : Order → ℕ).
        step-Takes size b w s.ring.mem (s.ring.pc i) s.ring.log s.ring.out pops in
      ring-Moved i b inv (rw at_pop ((d (λ _. 0)).stays, q))
        (λ w. rw at_pop (omega (arith, (d w).taken)))
  Step-Moved i {s} inv (move_process b at_process) =
      let q = (Shared.step b s.book.levels (s.book.pc i)).1 in
      record {
        thread = s.threads i;
        pc = s.ring.pc i;
        point = q;
        at_thread = refl;
        at_pc = refl;
        at_point = update_self s.book.pc i q;
        threads = λ j ne. refl;
        pcs = λ j ne. refl;
        points = λ j ne. update_ne s.book.pc i j q ne;
        ring = inv.ring;
        book = Shared.next inv.book (Shared.move i b);
        fits = rw at_process (rw at_process at (inv.fits i));
        taken = λ w. refl;
        counted =
            ap (λ k. k + length s.begun) (step-settled b s.book.levels (s.book.pc i) s.book.log);
      }

  pub Reach-Inv : {s : System} → Reach size n blank s → Inv size n blank s
  unfolding start Ring.start Shared.start
  Reach-Inv here = record {
    ring = Ring.here;
    book = Shared.here;
    fits = λ i. (refl, refl, refl);
    outside = λ i le. refl;
    taken = λ w. omega (arith, total-nothing n);
    counted = omega (arith, total-nothing n);
  }
  Reach-Inv (next i lt r st) =
      let inv = Reach-Inv r in Moved-Inv size n blank i lt inv (Step-Moved i inv st)
