-- ===== src/Epoch/Kept.antt =====
-- The invariant of Epoch/Invariant after what the steps change.
use native.Mathlib.Decide.{ℕ_discrete}
use lockless_concurrent_fram.Common.{
  ℕ, ◌+◌, ◌≤◌, ◌<◌, ◌≡◌, ◌≢◌, refl, ◌∙◌, subst, Bool, true, false, inl, inr, List, Bool-cases,
  update, update_self, update_ne, arith,
}
use lockless_concurrent_fram.Common.Words.{add64, max64}
use lockless_concurrent_fram.Epoch.{RetiredNode, Memory, Pc, idle, cas, swap, max_threads}
use lockless_concurrent_fram.Epoch.Invariant.{
  Passed, Local, Binned, is_entering, Inv, Onward, Local-Onward, locals-Onward, entering-update,
  Binned-le,
}

module _ {m : Memory} {pc : ℕ → Pc} {entered : ℕ → ℕ} {epochs : ℕ}
    (inv : Inv m pc entered epochs) where
  stay : Onward m entered m entered
  stay = record { grows = omega arith; newer = λ i c le h. h }

  beyond : (i : ℕ) → max_threads ≤ i → m.local_epoch i ≡ max64
  beyond i le = elim (Bool-cases (m.in_use i)) [
    | inl used ↦ absurd (omega (arith, inv.few i used, le))
    | inr free ↦ inv.unused i free
  ]

  -- Only the thread's own place changes.
  pub quiet-Inv :
      (i : ℕ) (p : Pc)
      → Local m entered p
      → (is_entering p ≡ true → m.in_use i ≡ true)
      → Inv m (update pc i p) entered epochs
  quiet-Inv i p new used = record {
    counted = inv.counted;
    room = inv.room;
    unused = inv.unused;
    few = inv.few;
    entering = entering-update pc m.in_use m.in_use i p inv.entering used (λ j _. refl);
    inside = inv.inside;
    binned = inv.binned;
    locals = locals-Onward pc i p stay inv.locals new;
  }

  -- Thread `i` leaves, or its slot changes hands.
  pub left-Inv :
      (i : ℕ) (used : ℕ → Bool)
      → pc i ≡ idle
      → ((j : ℕ) → i ≢ j → used j ≡ m.in_use j)
      → (used i ≡ true → i < max_threads)
      → Inv
          (record m { local_epoch = update m.local_epoch i max64; in_use = used })
          pc
          entered
          epochs
  left-Inv i used e same lt =
      let m' : Memory = record m { local_epoch = update m.local_epoch i max64; in_use = used } in
      let o : Onward m entered m' entered = record {
        grows = omega arith;
        newer = λ j c le h k. ground (arith, h);
      } in
      record {
        counted = inv.counted;
        room = inv.room;
        unused = λ j free. elim (ℕ_discrete i j) [
          | yes eq ↦ ground (arith, eq)
          | no ne ↦ ground (arith, inv.unused j, same j ne, ne)
        ];
        few = λ j u. elim (ℕ_discrete i j) [
          | yes eq ↦ ground (arith, eq, lt)
          | no ne ↦ ground (arith, inv.few j, same j ne, ne)
        ];
        entering = λ j en. elim (ℕ_discrete i j) [
          | yes eq ↦ ground (arith, eq, e)
          | no ne ↦ same j ne ∙ inv.entering j en
        ];
        inside = λ j h. ground (arith, inv.inside j);
        binned = inv.binned;
        locals = λ j. Local-Onward (pc j) o (inv.locals j);
      }

  -- Thread `i` publishes the epoch that it read.
  pub entered-Inv :
      (i e : ℕ)
      → e ≤ m.global_epoch
      → m.in_use i ≡ true
      → Inv
          (record m { local_epoch = update m.local_epoch i e })
          (update pc i idle)
          (update entered i m.global_epoch)
          epochs
  entered-Inv i e le used =
      let m' : Memory = record m { local_epoch = update m.local_epoch i e } in
      let o : Onward m entered m' (update entered i m.global_epoch) = record {
        grows = omega arith;
        newer = λ j c le' h k. ground (arith, h);
      } in
      record {
        counted = inv.counted;
        room = inv.room;
        unused = λ j free. ground (arith, inv.unused j, used, free);
        few = inv.few;
        entering =
            entering-update pc m.in_use m.in_use i idle inv.entering (λ _. used) (λ j _. refl);
        inside = λ j h. ground (arith, inv.inside j, inv.counted);
        binned = inv.binned;
        locals = locals-Onward pc i idle o inv.locals tt;
      }

  -- An advance: who is inside has entered at `c` or later.
  pub advanced-Inv :
      (i c : ℕ)
      → pc i ≡ cas c
      → m.global_epoch ≡ c
      → epochs + 1 < max64
      → Inv
          (record m { global_epoch = add64 c 1 })
          (update pc i (swap (add64 c 1)))
          entered
          (epochs + 1)
  advanced-Inv i c e same more =
      let own : (c ≤ m.global_epoch) × Passed m entered max_threads c =
        subst (Local m entered) e (inv.locals i) in
      let m' : Memory = record m { global_epoch = add64 c 1 } in
      let w : add64 c 1 ≡ m.global_epoch + 1 = omega (arith, same, inv.counted, more) in
      let o : Onward m entered m' entered = record {
        grows = omega (arith, w);
        newer = λ j c le h. h;
      } in
      record {
        counted = omega (arith, w, inv.counted);
        room = more;
        unused = inv.unused;
        few = inv.few;
        entering =
            entering-update pc m.in_use m.in_use i (swap (add64 c 1)) inv.entering (λ h. cc)
              (λ j _. refl);
        inside = λ j h.
            let lt : j < max_threads = ground (arith, beyond j, h) in
            omega (arith, inv.inside j h, own.1 j lt h, w, same);
        binned = λ k.
            Binned-le m.global_epoch (add64 c 1) k (m.retire_lists k) (omega (arith, w))
              (inv.binned k);
        locals = locals-Onward pc i (swap (add64 c 1)) o inv.locals (omega arith);
      }

  -- One of the lists changes.
  pub lists-Inv :
      (i k : ℕ) (nodes : List RetiredNode) (p : Pc)
      → Binned m.global_epoch k nodes
      → Local m entered p
      → is_entering p ≡ false
      → Inv
          (record m { retire_lists = update m.retire_lists k nodes })
          (update pc i p)
          entered
          epochs
  lists-Inv i k nodes p b new e =
      let m' : Memory = record m { retire_lists = update m.retire_lists k nodes } in
      let o : Onward m entered m' entered = record { grows = omega arith; newer = λ j c le h. h } in
      record {
        counted = inv.counted;
        room = inv.room;
        unused = inv.unused;
        few = inv.few;
        entering = entering-update pc m.in_use m.in_use i p inv.entering (λ h. cc) (λ j _. refl);
        inside = inv.inside;
        binned = λ j. elim (ℕ_discrete k j) [
          | yes eq ↦ rw (← eq, update_self m.retire_lists k nodes) b
          | no ne ↦ rw (update_ne m.retire_lists k j nodes ne) (inv.binned j)
        ];
        locals = locals-Onward pc i p o inv.locals (Local-Onward p o new);
      }
