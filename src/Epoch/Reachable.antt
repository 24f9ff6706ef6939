-- ===== src/Epoch/Reachable.antt =====
-- The invariant of `EpochReclaimer` at its start, after every step, and in every reachable state.
use lockless_concurrent_fram.Common.{
  ℕ, ◌+◌, ◌%◌, ◌≤◌, ◌<◌, ◌≡◌, ◌≢◌, refl, subst, true, false, inl, inr, [], ◌∷◌, ◌++◌, ltb, ◌==◌,
  ==_iff, Bool-cases, update, update_ne, arith,
}
use lockless_concurrent_fram.Common.Words.{max64}
use lockless_concurrent_fram.Epoch.{
  RetiredNode, Memory, Pc, idle, enter_load, enter_store, retire_load, retire_push, advance_load,
  scan_use, scan_epoch, cas, swap, delete, max_threads, num_epochs, is_behind, step, leave_critical,
  take_slot, unregister_thread, System, entered_after, epochs_after, advance, start, Step,
  call_register, call_unregister, call_enter, call_leave, call_retire, move, Reach, here, next,
}
use lockless_concurrent_fram.Epoch.Invariant.{Passed, Local, Inv, Binned-snoc}
use lockless_concurrent_fram.Epoch.Kept.{quiet-Inv, left-Inv, entered-Inv, advanced-Inv, lists-Inv}

module _ {m : Memory} {pc : ℕ → Pc} {entered : ℕ → ℕ} {epochs : ℕ}
    (inv : Inv m pc entered epochs) where
  -- What the scan has learnt when it goes on from slot `k`.
  Passed-suc :
      (k c : ℕ)
      → Passed m entered k c
      → (m.local_epoch k ≢ max64 → c ≤ entered k)
      → Passed m entered (k + 1) c
  Passed-suc k c p new j lt h = elim (Bool-cases (j == k)) [
    | inl e ↦ ground (arith, e, new, h)
    | inr e ↦ p j (ground (arith, e, lt)) h
  ]

  scan_use-Local :
      (k c : ℕ)
      → c ≤ m.global_epoch
      → Passed m entered k c
      → Local m entered (step 0 m (scan_use k c)).1
  unfolding step
  scan_use-Local k c le p = elim (Bool-cases (ltb k max_threads)) [
    | inl lt ↦ elim (Bool-cases (m.in_use k)) [
      | inl used ↦ rw (lt, used) (le, p)
      | inr free ↦ rw (lt, free) (le, Passed-suc k c p (λ h. absurd (h (inv.unused k free))))
    ]
    | inr ge ↦ rw ge (le, λ j lt. p j (ground (arith, ge, lt)))
  ]

  scan_epoch-Local :
      (k c : ℕ)
      → c ≤ m.global_epoch
      → Passed m entered k c
      → Local m entered (step 0 m (scan_epoch k c)).1
  unfolding step is_behind
  scan_epoch-Local k c le p = elim (Bool-cases (is_behind (m.local_epoch k) c)) [
    | inl behind ↦ rw behind tt
    | inr level ↦ rw level (le, Passed-suc k c p (λ h. ground (arith, level, h, inv.inside k)))
  ]

  step-Inv :
      (i : ℕ) (p : Pc)
      → pc i ≡ p
      → epochs_after p (step i m p).1 epochs < max64
      → let (m', p', e) = step i m p in
        Inv m'
          (update pc i p')
          (entered_after i p m.global_epoch entered)
          (epochs_after p p' epochs)
  unfolding step
  step-Inv i idle e room = quiet-Inv inv i idle tt (λ h. cc)
  step-Inv i enter_load e room =
      quiet-Inv inv i (enter_store m.global_epoch) (omega arith) (λ _. inv.entering i (rw e refl))
  step-Inv i (enter_store epoch) e room =
      entered-Inv inv i epoch (subst (Local m entered) e (inv.locals i))
        (inv.entering i (rw e refl))
  step-Inv i (retire_load ptr) e room =
      quiet-Inv inv i (retire_push ptr m.global_epoch) (omega arith) (λ h. cc)
  step-Inv i (retire_push ptr epoch) e room =
      let le : epoch ≤ m.global_epoch = subst (Local m entered) e (inv.locals i) in
      let k : ℕ = epoch % num_epochs in
      let node : RetiredNode = record { ptr = ptr; epoch = epoch } in
      lists-Inv inv i k (m.retire_lists k ++ node ∷ []) advance_load
        (Binned-snoc m.global_epoch k (m.retire_lists k) node (inv.binned k) refl le) tt refl
  step-Inv i advance_load e room =
      quiet-Inv inv i (scan_use 0 m.global_epoch) (omega arith, λ j lt h. absurd (omega arith))
        (λ h. cc)
  step-Inv i (scan_use k c) e room =
      let own : (c ≤ m.global_epoch) × Passed m entered k c =
        subst (Local m entered) e (inv.locals i) in
      quiet-Inv inv i (step i m (scan_use k c)).1 (scan_use-Local k c own.0 own.1)
        (λ h. ground arith)
  step-Inv i (scan_epoch k c) e room =
      let own : (c ≤ m.global_epoch) × Passed m entered k c =
        subst (Local m entered) e (inv.locals i) in
      quiet-Inv inv i (step i m (scan_epoch k c)).1 (scan_epoch-Local k c own.0 own.1)
        (λ h. ground arith)
  step-Inv i (cas c) e room = elim (Bool-cases (m.global_epoch == c)) [
    | inl same ↦ rw same (advanced-Inv inv i c e ((==_iff _ _).0 same) (rw same at room))
    | inr other ↦ rw other (quiet-Inv inv i idle tt (λ h. cc))
  ]
  step-Inv i (swap n) e room =
      lists-Inv inv i (n % num_epochs) [] (delete (m.retire_lists (n % num_epochs))) tt tt refl
  step-Inv i (delete []) e room = quiet-Inv inv i idle tt (λ h. cc)
  step-Inv i (delete (x ∷ xs)) e room = quiet-Inv inv i (delete xs) tt (λ h. cc)

abbrev pub Inv-System : System → Type 0
Inv-System s = Inv s.mem s.pc s.entered s.epochs

start-Inv : Inv-System start
unfolding start
start-Inv = record {
  counted = refl;
  room = omega arith;
  unused = λ i e. refl;
  few = λ i e. cc;
  entering = λ i e. cc;
  inside = λ i h. absurd (h refl);
  binned = λ k. tt;
  locals = λ j. tt;
}

-- Every step keeps the invariant, as long as the epoch has not come near the end of its range.
pub Step-Inv : {i : ℕ} {s t : System} → Step i s t → t.epochs < max64 → Inv-System s → Inv-System t
unfolding advance leave_critical take_slot unregister_thread
Step-Inv {i} {s} (call_register e free lt) room inv =
    left-Inv inv i (update s.mem.in_use i true) e (λ j ne. update_ne s.mem.in_use i j true ne)
      (λ _. lt)
Step-Inv {i} {s} (call_unregister e) room inv = elim (Bool-cases (ltb i max_threads)) [
  | inl lt ↦ rw lt (
      left-Inv inv i (update s.mem.in_use i false) e (λ j ne. update_ne s.mem.in_use i j false ne)
        (λ _. ground (arith, lt)))
  | inr ge ↦ rw ge inv
]
Step-Inv {i} {s} (call_enter e used out) room inv = quiet-Inv inv i enter_load tt (λ _. used)
Step-Inv {i} {s} (call_leave e) room inv = left-Inv inv i s.mem.in_use e (λ j _. refl) (inv.few i)
Step-Inv {i} {s} (call_retire ptr e) room inv = quiet-Inv inv i (retire_load ptr) tt (λ h. cc)
Step-Inv {i} {s} move room inv = step-Inv inv i (s.pc i) refl room

epochs_after-le : (p q : Pc) (n : ℕ) → n ≤ epochs_after p q n
epochs_after-le (cas c) (swap n) k = omega arith
epochs_after-le p q k = ground arith

pub epochs-Step : {i : ℕ} {s t : System} → Step i s t → s.epochs ≤ t.epochs
unfolding advance
epochs-Step {i} {s} move = epochs_after-le (s.pc i) (step i s.mem (s.pc i)).1 s.epochs
epochs-Step st = ground arith

pub Reach-Inv : {s : System} → Reach s → s.epochs < max64 → Inv-System s
Reach-Inv here room = start-Inv
Reach-Inv (next i r st) room = Step-Inv st room (Reach-Inv r (omega (arith, epochs-Step st)))
