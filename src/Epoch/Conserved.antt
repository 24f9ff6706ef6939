-- ===== src/Epoch/Conserved.antt =====
-- What becomes of the objects given to `retire`.
use mathlib.Core.List.{map}
use lockless_concurrent_fram.Common.{
  ℕ, suc, ◌+◌, ◌≤◌, ◌<◌, ◌≡◌, refl, ap, inl, inr, List, [], ◌∷◌, ◌++◌, ltb, Bool-cases, arith,
}
use lockless_concurrent_fram.Common.Sums.{total, total-zero, total-nothing}
use lockless_concurrent_fram.Epoch.{
  Memory, idle, enter_load, retire_load, max_threads, step, leave_critical, take_slot,
  unregister_thread, System, advance, start, Step, call_register, call_unregister, call_enter,
  call_leave, call_retire, move, Reach, here, next,
}
use lockless_concurrent_fram.Epoch.Calls.{destroy}
use lockless_concurrent_fram.Epoch.Counts.{
  times, listed, pending, carried, times-append, times-map, step-pending, total-update,
}

-- The objects given to `retire` so far, and a number that no thread at work reaches.
abbrev retired_after : {i : ℕ} {s t : System} → Step i s t → List ℕ → List ℕ
retired_after (call_register e f g) xs = xs
retired_after (call_unregister e) xs = xs
retired_after (call_enter e f g) xs = xs
retired_after (call_leave e) xs = xs
retired_after (call_retire ptr e) xs = xs ++ ptr ∷ []
retired_after move xs = xs

abbrev pub retired_objects : {s : System} → Reach s → List ℕ
retired_objects here = []
retired_objects (next i r st) = retired_after st (retired_objects r)

abbrev threads : {s : System} → Reach s → ℕ
threads here = 0
threads (next i r st) = threads r + suc i

abbrev Accounted : ℕ → ℕ → System → List ℕ → Type 0
Accounted x n s given =
    pending x s.mem + times x s.freed + total n (λ j. carried x (s.pc j)) ≡ times x given

unregister_thread-lists :
    (i : ℕ) (m : Memory)
    → let m' = unregister_thread i m in
      (m'.retire_lists 0 ≡ m.retire_lists 0)
      × (m'.retire_lists 1 ≡ m.retire_lists 1)
      × (m'.retire_lists 2 ≡ m.retire_lists 2)
unfolding unregister_thread
unregister_thread-lists i m = elim (Bool-cases (ltb i max_threads)) [
  | inl e ↦ rw e (refl, refl, refl)
  | inr e ↦ rw e (refl, refl, refl)
]

Step-Accounted :
    (x n i : ℕ) {s t : System} (st : Step i s t) (given : List ℕ)
    → i < n
    → Accounted x n s given
    → Accounted x n t (retired_after st given)
unfolding advance take_slot leave_critical
Step-Accounted x n i (call_register e f g) given lt h = h
Step-Accounted x n i {s} (call_unregister e) given lt h =
    let (a, b, c) = unregister_thread-lists i s.mem in
    omega (arith, h, ap (listed x) a, ap (listed x) b, ap (listed x) c)
Step-Accounted x n i {s} (call_enter e f g) given lt h =
    omega (arith, h, total-update x n i s.pc enter_load lt, ap (carried x) e)
Step-Accounted x n i (call_leave e) given lt h = h
Step-Accounted x n i {s} (call_retire ptr e) given lt h = omega (
  arith,
  h,
  total-update x n i s.pc (retire_load ptr) lt,
  ap (carried x) e,
  times-append x given (ptr ∷ []),
)
Step-Accounted x n i {s} move given lt h =
    let (m, p, e) = step i s.mem (s.pc i) in
    omega (arith, h, step-pending x i s.mem (s.pc i) s.freed, total-update x n i s.pc p lt)

Reach-Accounted :
    (x n : ℕ) {s : System} (r : Reach s) → threads r ≤ n → Accounted x n s (retired_objects r)
unfolding start
Reach-Accounted x n here le = omega (arith, total-nothing n)
Reach-Accounted x n (next i r st) le =
    Step-Accounted x n i st (retired_objects r) (omega (arith, le))
      (Reach-Accounted x n r (omega (arith, le)))

destroy-pending : (x : ℕ) (m : Memory) → times x (destroy m) ≡ pending x m
unfolding destroy
destroy-pending x m =
    let last = map (λ n. n.ptr) (m.retire_lists 2) in
    let middle = map (λ n. n.ptr) (m.retire_lists 1) in
    omega (
      arith,
      times-append x (map (λ n. n.ptr) (m.retire_lists 0)) (middle ++ last),
      times-append x middle last,
      times-map x (m.retire_lists 0),
      times-map x (m.retire_lists 1),
      times-map x (m.retire_lists 2),
    )

-- In every state that threads reach from a new reclaimer, when no thread with a number from `n` on
-- is at work: each object has been given to `retire` as often as it has been deleted, or lies in a
-- list, for the destructor to delete, or is in the hands of a thread below `n` that has yet to put
-- it into a list or to delete it.
pub conserved :
    {s : System} (r : Reach s) (x n : ℕ)
    → ((i : ℕ) → n ≤ i → s.pc i ≡ idle)
    → times x (s.freed ++ destroy s.mem) + total n (λ i. carried x (s.pc i))
      ≡ times x (retired_objects r)
conserved {s} r x n quiet = omega (
  arith,
  Reach-Accounted x (threads r + n) r (omega arith),
  total-zero (threads r) n (λ i. carried x (s.pc i)) (λ i le. ap (carried x) (quiet i le)),
  times-append x s.freed (destroy s.mem),
  destroy-pending x s.mem,
)
