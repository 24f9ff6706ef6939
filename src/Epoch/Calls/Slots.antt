-- ===== src/Epoch/Calls/Slots.antt =====
-- `register_thread` hands out the first free slot.
use native.Mathlib.Decide.{ℕ_discrete}
use lockless_concurrent_fram.Common.{
  ℕ, zero, suc, ◌+◌, ◌≤◌, ◌<◌, ◌≡◌, ◌⊎◌, inl, inr, refl, subst, Bool, true, false, Option, none,
  some, Bool-cases, arith,
}
use lockless_concurrent_fram.Epoch.{Memory, max_threads, take_slot, unregister_thread}
use lockless_concurrent_fram.Epoch.Calls.{find_slot, register_thread}

-- What a search from slot `i` on finds.
abbrev Found : ℕ → ℕ → (ℕ → Bool) → Option ℕ → Type 0
Found n i used none = (j : ℕ) → i ≤ j → j < i + n → used j ≡ true
Found n i used (some k) =
    (i ≤ k) × (k < i + n) × (used k ≡ false) × ((j : ℕ) → i ≤ j → j < k → used j ≡ true)

Found-suc :
    (n i : ℕ) (used : ℕ → Bool) (r : Option ℕ)
    → used i ≡ true
    → Found n (suc i) used r
    → Found (suc n) i used r
Found-suc n i used none e h = λ j le lt. elim (ℕ_discrete i j) [
  | yes eq ↦ subst (λ j. used j ≡ true) eq e
  | no ne ↦ h j (omega (arith, ne, le)) (omega (arith, lt))
]
Found-suc n i used (some k) e h = (
  omega (arith, h.0),
  omega (arith, h.1),
  h.2,
  λ j le lt. elim (ℕ_discrete i j) [
    | yes eq ↦ subst (λ j. used j ≡ true) eq e
    | no ne ↦ h.3 j (omega (arith, ne, le)) lt
  ],
)

find_slot-Found : (n i : ℕ) (used : ℕ → Bool) → Found n i used (find_slot n i used)
unfolding find_slot
find_slot-Found zero i used = λ j le lt. absurd (omega arith)
find_slot-Found (suc n) i used = elim (Bool-cases (used i)) [
  | inl e ↦ rw e (Found-suc n i used (find_slot n (suc i) used) e (find_slot-Found n (suc i) used))
  | inr e ↦ rw e (omega arith, omega arith, e, λ j le lt. absurd (omega arith))
]

-- register_thread changes nothing and returns no slot when all are in use; otherwise it takes the
-- first slot that is not, and unregister_thread gives that one back.
pub register_thread_lem :
    (m : Memory)
    → ((register_thread m ≡ (m, none)) × ((j : ℕ) → j < max_threads → m.in_use j ≡ true))
      ⊎ ((i : ℕ) × (register_thread m ≡ (take_slot i m, some i))
          × (i < max_threads)
          × (m.in_use i ≡ false)
          × ((j : ℕ) → j < i → m.in_use j ≡ true)
          × ((take_slot i m).in_use i ≡ true)
          × ((unregister_thread i (take_slot i m)).in_use i ≡ false))
unfolding register_thread take_slot unregister_thread
register_thread_lem m =
    by_result (find_slot max_threads 0 m.in_use) refl (find_slot-Found max_threads 0 m.in_use)
  where
    by_result :
        (r : Option ℕ)
        → find_slot max_threads 0 m.in_use ≡ r
        → Found max_threads 0 m.in_use (find_slot max_threads 0 m.in_use)
        → ((register_thread m ≡ (m, none)) × ((j : ℕ) → j < max_threads → m.in_use j ≡ true))
          ⊎ ((i : ℕ) × (register_thread m ≡ (take_slot i m, some i))
              × (i < max_threads)
              × (m.in_use i ≡ false)
              × ((j : ℕ) → j < i → m.in_use j ≡ true)
              × ((take_slot i m).in_use i ≡ true)
              × ((unregister_thread i (take_slot i m)).in_use i ≡ false))
    by_result none e h =
        let all : Found max_threads 0 m.in_use none = subst (Found max_threads 0 m.in_use) e h in
        inl (rw (e, register_thread) refl, λ j lt. all j (omega arith) lt)
    by_result (some i) e h =
        let one : Found max_threads 0 m.in_use (some i) =
          subst (Found max_threads 0 m.in_use) e h in
        inr (
          i,
          rw (e, register_thread) refl,
          one.1,
          one.2,
          (λ j lt. one.3 j (omega arith) lt),
          ground arith,
          ground (arith, one.1),
        )
