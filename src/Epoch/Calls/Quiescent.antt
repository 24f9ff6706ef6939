-- ===== src/Epoch/Calls/Quiescent.antt =====
-- When `retire` deletes, and what.
use native.Mathlib.Decide.{ℕ_discrete}
use lockless_concurrent_fram.Common.{
  ℕ, zero, suc, ◌+◌, ◌%◌, ◌≤◌, ◌<◌, ◌≡◌, ◌≢◌, ◌⊎◌, inl, inr, refl, subst, ap, ◌∙◌, Bool, true,
  false, [], ◌∷◌, ◌++◌, Bool-cases, update, arith,
}
use lockless_concurrent_fram.Common.Words.{add64, max64}
use lockless_concurrent_fram.Epoch.{Memory, max_threads, num_epochs, is_behind}
use lockless_concurrent_fram.Epoch.Calls.{all_current, try_advance, push_retired, retire}

-- The thread of slot `i` is inside, and entered in another epoch than the current one.
abbrev pub IsBehind : Memory → ℕ → Type 0
IsBehind m i = (m.in_use i ≡ true) × (m.local_epoch i ≢ max64) × (m.local_epoch i ≢ m.global_epoch)

-- How a scan of `n` slots from slot `i` on ends.
abbrev Scanned : ℕ → ℕ → Memory → Bool → Type 0
Scanned n i m true = (j : ℕ) → i ≤ j → j < i + n → ¬ IsBehind m j
Scanned n i m false = (j : ℕ) × (i ≤ j) × (j < i + n) × IsBehind m j

Scanned-suc :
    (n i : ℕ) (m : Memory) (b : Bool)
    → ¬ IsBehind m i
    → Scanned n (suc i) m b
    → Scanned (suc n) i m b
Scanned-suc n i m true out h = λ j le lt. elim (ℕ_discrete i j) [
  | yes eq ↦ subst (λ j. ¬ IsBehind m j) eq out
  | no ne ↦ h j (omega (arith, ne, le)) (omega (arith, lt))
]
Scanned-suc n i m false out h = (h.0, omega (arith, h.1), omega (arith, h.2), h.3)

all_current-Scanned : (n i : ℕ) (m : Memory) → Scanned n i m (all_current n i m m.global_epoch)
unfolding all_current is_behind
all_current-Scanned zero i m = λ j le lt. absurd (omega arith)
all_current-Scanned (suc n) i m =
    let later = all_current-Scanned n (suc i) m in
    elim (Bool-cases (m.in_use i)) [
      | inr free ↦ rw free (
          Scanned-suc n i m (all_current n (suc i) m m.global_epoch)
            (λ h. ground (arith, h.0, free)) later)
      | inl used ↦ elim (Bool-cases (is_behind (m.local_epoch i) m.global_epoch)) [
        | inl behind ↦
            rw (used, behind)
              (i, omega arith, omega arith, (used, ground (arith, behind), ground (arith, behind)))
        | inr level ↦
            rw (used, level)
              (Scanned-suc n i m (all_current n (suc i) m m.global_epoch)
                (λ h. ground (arith, h.1, h.2, level)) later)
      ]
    ]

-- What an advance leaves behind.
abbrev pub advanced : Memory → Memory
advanced m = record m {
  global_epoch = m.global_epoch + 1;
  retire_lists = update m.retire_lists ((m.global_epoch + 1) % num_epochs) [];
}

try_advance-cases :
    (m : Memory)
    → m.global_epoch + 1 < max64
    → (((i : ℕ) → i < max_threads → ¬ IsBehind m i)
        × (try_advance m ≡ (advanced m, m.retire_lists ((m.global_epoch + 1) % num_epochs))))
      ⊎ ((i : ℕ) × (i < max_threads) × IsBehind m i × (try_advance m ≡ (m, [])))
unfolding try_advance
try_advance-cases m room =
    by_result (all_current max_threads 0 m m.global_epoch) refl
      (all_current-Scanned max_threads 0 m)
  where
    by_result :
        (b : Bool)
        → all_current max_threads 0 m m.global_epoch ≡ b
        → Scanned max_threads 0 m (all_current max_threads 0 m m.global_epoch)
        → (((i : ℕ) → i < max_threads → ¬ IsBehind m i)
            × (try_advance m ≡ (advanced m, m.retire_lists ((m.global_epoch + 1) % num_epochs))))
          ⊎ ((i : ℕ) × (i < max_threads) × IsBehind m i × (try_advance m ≡ (m, [])))
    by_result true e h =
        let all : Scanned max_threads 0 m true = subst (Scanned max_threads 0 m) e h in
        let w : add64 m.global_epoch 1 ≡ m.global_epoch + 1 = omega (arith, room) in
        inl ((λ i lt. all i (omega arith) lt), rw (e, w, try_advance) refl)
    by_result false e h =
        let one : Scanned max_threads 0 m false = subst (Scanned max_threads 0 m) e h in
        inr (one.0, one.2, one.3, rw (e, try_advance) refl)

-- While the epoch is far from its end, a `retire` that runs alone does one of two things: no slot
-- in use is behind, and it puts the object into the list of the current epoch, advances, empties
-- the next epoch's list and deletes what was there; or some slot in use is behind, and it only
-- puts the object into the list.
pub retire_lem :
    (m : Memory) (ptr : ℕ)
    → m.global_epoch + 1 < max64
    → (((i : ℕ) → i < max_threads → ¬ IsBehind m i)
        × (retire m ptr
            ≡ (advanced (push_retired m ptr), m.retire_lists ((m.global_epoch + 1) % num_epochs))))
      ⊎ ((i : ℕ) × (i < max_threads) × IsBehind m i × (retire m ptr ≡ (push_retired m ptr, [])))
unfolding retire push_retired
retire_lem m ptr room =
    let other : (push_retired m ptr).retire_lists ((m.global_epoch + 1) % num_epochs)
        ≡ m.retire_lists ((m.global_epoch + 1) % num_epochs) =
      ground arith in
    elim (try_advance-cases (push_retired m ptr) room) [
      | inl (all, e) ↦ inl (all, e ∙ ap (λ l. (advanced (push_retired m ptr), l)) other)
      | inr blocked ↦ inr blocked
    ]

-- Nobody is inside.
abbrev pub IsQuiet : Memory → Type 0
IsQuiet m = (i : ℕ) → m.local_epoch i ≡ max64

retire-quiet :
    (m : Memory) (ptr : ℕ)
    → IsQuiet m
    → m.global_epoch + 1 < max64
    → retire m ptr
      ≡ (advanced (push_retired m ptr), m.retire_lists ((m.global_epoch + 1) % num_epochs))
retire-quiet m ptr quiet room = elim (retire_lem m ptr room) [
  | inl (all, e) ↦ e
  | inr (i, lt, behind, e) ↦ absurd (behind.1 (quiet i))
]

-- With nobody inside, while the epoch is far from its end, the third of three calls of `retire`
-- that run alone deletes what the list of the first call's epoch held, with the first call's
-- object.
pub deleted_by_third :
    (m : Memory) (p q z : ℕ)
    → IsQuiet m
    → m.global_epoch + 3 < max64
    → (retire (retire (retire m p).0 q).0 z).1
      ≡ m.retire_lists (m.global_epoch % num_epochs)
        ++ record { ptr = p; epoch = m.global_epoch } ∷ []
unfolding push_retired
deleted_by_third m p q z quiet room =
    let m₁ : Memory = advanced (push_retired m p) in
    let m₂ : Memory = advanced (push_retired m₁ q) in
    let e₁ : (retire m p).0 ≡ m₁ = ap (λ r. r.0) (retire-quiet m p quiet (omega (arith, room))) in
    let e₂ : (retire m₁ q).0 ≡ m₂ = ap (λ r. r.0) (retire-quiet m₁ q quiet (omega (arith, room))) in
    let e₃ : (retire m₂ z).1 ≡ m₂.retire_lists ((m₂.global_epoch + 1) % num_epochs) =
      ap (λ r. r.1) (retire-quiet m₂ z quiet (omega (arith, room))) in
    let turn : (m.global_epoch + 1 + 1 + 1) % num_epochs ≡ m.global_epoch % num_epochs =
      omega arith in
    rw (e₁, e₂) (e₃ ∙ ground (arith, turn))
