-- ===== src/Map/Shared/Found.antt =====
-- What a whole call of `find` makes of the table as it stands between two steps of the threads.
use native.Mathlib.Decide.{ℕ_discrete}
use lockless_concurrent_fram.Common.{
  IsIn, ℕ, zero, suc, ◌+◌, ◌≤◌, ◌<◌, ◌≡◌, ◌↔◌, ◌⊎◌, inl, inr, sym, subst, Bool, true, false,
  Bool-cases, List, arith,
}
use lockless_concurrent_fram.Map.{Node, Answer, found, waits, bucket, find_probe, find}
use lockless_concurrent_fram.Map.Shared.Invariant.{Taken, Placed}

module _ {K V : Type 0} (size : ℕ) (hash : K → ℕ) (same : K → K → Bool) where
  -- `find` waits for a bucket that is taken and not ready, or returns a value of the key that is in the list.
  abbrev pub IsMet : (ℕ → Node K V) → List (K × V) → K → Answer V → Type 0
  IsMet m log k answer =
      ((answer ≡ waits)
        × (i : ℕ) × (i < size)
        × ((m (bucket size hash k i)).occupied ≡ true)
        × ((m (bucket size hash k i)).ready ≡ false))
      ⊎ ((w : V) × (answer ≡ found w) × IsIn (k, w) log)

  module _ (equal : (a b : K) → (same a b ≡ true) ↔ (a ≡ b)) (m : ℕ → Node K V) (log : List (K × V))
      (sound : (j : ℕ) → (m j).ready ≡ true → (m j).occupied ≡ true)
      (logged : (j : ℕ) → (m j).ready ≡ true → IsIn ((m j).key, (m j).value) log) (k : K) (r : ℕ)
      (bound : r < size) (ready : (m (bucket size hash k r)).ready ≡ true)
      (key : (m (bucket size hash k r)).key ≡ k) (taken : Taken size hash m k r) where
    reached : (i : ℕ) → i ≤ r → (m (bucket size hash k i)).occupied ≡ true
    reached i le = elim (ℕ_discrete i r) [
      | yes here ↦
          subst (λ i. (m (bucket size hash k i)).occupied ≡ true) (sym here) (sound _ ready)
      | no ne ↦ taken i (omega (arith, le, ne))
    ]

    find_probe-IsMet :
        (n i : ℕ) → i ≤ r → r < i + n → IsMet m log k (find_probe size hash same n i m k)
    unfolding find_probe
    find_probe-IsMet zero i le lt = absurd (omega (arith, le, lt))
    find_probe-IsMet (suc n) i le lt =
        let b = bucket size hash k i in
        let occupied = reached i le in
        elim (Bool-cases (m b).ready) [
          | inr unready ↦
              inl
                (ground (arith, occupied, unready), i, omega (arith, le, bound), occupied, unready)
          | inl written ↦ elim (Bool-cases (same (m b).key k)) [
            | inl hit ↦ inr (
              (m b).value,
              ground (arith, occupied, written, hit),
              subst (λ a. IsIn (a, (m b).value) log) ((equal _ _).0 hit) (logged b written),
            )
            | inr other ↦ elim (ℕ_discrete i r) [
              | yes here ↦ absurd (
                  ground (
                    arith,
                    other,
                    (equal (m b).key k).1
                        (subst (λ i. (m (bucket size hash k i)).key ≡ k) (sym here) key),
                  ))
              | no ne ↦
                  subst (IsMet m log k) (sym (ground (arith, occupied, written, other)))
                    (find_probe-IsMet n (suc i) (omega (arith, le, ne)) (omega (arith, lt)))
            ]
          ]
        ]

  pub find-IsMet :
      ((a b : K) → (same a b ≡ true) ↔ (a ≡ b))
      → (m : ℕ → Node K V) (log : List (K × V))
      → ((j : ℕ) → (m j).ready ≡ true → (m j).occupied ≡ true)
      → ((j : ℕ) → (m j).ready ≡ true → IsIn ((m j).key, (m j).value) log)
      → (k : K) (v : V) → Placed size hash m (k, v)
      → IsMet m log k (find size hash same m k)
  unfolding find
  find-IsMet equal m log sound logged k v (r, lt, ready, key, value, taken) =
      find_probe-IsMet equal m log sound logged k r lt ready key taken size 0 (omega arith)
        (omega (arith, lt))
