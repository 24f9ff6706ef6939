-- ===== src/Ring/Consumed.antt =====
-- What was taken out of a ring, as a collection, beside what was pushed.
use mathlib.Core.List.{map}
use native.Mathlib.Nat.{suc-mul, add_comm}
use lockless_concurrent_fram.Common.{
  ℕ, zero, suc, ◌+◌, ◌*◌, ◌≤◌, ◌<◌, ◌≡◌, sym, ap, ◌∙◌, inl, inr, some, List, [], ◌∷◌, length,
  get_elem?, take, take-nil, ltb, ◌==◌, if◌then◌else◌, Bool-cases, arith,
}
use lockless_concurrent_fram.Common.Sums.{
  total, total-same, total-nothing, total-add, total_single, total_front, weight,
}
use lockless_concurrent_fram.Ring.History.{times, Genuine}

one_more : (k v : ℕ) → (1 + k) * v ≡ v + k * v
one_more k v =
    let e : 1 + k ≡ suc k = omega arith in ap (λ a. a * v) e ∙ suc-mul k v ∙ add_comm (k * v) v

module _ {T : Type 0} (w : T → ℕ) where
  abbrev weight_at : List T → ℕ → ℕ
  weight_at [] t = 0
  weight_at (x ∷ log) zero = w x
  weight_at (x ∷ log) (suc t) = weight_at log t

  weight_at_lem :
      (log : List T) (t : ℕ) {x : T}
      → get_elem? log t ≡ some x
      → (weight_at log t ≡ w x) × (t < length log)
  weight_at_lem [] t e = cc
  weight_at_lem (y ∷ log) zero {x} e = let f : y ≡ x = cc in (ap w f, omega arith)
  weight_at_lem (y ∷ log) (suc t) e = let (f, lt) = weight_at_lem log t e in (f, omega (arith, lt))

  weight-take :
      (log : List T) (k : ℕ)
      → weight w (take k log) ≡ total (length log) (λ t. if ltb t k then weight_at log t else 0)
  weight-take [] k = ap (weight w) (take-nil T k)
  weight-take (x ∷ log) zero = sym (
      total-same (suc (length log)) (λ t. if ltb t 0 then weight_at (x ∷ log) t else 0) (λ _. 0)
        (λ t _. ground arith)
      ∙ total-nothing (suc (length log)))
  weight-take (x ∷ log) (suc k) =
      let f = λ (t : ℕ). if ltb t (suc k) then weight_at (x ∷ log) t else 0 in
      let g = λ (t : ℕ). if ltb t k then weight_at log t else 0 in
      let first : f 0 ≡ w x = ground arith in
      let later : total (length log) (λ t. f (suc t)) ≡ total (length log) g =
        total-same (length log) (λ t. f (suc t)) g (λ t _. ground arith) in
      omega (arith, weight-take log k, total_front (length log) f, first, later)

  -- Entry by entry, and ticket by ticket.
  weight-times :
      (log : List T) (out : List (ℕ × T))
      → Genuine log out
      → weight w (map (λ e. e.1) out) ≡ total (length log) (λ t. times t out * weight_at log t)
  unfolding times
  weight-times log [] g = sym (
      total-same (length log) (λ t. 0 * weight_at log t) (λ _. 0) (λ t _. omega arith)
      ∙ total-nothing (length log))
  weight-times log ((u, x) ∷ out) (e, g) =
      let (value, lt) = weight_at_lem log u e in
      let here = λ (t : ℕ). if u == t then weight_at log t else 0 in
      let others = λ (t : ℕ). times t out * weight_at log t in
      let split : total (length log) (λ t. times t ((u, x) ∷ out) * weight_at log t)
          ≡ total (length log) (λ t. here t + others t) =
        total-same (length log) (λ t. times t ((u, x) ∷ out) * weight_at log t)
          (λ t. here t + others t)
          (λ t _. elim (Bool-cases (u == t)) [
            | inl same ↦ rw same (one_more (times t out) (weight_at log t))
            | inr other ↦ rw other (omega arith)
          ]) in
      let alone : total (length log) here ≡ here u =
        total_single (length log) u here lt (λ t ne. ground (arith, ne)) in
      let value' : here u ≡ w x = ground (arith, value) in
      omega
        (arith, weight-times log out g, split, total-add (length log) here others, alone, value')

  -- Each of the first `k` tickets was taken once, and no other.
  pub weight-taken :
      (log : List T) (out : List (ℕ × T)) (k : ℕ)
      → Genuine log out
      → ((t : ℕ) → t < k → times t out ≡ 1)
      → ((t : ℕ) → k ≤ t → times t out ≡ 0)
      → weight w (map (λ e. e.1) out) ≡ weight w (take k log)
  weight-taken log out k g once not_yet =
      weight-times log out g
      ∙ total-same (length log) (λ t. times t out * weight_at log t)
          (λ t. if ltb t k then weight_at log t else 0)
          (λ t _. elim (Bool-cases (ltb t k)) [
            | inl lt ↦ rw (lt, once t (ground (arith, lt))) (omega arith)
            | inr ge ↦ rw (ge, not_yet t (ground (arith, ge))) (omega arith)
          ])
      ∙ sym (weight-take log k)
