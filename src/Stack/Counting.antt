-- ===== src/Stack/Counting.antt =====
-- How many indices a list without repetition can hold.
use lockless_concurrent_fram.Common.{
  ℕ, zero, suc, ◌+◌, ◌≤◌, ◌≡◌, refl, subst, inl, inr, List, [], ◌∷◌, length, ◌==◌, ==_iff,
  Bool-cases, if◌then◌else◌, arith,
}
use lockless_concurrent_fram.Stack.Chain.{NotIn, Distinct, Below}

without : ℕ → List ℕ → List ℕ
without n [] = []
without n (i ∷ xs) = let rest = without n xs in if i == n then rest else i ∷ rest

without-NotIn : (n : ℕ) (xs : List ℕ) → NotIn n xs → without n xs ≡ xs
unfolding without
without-NotIn n [] out = refl
without-NotIn n (i ∷ xs) out = ground (arith, without-NotIn n xs, out)

without-keeps : (n k : ℕ) (xs : List ℕ) → NotIn k xs → NotIn k (without n xs)
unfolding without
without-keeps n k [] out = tt
without-keeps n k (i ∷ xs) out = elim (Bool-cases (i == n)) [
  | inl e ↦ rw e (without-keeps n k xs out.1)
  | inr e ↦ rw e (out.0, without-keeps n k xs out.1)
]

without-Distinct : (n : ℕ) (xs : List ℕ) → Distinct xs → Distinct (without n xs)
unfolding without
without-Distinct n [] d = tt
without-Distinct n (i ∷ xs) d = elim (Bool-cases (i == n)) [
  | inl e ↦ rw e (without-Distinct n xs d.1)
  | inr e ↦ rw e (without-keeps n i xs d.0, without-Distinct n xs d.1)
]

without-Below : (n : ℕ) (xs : List ℕ) → Below (suc n) xs → Below n (without n xs)
unfolding without
without-Below n [] b = tt
without-Below n (i ∷ xs) b = elim (Bool-cases (i == n)) [
  | inl e ↦ rw e (without-Below n xs b.1)
  | inr e ↦ rw e (ground (arith, e, b.0), without-Below n xs b.1)
]

length-without : (n : ℕ) (xs : List ℕ) → Distinct xs → length xs ≤ length (without n xs) + 1
unfolding without
length-without n [] d = omega arith
length-without n (i ∷ xs) d = elim (Bool-cases (i == n)) [
  | inl e ↦
      let eq : i ≡ n = (==_iff _ _).0 e in
      rw (e, without-NotIn n xs (subst (λ k. NotIn k xs) eq d.0)) (omega arith)
  | inr e ↦ rw e (omega (arith, length-without n xs d.1))
]

-- Distinct indices below `n` are at most `n`.
pub length-Distinct : (n : ℕ) (xs : List ℕ) → Distinct xs → Below n xs → length xs ≤ n
length-Distinct zero [] d b = omega arith
length-Distinct zero (i ∷ xs) d b = absurd (omega (arith, b.0))
length-Distinct (suc n) xs d b = omega (
  arith,
  length-without n xs d,
  length-Distinct n (without n xs) (without-Distinct n xs d) (without-Below n xs b),
)
