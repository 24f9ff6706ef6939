-- ===== src/Map/Rounds.antt =====
-- The buckets that one key meets are all different.
use native.Mathlib.Nat.{mod-lt, mod-eq_of_lt, mod-eq-sub-mod}
use lockless_concurrent_fram.Common.{
  ℕ, ◌+◌, ◌-◌, ◌%◌, ◌≤◌, ◌<◌, ◌≡◌, ◌⊎◌, inl, inr, ◌∙◌, ap, ltb, ltb→lt, ltb-false→ge, Bool-cases,
  arith,
}
use lockless_concurrent_fram.Common.Words.{add64}
use lockless_concurrent_fram.Map.{bucket}

-- Within the first `size` rounds the index goes round at most once.
bucket-cases :
    {K : Type 0} (size : ℕ) (hash : K → ℕ) (key : K) (i : ℕ)
    → i < size
    → size ≤ 0x8000_0000_0000_0000
    → let a = hash key % size in
      ((a + i < size) × (bucket size hash key i ≡ a + i))
      ⊎ ((size ≤ a + i) × (bucket size hash key i ≡ a + i - size))
unfolding bucket
bucket-cases size hash key i lt small =
    let a = hash key % size in
    let below : a < size = mod-lt (hash key) (omega (arith, lt)) in
    let sum : add64 a i ≡ a + i = omega (arith, below, lt, small) in
    elim (Bool-cases (ltb (a + i) size)) [
      | inl less ↦ inl (ltb→lt _ _ less, ap (λ n. n % size) sum ∙ mod-eq_of_lt (ltb→lt _ _ less))
      | inr ge ↦
          let over : size ≤ a + i = ltb-false→ge _ _ ge in
          inr (
            over,
            ap (λ n. n % size) sum
                ∙ (mod-eq-sub-mod over ∙ mod-eq_of_lt (omega (arith, below, lt, over))),
          )
    ]

pub bucket-injective :
    {K : Type 0} (size : ℕ) (hash : K → ℕ) (key : K) (i j : ℕ)
    → size ≤ 0x8000_0000_0000_0000
    → i < size
    → j < size
    → bucket size hash key i ≡ bucket size hash key j
    → i ≡ j
bucket-injective size hash key i j small in_i in_j e =
    let below : hash key % size < size = mod-lt (hash key) (omega (arith, in_i)) in
    elim (bucket-cases size hash key i in_i small) [
      | inl (o, f) ↦ elim (bucket-cases size hash key j in_j small) [
        | inl (p, g) ↦ omega (arith, e, o, p, f, g)
        | inr (p, g) ↦ omega (arith, e, o, p, f, g, in_j, below)
      ]
      | inr (o, f) ↦ elim (bucket-cases size hash key j in_j small) [
        | inl (p, g) ↦ omega (arith, e, o, p, f, g, in_i, below)
        | inr (p, g) ↦ omega (arith, e, o, p, f, g)
      ]
    ]
