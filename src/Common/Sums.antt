-- ===== src/Common/Sums.antt =====
-- Sums over the numbers below a bound, and over the items of a list.
use Prim.Native.Nat.{ℕ, zero, suc, ◌+◌, ◌*◌, ◌≤◌, ◌<◌}
use mathlib.Core.Path.{◌≡◌, refl, ap, subst}
use mathlib.Core.Logic.{◌≢◌}
use mathlib.Core.List.{List, [], ◌∷◌, ◌++◌}
use native.Mathlib.Omega.{arith}
use native.Mathlib.Nat.{suc-mul}
use native.Mathlib.Decide.{ℕ_discrete}

abbrev pub total : ℕ → (ℕ → ℕ) → ℕ
total zero f = 0
total (suc n) f = f n + total n f

pub total-same : (n : ℕ) (f g : ℕ → ℕ) → ((j : ℕ) → j < n → f j ≡ g j) → total n f ≡ total n g
total-same zero f g h = refl
total-same (suc n) f g h =
    omega (arith, h n (omega arith), total-same n f g (λ j lt. h j (omega (arith, lt))))

pub total-nothing : (n : ℕ) → total n (λ _. 0) ≡ 0
total-nothing zero = refl
total-nothing (suc n) = omega (arith, total-nothing n)

-- The terms from `n` on are nothing.
pub total-zero : (k n : ℕ) (f : ℕ → ℕ) → ((j : ℕ) → n ≤ j → f j ≡ 0) → total (k + n) f ≡ total n f
total-zero zero n f h = let e : 0 + n ≡ n = omega arith in ap (λ k. total k f) e
total-zero (suc k) n f h =
    let e : suc (k + n) ≡ suc k + n = omega arith in
    subst (λ m. total m f ≡ total n f) e
      (omega (arith, h (k + n) (omega arith), total-zero k n f h))

-- One term changes.
pub total-change :
    (n i : ℕ) (f g : ℕ → ℕ)
    → i < n
    → ((j : ℕ) → i ≢ j → f j ≡ g j)
    → total n f + g i ≡ total n g + f i
total-change zero i f g lt h = absurd (omega (arith, lt))
total-change (suc n) i f g lt h = elim (ℕ_discrete i n) [
  | no ne ↦ omega (arith, h n ne, total-change n i f g (omega (arith, lt, ne)) h)
  | yes e ↦ omega (
    arith,
    ap f e,
    ap g e,
    total-same n f g (λ j below. h j (λ same. omega (arith, e, same, below))),
  )
]

-- One term alone.
pub total_single : (n i : ℕ) (f : ℕ → ℕ) → i < n → ((j : ℕ) → i ≢ j → f j ≡ 0) → total n f ≡ f i
total_single n i f lt h = omega (arith, total-change n i f (λ _. 0) lt h, total-nothing n)

pub total_front : (n : ℕ) (f : ℕ → ℕ) → total (suc n) f ≡ f 0 + total n (λ j. f (suc j))
total_front zero f = refl
total_front (suc n) f = omega (arith, total_front n f)

pub total-le : (n c : ℕ) (f : ℕ → ℕ) → ((j : ℕ) → j < n → f j ≤ c) → total n f ≤ n * c
total-le zero c f h = omega arith
total-le (suc n) c f h =
    omega (arith, h n (omega arith), total-le n c f (λ j lt. h j (omega (arith, lt))), suc-mul n c)

pub total-add : (n : ℕ) (f g : ℕ → ℕ) → total n (λ j. f j + g j) ≡ total n f + total n g
total-add zero f g = refl
total-add (suc n) f g = omega (arith, total-add n f g)

module _ {ℓ} {A : Type ℓ} where
  abbrev pub weight : (A → ℕ) → List A → ℕ
  weight w [] = 0
  weight w (x ∷ xs) = w x + weight w xs

  pub weight-append : (w : A → ℕ) (xs ys : List A) → weight w (xs ++ ys) ≡ weight w xs + weight w ys
  weight-append w [] ys = omega arith
  weight-append w (x ∷ xs) ys = omega (arith, weight-append w xs ys)
