-- ===== src/Examples/Upto.antt =====
-- The values of a loop of the examples, `for (int i = 0; i < n; ++i)`.
use mathlib.Core.List.{map}
use lockless_concurrent_fram.Common.{
  ℕ, zero, suc, ◌+◌, ◌*◌, ◌≤◌, ◌<◌, ◌≡◌, refl, ◌∙◌, List, [], ◌∷◌, ◌++◌, length, length-snoc, ltb,
  leb, ◌==◌, ◌&&◌, if◌then◌else◌, arith,
}
use lockless_concurrent_fram.Common.Sums.{weight, total, total-le}

unfoldable pub upto : ℕ → List ℕ
upto zero = []
upto (suc n) = upto n ++ n ∷ []

pub length-upto : (n : ℕ) → length (upto n) ≡ n
unfolding upto
length-upto zero = refl
length-upto (suc n) = omega (arith, length-snoc (upto n) n, length-upto n)

length-map : {A B : Type 0} (f : A → B) (xs : List A) → length (map f xs) ≡ length xs
length-map f [] = refl
length-map f (x ∷ xs) = omega (arith, length-map f xs)

pub length-map-upto : {T : Type 0} (f : ℕ → T) (n : ℕ) → length (map f (upto n)) ≡ n
length-map-upto f n = length-map f (upto n) ∙ length-upto n

module _ {T : Type 0} (w : T → ℕ) (f : ℕ → T) where
  weight-map-snoc :
      (xs : List ℕ) (j : ℕ) → weight w (map f (xs ++ j ∷ [])) ≡ weight w (map f xs) + w (f j)
  weight-map-snoc [] j = omega arith
  weight-map-snoc (x ∷ xs) j = omega (arith, weight-map-snoc xs j)

  pub weight-upto : (n : ℕ) → weight w (map f (upto n)) ≡ total n (λ j. w (f j))
  unfolding upto
  weight-upto zero = refl
  weight-upto (suc n) = omega (arith, weight-map-snoc (upto n) n, weight-upto n)

  pub weight-upto-le :
      (n c : ℕ) → ((j : ℕ) → j < n → w (f j) ≤ c) → weight w (map f (upto n)) ≤ n * c
  weight-upto-le n c h = omega (arith, weight-upto n, total-le n c (λ j. w (f j)) h)

-- A value that runs through a range meets each number of it once.
pub total_range :
    (b n x : ℕ)
    → total n (λ j. if b + j == x then 1 else 0) ≡ (if leb b x && ltb x (b + n) then 1 else 0)
total_range b zero x = ground arith
total_range b (suc n) x = ground (arith, total_range b n x)
