-- ===== src/Stack/Chain.antt =====
-- Linked lists of node indices in the array, and lists of indices that do not repeat.
use lockless_concurrent_fram.Common.{
  ℕ, ◌≤◌, ◌<◌, ◌≡◌, ◌≢◌, ap₂, sym, refl, List, [], ◌∷◌, update, update_ne, arith,
}
use mathlib.Core.List.{map}
use lockless_concurrent_fram.Common.Words.{max32, word32}

-- From the index `h` on, the links run through `xs` and end in NULL_INDEX.
abbrev pub Chain : (ℕ → ℕ) → ℕ → List ℕ → Type 0
Chain next h [] = h ≡ max32
Chain next h (i ∷ xs) = (h ≡ i) × Chain next (next i) xs

abbrev pub NotIn : ℕ → List ℕ → Type 0
NotIn i [] = Unit
NotIn i (j ∷ xs) = (i ≢ j) × NotIn i xs

abbrev pub Distinct : List ℕ → Type 0
Distinct [] = Unit
Distinct (i ∷ xs) = NotIn i xs × Distinct xs

-- No index is in both lists.
abbrev pub Apart : List ℕ → List ℕ → Type 0
Apart [] ys = Unit
Apart (i ∷ xs) ys = NotIn i ys × Apart xs ys

abbrev pub Below : ℕ → List ℕ → Type 0
Below n [] = Unit
Below n (i ∷ xs) = (i < n) × Below n xs

pub Chain-update :
    (next : ℕ → ℕ) (i v h : ℕ) (xs : List ℕ)
    → NotIn i xs
    → Chain next h xs
    → Chain (update next i v) h xs
Chain-update next i v h [] out c = c
Chain-update next i v h (j ∷ xs) out c =
    (c.0, rw (update_ne next i j v out.0) (Chain-update next i v (next j) xs out.1 c.1))

pub map-update :
    {T : Type 0} (f : ℕ → T) (i : ℕ) (v : T) (xs : List ℕ)
    → NotIn i xs
    → map (update f i v) xs ≡ map f xs
map-update f i v [] out = refl
map-update f i v (j ∷ xs) out = ap₂ ◌∷◌ (update_ne f i j v out.0) (map-update f i v xs out.1)

pub Apart-front : (i : ℕ) (xs ys : List ℕ) → Apart xs (i ∷ ys) → NotIn i xs × Apart xs ys
Apart-front i [] ys a = (tt, tt)
Apart-front i (j ∷ xs) ys a =
    let (n, r) = Apart-front i xs ys a.1 in ((λ e. a.0.0 (sym e), n), (a.0.1, r))

pub Apart-back : (i : ℕ) (xs ys : List ℕ) → NotIn i xs → Apart xs ys → Apart xs (i ∷ ys)
Apart-back i [] ys n a = tt
Apart-back i (j ∷ xs) ys n a = (((λ e. n.0 (sym e)), a.0), Apart-back i xs ys n.1 a.1)

-- The first index of a chain of nodes is a 32-bit word.
pub Chain-top :
    (next : ℕ → ℕ) (h n : ℕ) (xs : List ℕ) → Chain next h xs → Below n xs → n ≤ max32 → h < word32
Chain-top next h n [] c b le = omega (arith, c)
Chain-top next h n (i ∷ xs) c b le = omega (arith, c.0, b.0)
