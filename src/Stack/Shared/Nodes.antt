-- ===== src/Stack/Shared/Nodes.antt =====
-- Which list a node is in, and the words of the two heads.
use lockless_concurrent_fram.Common.{
  ℕ, ◌+◌, ◌≤◌, ◌<◌, ◌≡◌, ◌≢◌, ◌⊎◌, inl, inr, refl, sym, ap, ◌∙◌, List, [], ◌∷◌, arith,
}
use lockless_concurrent_fram.Common.Words.{word32, max32}
use lockless_concurrent_fram.Stack.{pack, unpack}
use lockless_concurrent_fram.Stack.Chain.{Chain, NotIn, Below}
use lockless_concurrent_fram.Stack.Shared.{bumped}

abbrev pub In : ℕ → List ℕ → Type 0
In i [] = ⊥
In i (j ∷ xs) = (i ≡ j) ⊎ In i xs

pub bumped_lem :
    (node old : ℕ)
    → node < word32
    → (unpack old).tag + 1 < word32
    → ((unpack (bumped node old)).index ≡ node)
      × ((unpack (bumped node old)).tag ≡ (unpack old).tag + 1)
unfolding bumped pack unpack
bumped_lem node old h k = (omega arith, omega arith)

-- A node that is not in a list is not its first one.
pub top_not :
    (next : ℕ → ℕ) (h n : ℕ) (xs : List ℕ) → Chain next h xs → NotIn n xs → n < max32 → h ≢ n
top_not next h n [] c out lt e = omega (arith, c, e, lt)
top_not next h n (i ∷ xs) c out lt e = out.0 (sym e ∙ c.0)

pub Below-In : (n i : ℕ) (xs : List ℕ) → Below n xs → In i xs → i < n
Below-In n i [] b h = elim h [ ]
Below-In n i (j ∷ xs) b (inl e) = omega (arith, b.0, e)
Below-In n i (j ∷ xs) b (inr h) = Below-In n i xs b.1 h

-- What a thread that read the word `old` of a head knows of the head's word now: it is newer, or it is
-- the same.
abbrev pub Seen : ℕ → ℕ → Type 0
Seen now old =
    ((unpack old).tag ≤ (unpack now).tag) × ((unpack old).tag ≡ (unpack now).tag → old ≡ now)

pub Seen-now : (now : ℕ) → Seen now now
Seen-now now = (omega arith, λ _. refl)

pub Seen-bumped :
    (now old node : ℕ)
    → node < word32
    → (unpack now).tag + 1 < word32
    → Seen now old
    → Seen (bumped node now) old × (old ≢ bumped node now)
Seen-bumped now old node lt room s =
    let (i, t) = bumped_lem node now lt room in
    (
      (omega (arith, s.0, t), λ e. omega (arith, s.0, t, e)),
      λ e. omega (arith, s.0, t, ap (λ w. (unpack w).tag) e),
    )
