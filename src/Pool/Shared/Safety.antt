-- ===== src/Pool/Shared/Safety.antt =====
-- What the pool promises to threads that acquire and release at the same time.
use lockless_concurrent_fram.Common.{
  ℕ, ◌≤◌, ◌<◌, ◌≡◌, ◌≢◌, ◌⊎◌, inl, inr, false, Option, List, arith, [], ◌∷◌, ◌++◌,
}
use lockless_concurrent_fram.Common.Words.{max32, word32}
use lockless_concurrent_fram.Stack.Chain.{Distinct, NotIn}
use lockless_concurrent_fram.Stack.Shared
use lockless_concurrent_fram.Stack.Shared.{pushed}
use lockless_concurrent_fram.Stack.Shared.Nodes.{In}
use lockless_concurrent_fram.Pool.Shared.{Call, resting, System, Reach}
use lockless_concurrent_fram.Pool.Shared.Invariant.{Inv, owns, carried}
use lockless_concurrent_fram.Pool.Shared.Reachable.{Reach-Inv}

In-append : (i : ℕ) (xs ys : List ℕ) → In i ys → In i (xs ++ ys)
In-append i [] ys h = h
In-append i (x ∷ xs) ys h = inr (In-append i xs ys h)

append-In : (i : ℕ) (xs ys : List ℕ) → In i (xs ++ ys) → In i xs ⊎ In i ys
append-In i [] ys h = inr h
append-In i (x ∷ xs) ys (inl e) = inl (inl e)
append-In i (x ∷ xs) ys (inr h) = elim (append-In i xs ys h) [ inl k ↦ inl (inr k) | inr k ↦ inr k ]

append-Distinct : (xs ys : List ℕ) → Distinct (xs ++ ys) → Distinct ys
append-Distinct [] ys d = d
append-Distinct (x ∷ xs) ys d = append-Distinct xs ys d.1

carried-busy :
    (c : Call) (p : Shared.Pc ℕ) (claim : Option ℕ) (i : ℕ) → In i (carried c p claim) → c ≢ resting
carried-busy resting p claim i h = elim h [ ]
carried-busy c p claim i h = λ e. cc

module _ {base capacity : ℕ} (pos : 0 < capacity) (small : capacity ≤ max32) {s : System}
    (r : Reach base capacity s) (room : s.stack.moves < word32) where
  inv : Inv capacity s
  inv = (Reach-Inv pos small r room).0

  holds : (u i : ℕ) → In i (s.held u) → In i (owns s.call s.stack.pc s.stack.claim s.held u)
  holds u i h = In-append i (carried (s.call u) (s.stack.pc u) (s.stack.claim u)) (s.held u) h

  -- In every state that threads reach from a new pool of 1 to NULL_INDEX objects, by the
  -- constructor, by calls of `acquire`, and by calls of `release` on pointers to objects that the
  -- caller holds, which interleave step by step, as long as fewer than 2 ^ 32 exchanges have won:
  -- an object that a thread holds is one of the pool, is not among the free ones, and is held by
  -- that thread once and by no other.
  pub one_holder :
      (u i : ℕ)
      → In i (s.held u)
      → (i < capacity)
        × NotIn i s.stack.contents
        × Distinct (s.held u)
        × ((w : ℕ) → In i (s.held w) → u ≡ w)
  one_holder u i h = (
    omega (arith, inv.few, (inv.split.elsewhere u i (holds u i h)).0),
    (inv.split.elsewhere u i (holds u i h)).1,
    append-Distinct (carried (s.call u) (s.stack.pc u) (s.stack.claim u)) (s.held u)
        (inv.split.singly u),
    λ w k. inv.split.alone u w i (holds u i h) (holds w i k),
  )

  -- In every state that threads reach from a new pool of 1 to NULL_INDEX objects, by the
  -- constructor, by calls of `acquire`, and by calls of `release` on pointers to objects that the
  -- caller holds, which interleave step by step, as long as fewer than 2 ^ 32 exchanges have won:
  -- no `try_push` of a call in progress has been refused, so that the constructor does not throw
  -- and `release` drops nothing; and each object that the constructor has got to is free, held by
  -- a thread, or carried by a thread in the middle of a call.
  pub none_lost :
      ((u : ℕ) → s.call u ≢ resting → s.stack.pc u ≢ pushed false)
      × ((i : ℕ)
          → i < s.filled
          → In i s.stack.contents
            ⊎ ((u : ℕ) × (In i (s.held u)
                  ⊎ ((s.call u ≢ resting)
                      × In i (carried (s.call u) (s.stack.pc u) (s.stack.claim u))))))
  none_lost = (
    (λ u busy. (inv.places u).granted busy),
    λ i lt. elim (inv.split.covered i lt) [
      | inl h ↦ inl h
      | inr (u, h) ↦ inr (
        u,
        elim (append-In i (carried (s.call u) (s.stack.pc u) (s.stack.claim u)) (s.held u) h) [
          | inl k ↦ inr (carried-busy (s.call u) (s.stack.pc u) (s.stack.claim u) i k, k)
          | inr k ↦ inl k
        ],
      )
    ],
  )
