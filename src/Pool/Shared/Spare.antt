-- ===== src/Pool/Shared/Spare.antt =====
-- While a thread brings an object back and has no node yet, some node is free: each other node goes
-- with an object of its own.
use mathlib.Core.List.{map}
use lockless_concurrent_fram.Common.{
  ℕ, zero, suc, ◌≤◌, ◌<◌, ◌≡◌, ◌≢◌, ◌⊎◌, inl, inr, refl, sym, ap, ◌∙◌, subst, Option, none, some,
  some-injective, List, [], ◌∷◌, length, arith,
}
use lockless_concurrent_fram.Common.Words.{max32}
use lockless_concurrent_fram.Stack.{Stack, unpack}
use lockless_concurrent_fram.Stack.Chain.{Chain, NotIn, Distinct, Below}
use lockless_concurrent_fram.Stack.Counting.{length-Distinct}
use lockless_concurrent_fram.Stack.Shared.{Pc}
use lockless_concurrent_fram.Stack.Shared.Nodes.{In, Below-In}
use lockless_concurrent_fram.Stack.Shared.Invariant.{owned, Inv}
use lockless_concurrent_fram.Pool.Leases.{countdown, length-countdown}
use lockless_concurrent_fram.Pool.Shared.Split.{Split, NotIn-In, In-NotIn}

In-map : (f : ℕ → ℕ) (n : ℕ) (xs : List ℕ) → In n xs → In (f n) (map f xs)
In-map f n [] h = elim h [ ]
In-map f n (k ∷ xs) (inl e) = inl (ap f e)
In-map f n (k ∷ xs) (inr h) = inr (In-map f n xs h)

-- Nodes with different items are different.
map-injective :
    (f : ℕ → ℕ) (xs : List ℕ) (n k : ℕ)
    → Distinct (map f xs)
    → In n xs
    → In k xs
    → f n ≡ f k
    → n ≡ k
map-injective f [] n k d h h' e = elim h [ ]
map-injective f (j ∷ xs) n k d (inl a) (inl b) e = a ∙ sym b
map-injective f (j ∷ xs) n k d (inl a) (inr b) e = absurd (
    NotIn-In (f j) (map f xs) d.0 (subst (λ y. In y (map f xs)) (sym e ∙ ap f a) (In-map f k xs b)))
map-injective f (j ∷ xs) n k d (inr a) (inl b) e =
    absurd
      (NotIn-In (f j) (map f xs) d.0 (subst (λ y. In y (map f xs)) (e ∙ ap f b) (In-map f n xs a)))
map-injective f (j ∷ xs) n k d (inr a) (inr b) e = map-injective f xs n k d.1 a b e

-- A choice of one value for each index, no value twice, gives as many values as indices.
module _ (Goes : ℕ → ℕ → Type 0) (one : (n k i : ℕ) → Goes n i → Goes k i → n ≡ k) where
  record Chosen (ns : List ℕ) (bound x : ℕ) : Type 0 where
    values : List ℕ
    from : (i : ℕ) → In i values → (n : ℕ) × In n ns × Goes n i
    distinct : Distinct values
    below : Below bound values
    size : length values ≡ length ns
    without : NotIn x values

  choose :
      (bound x : ℕ) (ns : List ℕ)
      → Distinct ns
      → ((n : ℕ) → In n ns → (i : ℕ) × Goes n i)
      → ((n i : ℕ) → Goes n i → (i < bound) × (x ≢ i))
      → Chosen ns bound x
  choose bound x [] d pick fits = record {
    values = [];
    from = λ i h. elim h [ ];
    distinct = tt;
    below = tt;
    size = refl;
    without = tt;
  }
  choose bound x (n ∷ ns) d pick fits =
      let (i, goes) = pick n (inl refl) in
      let rest = choose bound x ns d.1 (λ k h. pick k (inr h)) fits in
      let new : NotIn i rest.values = In-NotIn i rest.values (λ h.
        let (k, at, goes') = rest.from i h in
        NotIn-In n ns d.0 (subst (λ k. In k ns) (sym (one n k i goes goes')) at)) in
      record {
        values = i ∷ rest.values;
        from = λ j h. elim h [
          | inl e ↦ (n, inl refl, subst (Goes n) (sym e) goes)
          | inr h ↦ let (k, at, goes') = rest.from j h in (k, inr at, goes')
        ];
        distinct = (new, rest.distinct);
        below = ((fits n i goes).0, rest.below);
        size = ap suc rest.size;
        without = ((fits n i goes).1, rest.without);
      }

In-countdown : (n k : ℕ) → In k (countdown n) → k < n
In-countdown zero k h = elim h [ ]
In-countdown (suc n) k (inl e) = omega (arith, e)
In-countdown (suc n) k (inr h) = omega (arith, In-countdown n k h)

countdown-Distinct : (n : ℕ) → Distinct (countdown n)
countdown-Distinct zero = tt
countdown-Distinct (suc n) =
    (In-NotIn n (countdown n) (λ h. omega (arith, In-countdown n n h)), countdown-Distinct n)

module _ {m : Stack ℕ} {pc : ℕ → Pc ℕ} {q : List ℕ} {claim : ℕ → Option ℕ} {moves : ℕ}
    {used spare : List ℕ} (inv : Inv m pc q claim moves used spare) {own : ℕ → List ℕ} {n : ℕ}
    (split : Split own n q) (fits : n ≤ m.capacity)
    (carries : (w k : ℕ) → owned (pc w) ≡ some k → (i : ℕ) × In i (own w)) where
  -- The item on a node of the stack, or an item of the thread that has the node.
  abbrev Goes : ℕ → ℕ → Type 0
  Goes k i = (In k used × (m.node_data k ≡ i)) ⊎ ((w : ℕ) × (owned (pc w) ≡ some k) × In i (own w))

  on_stack : (k i : ℕ) → In k used → m.node_data k ≡ i → In i q
  on_stack k i h e =
      subst (In i) inv.items
        (subst (λ i. In i (map m.node_data used)) e (In-map m.node_data k used h))

  one : (k l i : ℕ) → Goes k i → Goes l i → k ≡ l
  one k l i (inl (h, e)) (inl (h', e')) =
      map-injective m.node_data used k l (subst Distinct (sym inv.items) split.distinct) h h'
        (e ∙ sym e')
  one k l i (inl (h, e)) (inr (w, o, at)) =
      absurd (NotIn-In i q (split.elsewhere w i at).1 (on_stack k i h e))
  one k l i (inr (w, o, at)) (inl (h, e)) =
      absurd (NotIn-In i q (split.elsewhere w i at).1 (on_stack l i h e))
  one k l i (inr (w, o, at)) (inr (v, o', at')) =
      some-injective (sym o ∙ ap (λ w. owned (pc w)) (split.alone w v i at at') ∙ o')

  pub spare_node :
      (u x : ℕ) → owned (pc u) ≡ none → In x (own u) → (unpack m.free_head).index ≢ max32
  spare_node u x free mine null =
      let chosen =
        choose Goes one n x (countdown m.capacity) (countdown-Distinct m.capacity)
          (λ k h. goes k (In-countdown m.capacity k h)) fit in
      omega (
        arith,
        fits,
        chosen.size,
        length-countdown m.capacity,
        length-Distinct n (x ∷ chosen.values) (chosen.without, chosen.distinct)
            ((split.elsewhere u x mine).0, chosen.below),
      )
    where
      fit : (k i : ℕ) → Goes k i → (i < n) × (x ≢ i)
      fit k i (inl (h, e)) = (
        Below-In n i q split.below (on_stack k i h e),
        λ f.
            NotIn-In x q (split.elsewhere u x mine).1
              (subst (λ i. In i q) (sym f) (on_stack k i h e)),
      )
      fit k i (inr (w, o, at)) = (
        (split.elsewhere w i at).0,
        λ f.
            let same : u ≡ w = split.alone u w x mine (subst (λ i. In i (own w)) (sym f) at) in
            ground (arith, free, o, ap (λ w. owned (pc w)) same),
      )

      by_spare :
          (spare : List ℕ) (k : ℕ)
          → Chain m.node_next (unpack m.free_head).index spare
          → Below m.capacity spare
          → In k used ⊎ (In k spare ⊎ ((w : ℕ) × (owned (pc w) ≡ some k)))
          → (i : ℕ) × Goes k i
      by_spare spare k c b (inl h) = (m.node_data k, inl (h, refl))
      by_spare spare k c b (inr (inr (w, o))) = let (i, at) = carries w k o in (i, inr (w, o, at))
      by_spare [] k c b (inr (inl h)) = elim h [ ]
      by_spare (j ∷ spare) k c b (inr (inl h)) = absurd (omega (arith, c.0, null, b.0, inv.small))

      goes : (k : ℕ) → k < m.capacity → (i : ℕ) × Goes k i
      goes k lt = by_spare spare k inv.spare_chain inv.shares.below' (inv.shares.covered k lt)
