-- ===== src/Stack/Shared/Owners.antt =====
-- The nodes of the array are shared out between two lists and the threads.
use native.Mathlib.Decide.{ℕ_discrete}
use lockless_concurrent_fram.Common.{
  ℕ, ◌<◌, ◌≡◌, ◌≢◌, ◌⊎◌, inl, inr, sym, ap, ◌∙◌, subst, Option, none, some, some-injective, List,
  [], ◌∷◌, update, update_self, update_ne,
}
use lockless_concurrent_fram.Stack.Chain.{NotIn, Distinct, Apart, Below, Apart-front}
use lockless_concurrent_fram.Stack.Shared.Nodes.{In}

-- Each node is in one of the two lists or with one thread, once.
pub record Shares (own : ℕ → Option ℕ) (capacity : ℕ) (xs ys : List ℕ) : Type 0 where
  pub distinct : Distinct xs
  pub distinct' : Distinct ys
  pub apart : Apart xs ys
  pub below : Below capacity xs
  pub below' : Below capacity ys
  pub elsewhere : (i n : ℕ) → own i ≡ some n → (n < capacity) × NotIn n xs × NotIn n ys
  pub alone : (i j n : ℕ) → own i ≡ some n → own j ≡ some n → i ≡ j
  pub covered : (n : ℕ) → n < capacity → In n xs ⊎ (In n ys ⊎ ((i : ℕ) × (own i ≡ some n)))

Apart-swap : (xs ys : List ℕ) → Apart xs ys → Apart ys xs
Apart-swap xs [] a = tt
Apart-swap xs (y ∷ ys) a = let (n, r) = Apart-front y xs ys a in (n, Apart-swap xs ys r)

-- Who owns a node after thread `i` has changed hands.
update-cases :
    (own : ℕ → Option ℕ) (i : ℕ) (o : Option ℕ) (j n : ℕ)
    → update own i o j ≡ some n
    → ((i ≡ j) × (o ≡ some n)) ⊎ ((i ≢ j) × (own j ≡ some n))
update-cases own i o j n e = elim (ℕ_discrete i j) [
  | yes eq ↦ inl (eq, sym (subst (λ j. update own i o j ≡ o) eq (update_self own i o)) ∙ e)
  | no ne ↦ inr (ne, sym (update_ne own i j o ne) ∙ e)
]

module _ {own : ℕ → Option ℕ} {capacity : ℕ} {xs ys : List ℕ} where
  pub swapped : Shares own capacity xs ys → Shares own capacity ys xs
  swapped s = record {
    distinct = s.distinct';
    distinct' = s.distinct;
    apart = Apart-swap xs ys s.apart;
    below = s.below';
    below' = s.below;
    elsewhere = λ i n e. let (lt, out, out') = s.elsewhere i n e in (lt, out', out);
    alone = s.alone;
    covered = λ n lt. elim (s.covered n lt) [
      | inl h ↦ inr (inl h)
      | inr (inl h) ↦ inl h
      | inr (inr h) ↦ inr (inr h)
    ];
  }

  pub same_owners :
      (own' : ℕ → Option ℕ)
      → ((i : ℕ) → own' i ≡ own i)
      → Shares own capacity xs ys
      → Shares own' capacity xs ys
  same_owners own' e s = record {
    distinct = s.distinct;
    distinct' = s.distinct';
    apart = s.apart;
    below = s.below;
    below' = s.below';
    elsewhere = λ i n h. s.elsewhere i n (sym (e i) ∙ h);
    alone = λ i j n h k. s.alone i j n (sym (e i) ∙ h) (sym (e j) ∙ k);
    covered = λ n lt. elim (s.covered n lt) [
      | inl h ↦ inl h
      | inr (inl h) ↦ inr (inl h)
      | inr (inr (i, h)) ↦ inr (inr (i, e i ∙ h))
    ];
  }

  -- A thread with no node takes the first one of a list.
  pub taken :
      (i k : ℕ)
      → own i ≡ none
      → Shares own capacity (k ∷ xs) ys
      → Shares (update own i (some k)) capacity xs ys
  taken i k free s = record {
    distinct = s.distinct.1;
    distinct' = s.distinct';
    apart = s.apart.1;
    below = s.below.1;
    below' = s.below';
    elsewhere = λ j n h. elim (update-cases own i (some k) j n h) [
      | inl (_, e) ↦
          let eq : k ≡ n = some-injective e in
          subst (λ n. (n < capacity) × NotIn n xs × NotIn n ys) eq
            (s.below.0, s.distinct.0, s.apart.0)
      | inr (_, old) ↦ let (lt, out, out') = s.elsewhere j n old in (lt, out.1, out')
    ];
    alone = λ j l n h h'. elim (update-cases own i (some k) j n h) [
      | inl (ej, e) ↦ elim (update-cases own i (some k) l n h') [
        | inl (el, _) ↦ sym ej ∙ el
        | inr (_, old) ↦ absurd ((s.elsewhere l n old).1.0 (sym (some-injective e)))
      ]
      | inr (_, old) ↦ elim (update-cases own i (some k) l n h') [
        | inl (_, e) ↦ absurd ((s.elsewhere j n old).1.0 (sym (some-injective e)))
        | inr (_, old') ↦ s.alone j l n old old'
      ]
    ];
    covered = λ n lt. elim (s.covered n lt) [
      | inl (inl e) ↦ inr (inr (i, update_self own i (some k) ∙ ap some (sym e)))
      | inl (inr h) ↦ inl h
      | inr (inl h) ↦ inr (inl h)
      | inr (inr (j, h)) ↦ inr (inr (j, update_ne own i j (some k) (λ e. cc) ∙ h))
    ];
  }

  -- A thread puts its node in front of a list.
  pub given :
      (i k : ℕ)
      → own i ≡ some k
      → Shares own capacity xs ys
      → Shares (update own i none) capacity (k ∷ xs) ys
  given i k mine s =
      let (lt, out, out') = s.elsewhere i k mine in
      record {
        distinct = (out, s.distinct);
        distinct' = s.distinct';
        apart = (out', s.apart);
        below = (lt, s.below);
        below' = s.below';
        elsewhere = λ j n h. elim (update-cases own i none j n h) [
          | inl (_, e) ↦ absurd (cc)
          | inr (ne, old) ↦
              let (lt, out, out') = s.elsewhere j n old in
              (lt, ((λ e. ne (s.alone i j k mine (old ∙ ap some e))), out), out')
        ];
        alone = λ j l n h h'. elim (update-cases own i none j n h) [
          | inl (_, e) ↦ absurd (cc)
          | inr (_, old) ↦ elim (update-cases own i none l n h') [
            | inl (_, e) ↦ absurd (cc)
            | inr (_, old') ↦ s.alone j l n old old'
          ]
        ];
        covered = λ n lt. elim (s.covered n lt) [
          | inl h ↦ inl (inr h)
          | inr (inl h) ↦ inr (inl h)
          | inr (inr (j, h)) ↦ elim (ℕ_discrete i j) [
            | yes e ↦ inl (inl (some-injective (sym h ∙ subst (λ j. own j ≡ some k) e mine)))
            | no ne ↦ inr (inr (j, update_ne own i j none ne ∙ h))
          ]
        ];
      }
