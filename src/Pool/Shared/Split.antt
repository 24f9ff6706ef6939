-- ===== src/Pool/Shared/Split.antt =====
-- The objects are shared out between the free indices and the threads.
use native.Mathlib.Decide.{ℕ_discrete}
use lockless_concurrent_fram.Common.{
  ℕ, ◌+◌, ◌<◌, ◌≡◌, ◌≢◌, ◌⊎◌, inl, inr, refl, sym, ◌∙◌, subst, List, [], ◌∷◌, update, update_self,
  update_ne, arith,
}
use lockless_concurrent_fram.Stack.Chain.{NotIn, Distinct, Below}
use lockless_concurrent_fram.Stack.Shared.Nodes.{In, Below-In}

pub NotIn-In : (i : ℕ) (xs : List ℕ) → NotIn i xs → ¬ In i xs
NotIn-In i [] out h = h
NotIn-In i (j ∷ xs) out (inl e) = out.0 e
NotIn-In i (j ∷ xs) out (inr h) = NotIn-In i xs out.1 h

pub In-NotIn : (i : ℕ) (xs : List ℕ) → ¬ In i xs → NotIn i xs
In-NotIn i [] h = tt
In-NotIn i (j ∷ xs) h = ((λ e. h (inl e)), In-NotIn i xs (λ k. h (inr k)))

Below-suc : (n : ℕ) (xs : List ℕ) → Below n xs → Below (n + 1) xs
Below-suc n [] b = tt
Below-suc n (i ∷ xs) b = (omega (arith, b.0), Below-suc n xs b.1)

-- Below `n`, each object is in `q` or with one thread, once.
pub record Split (own : ℕ → List ℕ) (n : ℕ) (q : List ℕ) : Type 0 where
  pub distinct : Distinct q
  pub below : Below n q
  pub singly : (u : ℕ) → Distinct (own u)
  pub elsewhere : (u i : ℕ) → In i (own u) → (i < n) × NotIn i q
  pub alone : (u w i : ℕ) → In i (own u) → In i (own w) → u ≡ w
  pub covered : (i : ℕ) → i < n → In i q ⊎ ((u : ℕ) × In i (own u))

-- Who has an object when the objects of thread `u` have become `xs`.
update-cases :
    (own : ℕ → List ℕ) (u : ℕ) (xs : List ℕ) (w i : ℕ)
    → In i (update own u xs w)
    → ((u ≡ w) × In i xs) ⊎ ((u ≢ w) × In i (own w))
update-cases own u xs w i h = elim (ℕ_discrete u w) [
  | yes e ↦ inl (e, subst (In i) (subst (λ w. update own u xs w ≡ xs) e (update_self own u xs)) h)
  | no ne ↦ inr (ne, subst (In i) (update_ne own u w xs ne) h)
]

module _ {own : ℕ → List ℕ} {n : ℕ} {q : List ℕ} (s : Split own n q) where
  pub same_owns : (own' : ℕ → List ℕ) → ((w : ℕ) → own' w ≡ own w) → Split own' n q
  same_owns own' e = record {
    distinct = s.distinct;
    below = s.below;
    singly = λ u. subst Distinct (sym (e u)) (s.singly u);
    elsewhere = λ u i h. s.elsewhere u i (subst (In i) (e u) h);
    alone = λ u w i h k. s.alone u w i (subst (In i) (e u) h) (subst (In i) (e w) k);
    covered = λ i lt. elim (s.covered i lt) [
      | inl h ↦ inl h
      | inr (u, h) ↦ inr (u, subst (In i) (sym (e u)) h)
    ];
  }

  -- The objects of thread `u` and the free ones have changed; the others have what they had.
  changed :
      (u n' : ℕ) (xs q' : List ℕ)
      → Distinct q'
      → Below n' q'
      → Distinct xs
      → ((i : ℕ) → In i xs → (i < n') × NotIn i q')
      → ((w i : ℕ) → u ≢ w → In i (own w) → (i < n') × NotIn i q' × (¬ In i xs))
      → ((i : ℕ) → i < n' → In i q' ⊎ (In i xs ⊎ ((w : ℕ) × (u ≢ w) × In i (own w))))
      → Split (update own u xs) n' q'
  changed u n' xs q' d b single mine theirs all = record {
    distinct = d;
    below = b;
    singly = λ w. elim (ℕ_discrete u w) [
      | yes e ↦ subst (λ w. Distinct (update own u xs w)) e (rw (update_self own u xs) single)
      | no ne ↦ rw (update_ne own u w xs ne) (s.singly w)
    ];
    elsewhere = λ w i h. elim (update-cases own u xs w i h) [
      | inl (_, k) ↦ mine i k
      | inr (ne, k) ↦ let (lt, out, _) = theirs w i ne k in (lt, out)
    ];
    alone = λ v w i h k. elim (update-cases own u xs v i h) [
      | inl (e, h') ↦ elim (update-cases own u xs w i k) [
        | inl (f, _) ↦ sym e ∙ f
        | inr (ne, k') ↦ absurd ((theirs w i ne k').2 h')
      ]
      | inr (ne, h') ↦ elim (update-cases own u xs w i k) [
        | inl (_, k') ↦ absurd ((theirs v i ne h').2 k')
        | inr (_, k') ↦ s.alone v w i h' k'
      ]
    ];
    covered = λ i lt. elim (all i lt) [
      | inl h ↦ inl h
      | inr (inl h) ↦ inr (u, rw (update_self own u xs) h)
      | inr (inr (w, ne, h)) ↦ inr (w, rw (update_ne own u w xs ne) h)
    ];
  }

  -- Where an object is, seen from thread `u`.
  found : (u i : ℕ) → i < n → In i q ⊎ (In i (own u) ⊎ ((w : ℕ) × (u ≢ w) × In i (own w)))
  found u i lt = elim (s.covered i lt) [
    | inl h ↦ inl h
    | inr (w, h) ↦ elim (ℕ_discrete u w) [
      | yes e ↦ inr (inl (subst (λ w. In i (own w)) (sym e) h))
      | no ne ↦ inr (inr (w, ne, h))
    ]
  ]

  apart : (u w i : ℕ) → u ≢ w → In i (own w) → ¬ In i (own u)
  apart u w i ne h k = ne (s.alone u w i k h)

  -- The objects of thread `u` in another order.
  pub shuffled :
      (u : ℕ) (xs : List ℕ)
      → Distinct xs
      → ((i : ℕ) → In i xs → In i (own u))
      → ((i : ℕ) → In i (own u) → In i xs)
      → Split (update own u xs) n q
  shuffled u xs d into back =
      changed u n xs q s.distinct s.below d (λ i h. s.elsewhere u i (into i h))
        (λ w i ne h.
          let (lt, out) = s.elsewhere w i h in (lt, out, λ k. apart u w i ne h (into i k)))
        (λ i lt. elim (found u i lt) [
          | inl h ↦ inl h
          | inr (inl h) ↦ inr (inl (back i h))
          | inr (inr h) ↦ inr (inr h)
        ])

  -- A new object, with thread `u`.
  pub brought : (u : ℕ) → Split (update own u (n ∷ own u)) (n + 1) q
  brought u =
      changed u (n + 1) (n ∷ own u) q s.distinct (Below-suc n q s.below)
        (In-NotIn n (own u) (λ h. omega (arith, (s.elsewhere u n h).0)), s.singly u)
        (λ i h. elim h [
          | inl e ↦
              (omega (arith, e), In-NotIn i q (λ k. omega (arith, e, Below-In n i q s.below k)))
          | inr k ↦ let (lt, out) = s.elsewhere u i k in (omega (arith, lt), out)
        ])
        (λ w i ne h.
          let (lt, out) = s.elsewhere w i h in
          (
            omega (arith, lt),
            out,
            λ k. elim k [ inl e ↦ omega (arith, lt, e) | inr k ↦ apart u w i ne h k ],
          ))
        (λ i lt. elim (ℕ_discrete i n) [
          | yes e ↦ inr (inl (inl e))
          | no ne ↦ elim (found u i (omega (arith, lt, ne))) [
            | inl h ↦ inl h
            | inr (inl h) ↦ inr (inl (inr h))
            | inr (inr h) ↦ inr (inr h)
          ]
        ])

  -- Thread `u` gives its first object.
  pub put_back : (u i : ℕ) (xs : List ℕ) → own u ≡ i ∷ xs → Split (update own u xs) n (i ∷ q)
  put_back u i xs e =
      let mine : In i (own u) = subst (In i) (sym e) (inl refl) in
      let single : Distinct (i ∷ xs) = subst Distinct e (s.singly u) in
      let rest : (j : ℕ) → In j xs → In j (own u) = λ j h. subst (In j) (sym e) (inr h) in
      changed u n xs (i ∷ q) ((s.elsewhere u i mine).1, s.distinct)
        ((s.elsewhere u i mine).0, s.below) single.1
        (λ j h.
          let (lt, out) = s.elsewhere u j (rest j h) in
          (lt, ((λ f. NotIn-In i xs single.0 (subst (λ j. In j xs) f h)), out)))
        (λ w j ne h.
          let (lt, out) = s.elsewhere w j h in
          (
            lt,
            ((λ f. apart u w j ne h (subst (λ j. In j (own u)) (sym f) mine)), out),
            λ k. apart u w j ne h (rest j k),
          ))
        (λ j lt. elim (found u j lt) [
          | inl h ↦ inl (inr h)
          | inr (inl h) ↦ elim (subst (In j) e h) [ inl f ↦ inl (inl f) | inr k ↦ inr (inl k) ]
          | inr (inr h) ↦ inr (inr h)
        ])

-- Thread `u` takes the first free object.
pub taken_out :
    {own : ℕ → List ℕ} {n : ℕ} (u i : ℕ) (q : List ℕ)
    → Split own n (i ∷ q)
    → Split (update own u (i ∷ own u)) n q
taken_out {own} {n} u i q s =
    changed s u n (i ∷ own u) q s.distinct.1 s.below.1
      (In-NotIn i (own u) (λ h. NotIn-In i (i ∷ q) (s.elsewhere u i h).1 (inl refl)), s.singly u)
      (λ j h. elim h [
        | inl e ↦
            (subst (λ j. j < n) (sym e) s.below.0, subst (λ j. NotIn j q) (sym e) s.distinct.0)
        | inr k ↦ let (lt, out) = s.elsewhere u j k in (lt, out.1)
      ])
      (λ w j ne h.
        let (lt, out) = s.elsewhere w j h in
        (lt, out.1, λ k. elim k [ inl e ↦ out.0 e | inr k ↦ apart s u w j ne h k ]))
      (λ j lt. elim (found s u j lt) [
        | inl (inl e) ↦ inr (inl (inl e))
        | inl (inr h) ↦ inl h
        | inr (inl h) ↦ inr (inl (inr h))
        | inr (inr h) ↦ inr (inr h)
      ])
