-- ===== src/Map/Refine.antt =====
-- The table of `insert` and `find` measured against a finite map.
use native.Mathlib.Decide.{ℕ_discrete}
use lockless_concurrent_fram.Common.{
  ℕ, zero, suc, ◌+◌, ◌≤◌, ◌<◌, ◌≡◌, ◌≢◌, ◌↔◌, ◌⊎◌, inl, inr, refl, sym, ap, ◌∙◌, subst, Bool, true,
  false, ◌&&◌, Bool-cases, if◌then◌else◌, Option, none, some, update, update_self, update_ne,
  update_all, arith,
}
use lockless_concurrent_fram.Map.{
  Node, Answer, found, absent, bucket, init, insert_probe, insert, find_probe, find,
}
use lockless_concurrent_fram.Map.Lookup.{IsSettled, insert_lem}
use lockless_concurrent_fram.Map.Rounds.{bucket-injective}

module _ {K V : Type 0} (size : ℕ) (hash : K → ℕ) (same : K → K → Bool) where
  -- No key stands behind a free bucket of its own rounds.
  abbrev pub IsClosed : (ℕ → Node K V) → Type 0
  IsClosed t =
      (key : K) (r j : ℕ)
      → r < size
      → (t (bucket size hash key r)).occupied ≡ true
      → same (t (bucket size hash key r)).key key ≡ true
      → j < r
      → (t (bucket size hash key j)).occupied ≡ true

  -- What a finite map answers, and the map with one more key.
  abbrev pub answer : Option V → Answer V
  answer none = absent
  answer (some v) = found v

  abbrev pub with_key : (K → Option V) → K → V → K → Option V
  with_key d key value k = if same key k then some value else d k

  -- The table stands for the finite map `d`.
  pub record Stands (t : ℕ → Node K V) (d : K → Option V) : Type 0 where
    pub settled : IsSettled t
    pub closed : IsClosed t
    pub lookup : (key : K) → find size hash same t key ≡ answer (d key)

  -- The bucket that `insert` fills, when it succeeds.
  record Filled (n i : ℕ) (t t' : ℕ → Node K V) (key : K) (value : V) : Type 0 where
    round : ℕ
    from : i ≤ round
    to : round < i + n
    free : (t (bucket size hash key round)).occupied ≡ false
    passed : (j : ℕ) → i ≤ j → j < round → (t (bucket size hash key j)).occupied ≡ true
    result :
        t'
        ≡ update t
            (bucket size hash key round)
            (record { key = key; value = value; occupied = true; ready = true })

  insert_probe-Filled :
      (n i : ℕ) (t : ℕ → Node K V) (key : K) (value : V)
      → (insert_probe size hash same n i t key value).1 ≡ true
      → Filled n i t (insert_probe size hash same n i t key value).0 key value
  unfolding insert_probe
  insert_probe-Filled zero i t key value e = ground (arith, e)
  insert_probe-Filled (suc n) i t key value e =
      let node = t (bucket size hash key i) in
      elim (Bool-cases node.occupied) [
        | inr free ↦ record {
          round = i;
          from = omega arith;
          to = omega arith;
          free = free;
          passed = λ j le lt. absurd (omega (arith, le, lt));
          result = rw free refl;
        }
        | inl taken ↦ elim (Bool-cases (node.ready && same node.key key)) [
          | inl dup ↦ ground (arith, taken, dup, e)
          | inr other ↦
              let step : insert_probe size hash same (suc n) i t key value
                  ≡ insert_probe size hash same n (suc i) t key value =
                rw (insert_probe, taken, other) refl in
              let rest = insert_probe-Filled n (suc i) t key value (ap (λ r. r.1) (sym step) ∙ e) in
              record {
                round = rest.round;
                from = omega (arith, rest.from);
                to = omega (arith, rest.to);
                free = rest.free;
                passed = λ j le lt. elim (ℕ_discrete i j) [
                  | yes f ↦ subst (λ j. (t (bucket size hash key j)).occupied ≡ true) f taken
                  | no ne ↦ rest.passed j (omega (arith, le, ne)) lt
                ];
                result = ap (λ r. r.0) step ∙ rest.result;
              }
        ]
      ]

  -- A lookup in whose rounds no bucket holds the key.
  find_probe-absent :
      (n i : ℕ) (t : ℕ → Node K V) (key : K)
      → IsSettled t
      → ((j : ℕ)
          → i ≤ j
          → j < i + n
          → (t (bucket size hash key j)).occupied ≡ true
          → same (t (bucket size hash key j)).key key ≡ false)
      → find_probe size hash same n i t key ≡ absent
  unfolding find_probe
  find_probe-absent zero i t key h out = refl
  find_probe-absent (suc n) i t key h out = ground (
    arith,
    h (bucket size hash key i),
    out i (omega arith) (omega arith),
    find_probe-absent n (suc i) t key h (λ j le lt. out j (omega (arith, le)) (omega (arith, lt))),
  )

  module _ (equal : (a b : K) → (same a b ≡ true) ↔ (a ≡ b)) (t : ℕ → Node K V)
      (settled : IsSettled t) (closed : IsClosed t) (key : K) (value : V)
      (filled : Filled size 0 t (insert size hash same t key value).0 key value) where
    abbrev b : ℕ
    b = bucket size hash key filled.round

    abbrev entry : Node K V
    entry = record { key = key; value = value; occupied = true; ready = true }

    abbrev t' : ℕ → Node K V
    t' = update t b entry

    filled-IsSettled : IsSettled t'
    filled-IsSettled =
        update_all (λ n. n.occupied ≡ true → n.ready ≡ true) t b entry (λ _. refl)
          (λ j _. settled j)

    stays_taken : (j : ℕ) → (t j).occupied ≡ true → (t' j).occupied ≡ true
    stays_taken j h = ground (arith, h)

    filled-IsClosed : size ≤ 0x8000_0000_0000_0000 → IsClosed t'
    filled-IsClosed small k r j lt taken holds less = elim (ℕ_discrete b (bucket size hash k r)) [
      | no ne ↦
          let at_r = update_ne t b (bucket size hash k r) entry ne in
          stays_taken (bucket size hash k j) (
            closed k r j lt (ap (λ n. n.occupied) (sym at_r) ∙ taken)
              (ap (λ n. same n.key k) (sym at_r) ∙ holds) less)
      | yes e ↦
          let at_b : t' (bucket size hash k r) ≡ entry =
            subst (λ i. t' i ≡ entry) e (update_self t b entry) in
          let is_key : key ≡ k = (equal key k).0 (ap (λ n. same n.key k) (sym at_b) ∙ holds) in
          let round : filled.round ≡ r =
            bucket-injective size hash key filled.round r small (omega (arith, filled.to)) lt
              (e ∙ ap (λ k. bucket size hash k r) (sym is_key)) in
          stays_taken (bucket size hash k j) (
            subst (λ k. (t (bucket size hash k j)).occupied ≡ true) is_key
              (filled.passed j (omega arith) (omega (arith, less, round))))
    ]

    -- Another key is found, or not, as before.
    find_probe-other :
        (k : K)
        → key ≢ k
        → (n i : ℕ) → i + n ≤ size
        → find_probe size hash same n i t' k ≡ find_probe size hash same n i t k
    unfolding find_probe
    find_probe-other k ne zero i fits = refl
    find_probe-other k ne (suc n) i fits =
        let idx = bucket size hash k i in
        let rest = find_probe-other k ne n (suc i) (omega (arith, fits)) in
        elim (ℕ_discrete b idx) [
          | no away ↦
              let at_i : t' idx ≡ t idx = update_ne t b idx entry away in
              rw at_i (ground (arith, rest))
          | yes e ↦
              let free : (t idx).occupied ≡ false =
                subst (λ i. (t i).occupied ≡ false) e filled.free in
              let at_i : t' idx ≡ entry = subst (λ i. t' i ≡ entry) e (update_self t b entry) in
              let differs : same key k ≡ false = ground (arith, ne, (equal key k).0) in
              let gone : find_probe size hash same n (suc i) t' k ≡ absent =
                find_probe-absent n (suc i) t' k filled-IsSettled (λ j le lt taken.
                  not_behind j (omega (arith, lt, fits)) i (omega (arith, le)) e free taken) in
              rw (at_i, free, differs) gone
        ]
      where
        not_behind :
            (j : ℕ)
            → j < size
            → (i : ℕ) → i < j
            → b ≡ bucket size hash k i
            → (t (bucket size hash k i)).occupied ≡ false
            → (t' (bucket size hash k j)).occupied ≡ true
            → same (t' (bucket size hash k j)).key k ≡ false
        not_behind j lt i less e free taken = elim (ℕ_discrete b (bucket size hash k j)) [
          | yes f ↦
              let at_j : t' (bucket size hash k j) ≡ entry =
                subst (λ i. t' i ≡ entry) f (update_self t b entry) in
              rw at_j (ground (arith, ne, (equal key k).0))
          | no away ↦
              let at_j : t' (bucket size hash k j) ≡ t (bucket size hash k j) =
                update_ne t b (bucket size hash k j) entry away in
              elim (Bool-cases (same (t (bucket size hash k j)).key k)) [
                | inr differs ↦ rw at_j differs
                | inl holds ↦ absurd (
                    ground (
                      arith,
                      free,
                      closed k j i lt (ap (λ n. n.occupied) (sym at_j) ∙ taken) holds less,
                    ))
              ]
        ]

    put-Stands :
        (d : K → Option V)
        → size ≤ 0x8000_0000_0000_0000
        → ((k : K) → find size hash same t k ≡ answer (d k))
        → find size hash same (insert size hash same t key value).0 key ≡ found value
        → Stands (insert size hash same t key value).0 (with_key d key value)
    unfolding find
    put-Stands d small lookup now =
        subst (λ t'. Stands t' (with_key d key value)) (sym filled.result)
          (record {
            settled = filled-IsSettled;
            closed = filled-IsClosed small;
            lookup = λ k. elim (Bool-cases (same key k)) [
              | inl e ↦ rw e (
                  subst (λ k. find size hash same t' k ≡ found value) ((equal key k).0 e)
                    (ap (λ t. find size hash same t key) (sym filled.result) ∙ now))
              | inr differs ↦
                  let ne : key ≢ k = λ e. ground (arith, differs, (equal key k).1 e) in
                  rw differs (find_probe-other k ne size 0 (omega arith) ∙ lookup k)
            ];
          })

  -- For a table that stands for the finite map `d`, of at most 2 ^ 63 buckets, a `==` of keys that
  -- is equality, and calls that run alone, one of three things holds. The key is in `d`, and
  -- `insert` refuses and changes nothing. Or it is not, every bucket that `insert` probes is
  -- taken, and `insert` refuses and changes nothing. Or it is not, `insert` succeeds, and the
  -- table then stands for `d` with the key and its value: `find` gives that value for the key, and
  -- for any other key what it gave before.
  pub insert-refines :
      (t : ℕ → Node K V) (d : K → Option V) (key : K) (value : V)
      → ((a b : K) → (same a b ≡ true) ↔ (a ≡ b))
      → size ≤ 0x8000_0000_0000_0000
      → Stands t d
      → let (t', done) = insert size hash same t key value in
        ((v : V) × (d key ≡ some v) × (done ≡ false) × (t' ≡ t))
        ⊎ (((d key ≡ none)
              × (done ≡ false)
              × (t' ≡ t)
              × ((j : ℕ) → j < size → (t (bucket size hash key j)).occupied ≡ true))
            ⊎ ((d key ≡ none) × (done ≡ true) × Stands t' (with_key d key value)))
  unfolding insert
  insert-refines t d key value equal small st =
      let found_in : (v : V) → answer (d key) ≡ found v → d key ≡ some v =
        λ v e. some_answer (d key) v e in
      elim (insert_lem size hash same t key value ((equal key key).1 refl) st.settled).1 [
        | inl (v, e, r) ↦
            inl (v, found_in v (sym (st.lookup key) ∙ e), ap (λ r. r.1) r, ap (λ r. r.0) r)
        | inr (inl (e, r, all)) ↦ inr (
            inl (
              none_answer (d key) (sym (st.lookup key) ∙ e),
              ap (λ r. r.1) r,
              ap (λ r. r.0) r,
              all,
            ))
        | inr (inr (e, done, now)) ↦ inr (
            inr (
              none_answer (d key) (sym (st.lookup key) ∙ e),
              done,
              put-Stands equal t st.settled st.closed key value
                  (insert_probe-Filled size 0 t key value done) d small st.lookup now,
            ))
      ]
    where
      some_answer : (o : Option V) (v : V) → answer o ≡ found v → o ≡ some v
      some_answer none v e = cc
      some_answer (some w) v e = cc

      none_answer : (o : Option V) → answer o ≡ absent → o ≡ none
      none_answer none e = refl
      none_answer (some w) e = cc

  init-Stands : (key : K) (value : V) → Stands (init key value) (λ _. none)
  unfolding init find
  init-Stands key value = record {
    settled = λ j e. cc;
    closed = λ k r j lt e. absurd (cc);
    lookup =
        λ k. find_probe-absent size 0 (init key value) k (λ j e. cc) (λ j le lt e. absurd (cc));
  }
