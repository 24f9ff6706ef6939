-- ===== src/Map/Lookup.antt =====
-- What `insert` stores, `find` finds.
use native.Mathlib.Decide.{ℕ_discrete}
use mathlib.Core.Bool.{Bool-discrete}
use lockless_concurrent_fram.Common.{
  ℕ, zero, suc, ◌+◌, ◌≤◌, ◌<◌, ◌≡◌, ◌⊎◌, inl, inr, refl, sym, subst, Bool, true, false, arith,
}
use lockless_concurrent_fram.Map.{
  Node, Answer, found, absent, bucket, insert_probe, insert, find_probe, find,
}

-- Between calls that run alone, a bucket that is taken is also written.
abbrev pub IsSettled : {K V : Type 0} → (ℕ → Node K V) → Type 0
IsSettled buckets = (j : ℕ) → (buckets j).occupied ≡ true → (buckets j).ready ≡ true

module _ {K V : Type 0} (size : ℕ) (hash : K → ℕ) (same : K → K → Bool) where
  -- A bucket that is taken is never written again.
  insert_probe-keeps :
      (n i : ℕ) (t : ℕ → Node K V) (key : K) (value : V) (j : ℕ)
      → (t j).occupied ≡ true
      → (insert_probe size hash same n i t key value).0 j ≡ t j
  unfolding insert_probe
  insert_probe-keeps zero i t key value j o = refl
  insert_probe-keeps (suc n) i t key value j o =
      ground (arith, insert_probe-keeps n (suc i) t key value j o)

  insert_probe-settles :
      (n i : ℕ) (t : ℕ → Node K V) (key : K) (value : V)
      → IsSettled t
      → (j : ℕ) → ((insert_probe size hash same n i t key value).0 j).occupied ≡ true
      → ((insert_probe size hash same n i t key value).0 j).ready ≡ true
  unfolding insert_probe
  insert_probe-settles zero i t key value h j o = h j o
  insert_probe-settles (suc n) i t key value h j o =
      ground (arith, h j, o, insert_probe-settles n (suc i) t key value h j)

  find-insert_probe :
      (n i : ℕ) (t : ℕ → Node K V) (key : K) (value : V)
      → same key key ≡ true
      → IsSettled t
      → (insert_probe size hash same n i t key value).1 ≡ true
      → find_probe size hash same n i (insert_probe size hash same n i t key value).0 key
        ≡ found value
  unfolding insert_probe find_probe
  find-insert_probe zero i t key value eq h e = ground arith
  find-insert_probe (suc n) i t key value eq h e = ground (
    arith,
    h (bucket size hash key i),
    eq,
    insert_probe-keeps n (suc i) t key value (bucket size hash key i),
    find-insert_probe n (suc i) t key value eq h,
  )

  -- What the two loops do with one key, from round `i` on: the key is there; or it is not, and every
  -- bucket in reach is taken; or it is not, and `insert` puts it in.
  abbrev Outcome : ℕ → ℕ → (ℕ → Node K V) → K → Answer V → (ℕ → Node K V) × Bool → Type 0
  Outcome n i t key answer result =
      ((v : V) × (answer ≡ found v) × (result ≡ (t, false)))
      ⊎ (((answer ≡ absent)
            × (result ≡ (t, false))
            × ((j : ℕ) → i ≤ j → j < i + n → (t (bucket size hash key j)).occupied ≡ true))
          ⊎ ((answer ≡ absent) × (result.1 ≡ true)))

  later :
      (n i : ℕ) (t : ℕ → Node K V) (key : K) (answer : Answer V) (result : (ℕ → Node K V) × Bool)
      → (t (bucket size hash key i)).occupied ≡ true
      → Outcome n (suc i) t key answer result
      → Outcome (suc n) i t key answer result
  later n i t key answer result o (inl there) = inl there
  later n i t key answer result o (inr (inr put)) = inr (inr put)
  later n i t key answer result o (inr (inl (a, r, all))) = inr (
      inl (
        a,
        r,
        λ j le lt. elim (ℕ_discrete i j) [
          | yes e ↦ subst (λ j. (t (bucket size hash key j)).occupied ≡ true) e o
          | no ne ↦ all j (omega (arith, ne, le)) (omega (arith, lt))
        ],
      ))

  probe-Outcome :
      (n i : ℕ) (t : ℕ → Node K V) (key : K) (value : V)
      → IsSettled t
      → Outcome n i t key
          (find_probe size hash same n i t key)
          (insert_probe size hash same n i t key value)
  unfolding insert_probe find_probe
  probe-Outcome zero i t key value h = inr (inl (refl, refl, λ j le lt. ground (arith, le, lt)))
  probe-Outcome (suc n) i t key value h =
      let node : Node K V = t (bucket size hash key i) in
      elim (Bool-discrete node.occupied true) [
        | no free ↦ inr (inr (ground (arith, free)))
        | yes o ↦ elim (Bool-discrete (same node.key key) true) [
          | yes e ↦ inl (
            node.value,
            ground (arith, o, e, h (bucket size hash key i) o),
            ground (arith, o, e, h (bucket size hash key i) o),
          )
          | no ne ↦
              let ready = h (bucket size hash key i) o in
              let f : find_probe size hash same (suc n) i t key
                  ≡ find_probe size hash same n (suc i) t key =
                ground (arith, o, ne, ready) in
              let r : insert_probe size hash same (suc n) i t key value
                  ≡ insert_probe size hash same n (suc i) t key value =
                ground (arith, o, ne, ready) in
              subst
                (λ a. Outcome (suc n) i t key a (insert_probe size hash same (suc n) i t key value))
                (sym f)
                (subst (Outcome (suc n) i t key (find_probe size hash same n (suc i) t key)) (sym r)
                  (later n i t key _ _ o (probe-Outcome n (suc i) t key value h)))
        ]
      ]

  -- For a table in which every bucket that is taken is written, a key that equals itself, and
  -- calls that run alone: `insert` leaves such a table, and either the key is there, and `insert`
  -- refuses and changes nothing; or it is not, every bucket that it probes is taken, and `insert`
  -- refuses and changes nothing; or it is not, `insert` succeeds, and `find` then returns the
  -- value.
  pub insert_lem :
      (t : ℕ → Node K V) (key : K) (value : V)
      → same key key ≡ true
      → IsSettled t
      → IsSettled (insert size hash same t key value).0
        × (((v : V) × (find size hash same t key ≡ found v)
              × (insert size hash same t key value ≡ (t, false)))
            ⊎ (((find size hash same t key ≡ absent)
                  × (insert size hash same t key value ≡ (t, false))
                  × ((j : ℕ) → j < size → (t (bucket size hash key j)).occupied ≡ true))
                ⊎ ((find size hash same t key ≡ absent)
                    × ((insert size hash same t key value).1 ≡ true)
                    × (find size hash same (insert size hash same t key value).0 key
                        ≡ found value))))
  unfolding insert find
  insert_lem t key value eq h = (
    insert_probe-settles size 0 t key value h,
    elim (probe-Outcome size 0 t key value h) [
      | inl there ↦ inl there
      | inr (inl (a, r, all)) ↦ inr (inl (a, r, λ j lt. all j (omega arith) (omega (arith, lt))))
      | inr (inr (a, r)) ↦ inr (inr (a, r, find-insert_probe size 0 t key value eq h r))
    ],
  )
