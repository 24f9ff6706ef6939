-- ===== src/Map/Shared/Safety.antt =====
-- What the two-phase commit of `insert` gives, whatever the threads do.
use native.Mathlib.Decide.{ℕ_discrete}
use lockless_concurrent_fram.Common.{
  IsIn, ℕ, ◌≤◌, ◌<◌, ◌≡◌, ◌≢◌, ◌↔◌, ◌⊎◌, inl, inr, refl, sym, ap, ◌∙◌, subst, Bool, true, false,
  Bool-cases, Option, none, some, List, ltb, ltb→lt, ltb-false→ge, update_self, some-injective,
  arith,
}
use lockless_concurrent_fram.Map.{Node, bucket, find}
use lockless_concurrent_fram.Map.Shared.{
  Pc, insert_key, write_key, write_value, inserted, find_load, find_key, find_value, answered, step,
  System, advance, Reach, is_ready,
}
use lockless_concurrent_fram.Map.Shared.Invariant.{
  writing, Taken, Differs, Local, Placed, Inv, Settled,
}
use lockless_concurrent_fram.Map.Shared.Reachable.{Reach-Inv}
use lockless_concurrent_fram.Map.Shared.Found.{IsMet, find-IsMet}

module _ {K V : Type 0} (size : ℕ) (hash : K → ℕ) where
  -- The bucket whose `key` or `value` the next step of a thread writes, or reads.
  abbrev pub writes : Pc K V → Option ℕ
  writes (write_key k v i) = some (bucket size hash k i)
  writes (write_value k v i) = some (bucket size hash k i)
  writes _ = none

  abbrev pub reads : Pc K V → Option ℕ
  reads (insert_key k v i) = some (bucket size hash k i)
  reads (find_key k i) = some (bucket size hash k i)
  reads (find_value k i) = some (bucket size hash k i)
  reads _ = none

  writes-unready :
      (m : ℕ → Node K V) (log : List (K × V)) (p : Pc K V) (b : ℕ)
      → Local size hash m log p
      → writes p ≡ some b
      → ((m b).ready ≡ false) × (writing size hash p ≡ some b)
  writes-unready m log (write_key k v i) b h e =
      (subst (λ b. (m b).ready ≡ false) (some-injective e) h.3, e)
  writes-unready m log (write_value k v i) b h e =
      (subst (λ b. (m b).ready ≡ false) (some-injective e) h.0.3, e)
  writes-unready m log p b h e = cc

  reads-ready :
      (m : ℕ → Node K V) (log : List (K × V)) (p : Pc K V) (b : ℕ)
      → Local size hash m log p
      → reads p ≡ some b
      → (m b).ready ≡ true
  reads-ready m log (insert_key k v i) b h e =
      subst (λ b. (m b).ready ≡ true) (some-injective e) h.2
  reads-ready m log (find_key k i) b h e = subst (λ b. (m b).ready ≡ true) (some-injective e) h.1
  reads-ready m log (find_value k i) b h e = subst (λ b. (m b).ready ≡ true) (some-injective e) h.0
  reads-ready m log p b h e = cc

-- What `find` is to return of a key, when the table holds what is in the list.
abbrev pub IsAnswer : {K V : Type 0} → List (K × V) → K → Option V → Type 0
IsAnswer log k (some v) = IsIn (k, v) log
IsAnswer {V = V} log k none = (v : V) → ¬ IsIn (k, v) log

abbrev answer_of : {K V : Type 0} → K × Option V → Pc K V → K × Option V
answer_of other (answered k r) = (k, r)
answer_of other _ = other

answered-IsAnswer :
    {K V : Type 0} (log : List (K × V)) (l k : K) (a b : Option V)
    → answered l a ≡ answered k b
    → IsAnswer log l a
    → IsAnswer log k b
answered-IsAnswer log l k a b e h = subst (λ x. IsAnswer log x.0 x.1) (ap (answer_of (l, a)) e) h

module _ {K V : Type 0} (size : ℕ) (hash : K → ℕ) (same : K → K → Bool)
    (equal : (a b : K) → (same a b ≡ true) ↔ (a ≡ b)) {blank : K × V} {s : System K V}
    (r : Reach size hash same blank s) where
  inv : Inv size hash s.mem s.log s.pc
  inv = Reach-Inv size hash same equal r

  -- In every state that threads reach from a new table, for a `==` of keys that is equality: while
  -- one thread is about to write the key or the value of a bucket, no other thread is about to
  -- write or read either of the two.
  pub fields_exclusive :
      (u w b : ℕ)
      → u ≢ w
      → writes size hash (s.pc u) ≡ some b
      → (writes size hash (s.pc w) ≢ some b) × (reads size hash (s.pc w) ≢ some b)
  fields_exclusive u w b ne e =
      let at_u = writes-unready size hash s.mem s.log (s.pc u) b (inv.locals u) e in
      (
        (λ f.
            inv.alone u w b ne at_u.1
              (writes-unready size hash s.mem s.log (s.pc w) b (inv.locals w) f).1),
        λ f. ground (arith, at_u.0, reads-ready size hash s.mem s.log (s.pc w) b (inv.locals w) f),
      )

  met :
      (k : K) (v : V)
      → IsIn (k, v) s.log
      → Placed size hash s.mem (k, v)
        × IsMet size hash same s.mem s.log k (find size hash same s.mem k)
  met k v h =
      let stands = inv.placed (k, v) h in
      (stands, find-IsMet size hash same equal s.mem s.log inv.sound inv.logged k v stands)

  -- In every state that threads reach from a new table, for a `==` of keys that is equality: when
  -- `insert` has returned true, its key and value were published and stand in a ready bucket, and
  -- every bucket that the key meets before it is taken; and `find` of the key, run on the table as
  -- it stands, waits for a bucket of its probe sequence that is taken and not ready, or returns a
  -- value that was published under the key. When `insert` has returned false, the same holds of
  -- the key with some value that was published; or every bucket of the table is taken.
  pub insert_result :
      (u : ℕ) (k : K) (v : V) (result : Bool)
      → s.pc u ≡ inserted k v result
      → ((result ≡ true)
          × IsIn (k, v) s.log
          × Placed size hash s.mem (k, v)
          × IsMet size hash same s.mem s.log k (find size hash same s.mem k))
        ⊎ ((result ≡ false)
            × (((w : V) × IsIn (k, w) s.log
                  × Placed size hash s.mem (k, w)
                  × IsMet size hash same s.mem s.log k (find size hash same s.mem k))
                ⊎ Taken size hash s.mem k size))
  insert_result u k v true e =
      let own : IsIn (k, v) s.log = subst (Local size hash s.mem s.log) e (inv.locals u) in
      let (stands, seen) = met k v own in inl (refl, own, stands, seen)
  insert_result u k v false e =
      let own : Settled size hash s.mem s.log k v false =
        subst (Local size hash s.mem s.log) e (inv.locals u) in
      inr (
        refl,
        elim own [
          | inl (w, h) ↦ let (stands, seen) = met k w h in inl (w, h, stands, seen)
          | inr taken ↦ inr taken
        ],
      )

  -- A lookup that has met a free bucket, or has gone round.
  absent :
      (u i : ℕ) (k : K)
      → s.pc u ≡ find_load k i
      → (i < size → (s.mem (bucket size hash k i)).occupied ≡ false)
      → (v : V) → ¬ IsIn (k, v) s.log
  absent u i k e free v h =
      let (r, lt, ready, key, value, taken) = inv.placed (k, v) h in
      let seen : Differs size hash s.mem k i =
        subst (Local size hash s.mem s.log) e (inv.locals u) in
      let before : i ≤ r = elim (Bool-cases (ltb r i)) [
        | inl less ↦ absurd ((seen r (ltb→lt r i less)).1 key)
        | inr ge ↦ ltb-false→ge r i ge
      ] in
      let free_i = free (omega (arith, before, lt)) in
      elim (ℕ_discrete i r) [
        | yes same_round ↦ ground (
          arith,
          free_i,
          inv.sound (bucket size hash k i)
              (subst (λ r. (s.mem (bucket size hash k r)).ready ≡ true) (sym same_round) ready),
        )
        | no ne ↦ ground (arith, free_i, taken i (omega (arith, before, ne)))
      ]

  IsAnswer-step :
      (u : ℕ) (k : K) (result : Option V) (p : Pc K V)
      → s.pc u ≡ p
      → is_ready p ≡ false
      → (step size hash same s.mem p).1 ≡ answered k result
      → IsAnswer s.log k result
  unfolding step
  IsAnswer-step u k result (find_value l i) e busy f =
      let own : Local size hash s.mem s.log (find_value l i) =
        subst (Local size hash s.mem s.log) e (inv.locals u) in
      let b : ℕ = bucket size hash l i in
      let entry : IsIn (l, (s.mem b).value) s.log =
        subst (λ a. IsIn (a, (s.mem b).value) s.log) own.1 (inv.logged b own.0) in
      answered-IsAnswer s.log l k (some (s.mem b).value) result f entry
  IsAnswer-step u k result (find_load l i) e busy f = elim (Bool-cases (ltb i size)) [
    | inl lt ↦ elim (Bool-cases (s.mem (bucket size hash l i)).occupied) [
      | inl o ↦ ground (arith, lt, o, f)
      | inr o ↦ answered-IsAnswer s.log l k none result (rw (lt, o) at f) (absent u i l e (λ _. o))
    ]
    | inr ge ↦
        answered-IsAnswer s.log l k none result (rw ge at f)
          (absent u i l e (λ lt. absurd (omega (arith, lt, ltb-false→ge i size ge))))
  ]
  IsAnswer-step u k result p e busy f = ground (arith, busy, f)

  -- In every state that threads reach from a new table, for a `==` of keys that is equality: a
  -- value that `find` returns was published under its key, and when `find` returns false, nothing
  -- has been published under its key before the step with which it returns.
  pub find_result :
      (u : ℕ) (k : K) (result : Option V)
      → is_ready (s.pc u) ≡ false
      → (advance size hash same u s).pc u ≡ answered k result
      → IsAnswer s.log k result
  unfolding advance
  find_result u k result busy f =
      IsAnswer-step u k result (s.pc u) refl busy (sym (update_self s.pc u _) ∙ f)
