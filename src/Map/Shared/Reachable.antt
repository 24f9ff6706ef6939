-- ===== src/Map/Shared/Reachable.antt =====
-- The invariant of the table at its start, after every step, and in every reachable state.
use lockless_concurrent_fram.Common.{
  IsIn, ℕ, ◌+◌, ◌<◌, ◌≡◌, ◌↔◌, inl, inr, refl, subst, Bool, true, false, Bool-cases, none, some,
  List, ltb, ltb→lt, ltb-false→ge, update, arith,
}
use native.Mathlib.Decide.{ℕ_discrete}
use lockless_concurrent_fram.Map.{Node, bucket, init}
use lockless_concurrent_fram.Map.Shared.{
  Pc, idle, insert_load, insert_ready, insert_key, insert_cas, write_key, write_value, publish,
  inserted, find_load, find_ready, find_key, find_value, answered, step, System, log_after, advance,
  Step, call_insert, call_find, move, start, Reach, here, next,
}
use lockless_concurrent_fram.Map.Shared.Invariant.{writing, Taken, Differs, Local, Inv}
use lockless_concurrent_fram.Map.Shared.Frame.{quiet-Inv}
use lockless_concurrent_fram.Map.Shared.Writes.{
  claim-Inv, write_key-Inv, write_value-Inv, publish-Inv,
}

-- What a loop has learnt when it goes on to the next round.
later {ℓ} : (P : ℕ → Type ℓ) (i : ℕ) → ((r : ℕ) → r < i → P r) → P i → (r : ℕ) → r < i + 1 → P r
later P i h new r lt = elim (ℕ_discrete i r) [
  | yes e ↦ subst P e new
  | no ne ↦ h r (omega (arith, ne, lt))
]

module _ {K V : Type 0} (size : ℕ) (hash : K → ℕ) (same : K → K → Bool)
    (equal : (a b : K) → (same a b ≡ true) ↔ (a ≡ b)) where
  module _ {m : ℕ → Node K V} {log : List (K × V)} {pc : ℕ → Pc K V}
      (inv : Inv size hash m log pc) where
    quiet :
        (u : ℕ) (p : Pc K V)
        → Local size hash m log p
        → writing size hash p ≡ none
        → Inv size hash m log (update pc u p)
    quiet u p own no_write = quiet-Inv size hash inv u p own (λ j e. cc)

    step-Inv :
        (u : ℕ) (p : Pc K V)
        → pc u ≡ p
        → let (m', p', e) = step size hash same m p in
          Inv size hash m' (log_after e log) (update pc u p')
    unfolding step
    step-Inv u idle e = quiet u idle tt refl
    step-Inv u (insert_load k v i) e =
        let own : Taken size hash m k i = subst (Local size hash m log) e (inv.locals u) in
        elim (Bool-cases (ltb i size)) [
          | inl lt ↦ elim (Bool-cases (m (bucket size hash k i)).occupied) [
            | inl o ↦ rw (lt, o) (quiet u (insert_ready k v i) (own, o) refl)
            | inr o ↦ rw (lt, o) (quiet u (insert_cas k v i) (own, ltb→lt i size lt) refl)
          ]
          | inr ge ↦ rw ge (
              quiet u (inserted k v false)
                (inr (λ r lt. own r (omega (arith, lt, ltb-false→ge i size ge)))) refl)
        ]
    step-Inv u (insert_ready k v i) e =
        let own : Local size hash m log (insert_ready k v i) =
          subst (Local size hash m log) e (inv.locals u) in
        elim (Bool-cases (m (bucket size hash k i)).ready) [
          | inl r ↦ rw r (quiet u (insert_key k v i) (own.0, own.1, r) refl)
          | inr r ↦ rw r (quiet u (insert_load k v (i + 1)) (later _ i own.0 own.1) refl)
        ]
    step-Inv u (insert_key k v i) e =
        let own : Local size hash m log (insert_key k v i) =
          subst (Local size hash m log) e (inv.locals u) in
        let b : ℕ = bucket size hash k i in
        elim (Bool-cases (same (m b).key k)) [
          | inl s ↦ rw s (
              quiet u (inserted k v false)
                (inl (
                  (m b).value,
                  subst (λ a. IsIn (a, (m b).value) log) ((equal (m b).key k).0 s)
                      (inv.logged b own.2),
                ))
                refl)
          | inr s ↦ rw s (quiet u (insert_load k v (i + 1)) (later _ i own.0 own.1) refl)
        ]
    step-Inv u (insert_cas k v i) e =
        let own : Local size hash m log (insert_cas k v i) =
          subst (Local size hash m log) e (inv.locals u) in
        elim (Bool-cases (m (bucket size hash k i)).occupied) [
          | inl o ↦ rw o (quiet u (insert_load k v (i + 1)) (later _ i own.0 o) refl)
          | inr o ↦ rw o (claim-Inv size hash inv u k v i e o)
        ]
    step-Inv u (write_key k v i) e = write_key-Inv size hash inv u k v i e
    step-Inv u (write_value k v i) e = write_value-Inv size hash inv u k v i e
    step-Inv u (publish k v i) e = publish-Inv size hash inv u k v i e
    step-Inv u (inserted k v r) e =
        quiet u (inserted k v r) (subst (Local size hash m log) e (inv.locals u)) refl
    step-Inv u (find_load k i) e =
        let own : Differs size hash m k i = subst (Local size hash m log) e (inv.locals u) in
        elim (Bool-cases (ltb i size)) [
          | inl lt ↦ elim (Bool-cases (m (bucket size hash k i)).occupied) [
            | inl o ↦ rw (lt, o) (quiet u (find_ready k i) own refl)
            | inr o ↦ rw (lt, o) (quiet u (answered k none) tt refl)
          ]
          | inr ge ↦ rw ge (quiet u (answered k none) tt refl)
        ]
    step-Inv u (find_ready k i) e =
        let own : Differs size hash m k i = subst (Local size hash m log) e (inv.locals u) in
        elim (Bool-cases (m (bucket size hash k i)).ready) [
          | inl r ↦ rw r (quiet u (find_key k i) (own, r) refl)
          | inr r ↦ rw r (quiet u (find_ready k i) own refl)
        ]
    step-Inv u (find_key k i) e =
        let own : Local size hash m log (find_key k i) =
          subst (Local size hash m log) e (inv.locals u) in
        let b : ℕ = bucket size hash k i in
        elim (Bool-cases (same (m b).key k)) [
          | inl s ↦ rw s (quiet u (find_value k i) (own.1, (equal (m b).key k).0 s) refl)
          | inr s ↦ rw s (
              quiet u (find_load k (i + 1))
                (later _ i own.0 (own.1, λ q. ground (arith, s, (equal (m b).key k).1 q))) refl)
        ]
    step-Inv u (find_value k i) e =
        let own : Local size hash m log (find_value k i) =
          subst (Local size hash m log) e (inv.locals u) in
        let b : ℕ = bucket size hash k i in
        quiet u (answered k (some (m b).value))
          (subst (λ a. IsIn (a, (m b).value) log) own.1 (inv.logged b own.0)) refl
    step-Inv u (answered k r) e =
        quiet u (answered k r) (subst (Local size hash m log) e (inv.locals u)) refl

  abbrev pub Inv-System : System K V → Type 0
  Inv-System s = Inv size hash s.mem s.log s.pc

  start-Inv : (blank : K × V) → Inv-System (start blank.0 blank.1)
  unfolding start init
  start-Inv blank = record {
    sound = λ j e. cc;
    logged = λ j e. cc;
    placed = λ x h. absurd h;
    locals = λ u. tt;
    alone = λ u w j ne e. cc;
  }

  Step-Inv : {s t : System K V} → Step size hash same s t → Inv-System s → Inv-System t
  unfolding advance
  Step-Inv {s} (call_insert u k v ready) inv =
      quiet inv u (insert_load k v 0) (λ r lt. absurd (omega (arith, lt))) refl
  Step-Inv {s} (call_find u k ready) inv =
      quiet inv u (find_load k 0) (λ r lt. absurd (omega (arith, lt))) refl
  Step-Inv {s} (move u) inv = step-Inv inv u (s.pc u) refl

  pub Reach-Inv : {blank : K × V} {s : System K V} → Reach size hash same blank s → Inv-System s
  Reach-Inv {blank} here = start-Inv blank
  Reach-Inv (next r st) = Step-Inv st (Reach-Inv r)
