-- ===== src/Map/Shared/Writes.antt =====
-- The four steps of `insert` that write to a bucket.
use lockless_concurrent_fram.Common.{
  ℕ, ◌≡◌, ◌≢◌, inl, inr, refl, sym, ap, ◌∙◌, subst, true, false, some, List, ◌∷◌, update,
  update_self, some-injective, arith,
}
use lockless_concurrent_fram.Map.{Node, bucket}
use lockless_concurrent_fram.Map.Shared.{Pc, insert_cas, write_key, write_value, publish, inserted}
use lockless_concurrent_fram.Map.Shared.Invariant.{writing, Taken, Claimed, Local, Placed, Inv}
use lockless_concurrent_fram.Map.Shared.Frame.{write-Inv}

module _ {K V : Type 0} (size : ℕ) (hash : K → ℕ) where
  writing-occupied :
      (m : ℕ → Node K V) (log : List (K × V)) (p : Pc K V) (b : ℕ)
      → Local size hash m log p
      → writing size hash p ≡ some b
      → (m b).occupied ≡ true
  writing-occupied m log (write_key k v i) b h e =
      subst (λ b. (m b).occupied ≡ true) (some-injective e) h.2
  writing-occupied m log (write_value k v i) b h e =
      subst (λ b. (m b).occupied ≡ true) (some-injective e) h.0.2
  writing-occupied m log (publish k v i) b h e =
      subst (λ b. (m b).occupied ≡ true) (some-injective e) h.0.2
  writing-occupied m log p b h e = cc

  module _ {m : ℕ → Node K V} {log : List (K × V)} {pc : ℕ → Pc K V} (inv : Inv size hash m log pc)
      (u : ℕ) (k : K) (v : V) (i : ℕ) where
    abbrev b : ℕ
    b = bucket size hash k i

    -- Thread `u` alone writes the bucket that it has claimed.
    mine : writing size hash (pc u) ≡ some b → (w : ℕ) → u ≢ w → writing size hash (pc w) ≢ some b
    mine e w ne f = inv.alone u w b ne e f

    Taken-update :
        (n : Node K V)
        → n.occupied ≡ true
        → Taken size hash m k i
        → Taken size hash (update m b n) k i
    Taken-update n held t r lt = update_all_taken (bucket size hash k r) (t r lt)
      where
        update_all_taken : (j : ℕ) → (m j).occupied ≡ true → (update m b n j).occupied ≡ true
        update_all_taken j h = ground (arith, h, held)

    pub claim-Inv :
        pc u ≡ insert_cas k v i
        → (m b).occupied ≡ false
        → Inv size hash
            (update m b (record (m b) { occupied = true }))
            log
            (update pc u (write_key k v i))
    claim-Inv e free =
        let own : Local size hash m log (insert_cas k v i) =
          subst (Local size hash m log) e (inv.locals u) in
        let n : Node K V = record (m b) { occupied = true } in
        let unread : (m b).ready ≡ false = ground (arith, free, inv.sound b) in
        write-Inv size hash inv u b n log unread refl
          (λ w ne f. ground (arith, free, writing-occupied m log (pc w) b (inv.locals w) f))
          (λ x h. h) (write_key k v i) (λ r. ground (arith, unread, r)) (λ x h. inl h)
          (
            Taken-update n refl own.0,
            own.1,
            ap (λ n. n.occupied) (update_self m b n),
            ap (λ n. n.ready) (update_self m b n) ∙ unread,
          )
          (λ j f. sym (some-injective f))

    -- What stays of the claim while the bucket is filled.
    Claimed-fill :
        (n : Node K V)
        → n.occupied ≡ true
        → n.ready ≡ false
        → Claimed size hash m k i
        → Claimed size hash (update m b n) k i
    Claimed-fill n held unread c = (
      Taken-update n held c.0,
      c.1,
      ap (λ n. n.occupied) (update_self m b n) ∙ held,
      ap (λ n. n.ready) (update_self m b n) ∙ unread,
    )

    pub write_key-Inv :
        pc u ≡ write_key k v i
        → Inv size hash
            (update m b (record (m b) { key = k }))
            log
            (update pc u (write_value k v i))
    write_key-Inv e =
        let own : Local size hash m log (write_key k v i) =
          subst (Local size hash m log) e (inv.locals u) in
        let n : Node K V = record (m b) { key = k } in
        write-Inv size hash inv u b n log own.3 own.2 (mine (ap (writing size hash) e)) (λ x h. h)
          (write_value k v i) (λ r. ground (arith, own.3, r)) (λ x h. inl h)
          (Claimed-fill n own.2 own.3 own, ap (λ n. n.key) (update_self m b n))
          (λ j f. sym (some-injective f))

    pub write_value-Inv :
        pc u ≡ write_value k v i
        → Inv size hash (update m b (record (m b) { value = v })) log (update pc u (publish k v i))
    write_value-Inv e =
        let own : Local size hash m log (write_value k v i) =
          subst (Local size hash m log) e (inv.locals u) in
        let n : Node K V = record (m b) { value = v } in
        write-Inv size hash inv u b n log own.0.3 own.0.2 (mine (ap (writing size hash) e))
          (λ x h. h) (publish k v i) (λ r. ground (arith, own.0.3, r)) (λ x h. inl h)
          (
            Claimed-fill n own.0.2 own.0.3 own.0,
            ap (λ n. n.key) (update_self m b n) ∙ own.1,
            ap (λ n. n.value) (update_self m b n),
          )
          (λ j f. sym (some-injective f))

    pub publish-Inv :
        pc u ≡ publish k v i
        → Inv size hash
            (update m b (record (m b) { ready = true }))
            ((k, v) ∷ log)
            (update pc u (inserted k v true))
    publish-Inv e =
        let own : Local size hash m log (publish k v i) =
          subst (Local size hash m log) e (inv.locals u) in
        let n : Node K V = record (m b) { ready = true } in
        let put : Placed size hash (update m b n) (k, v) = (
          i,
          own.0.1,
          ap (λ n. n.ready) (update_self m b n),
          ap (λ n. n.key) (update_self m b n) ∙ own.1,
          ap (λ n. n.value) (update_self m b n) ∙ own.2,
          Taken-update n own.0.2 own.0.0,
        ) in
        write-Inv size hash inv u b n ((k, v) ∷ log) own.0.3 own.0.2
          (mine (ap (writing size hash) e)) (λ x h. inr h) (inserted k v true)
          (λ r. inl (rw (own.1, own.2) refl))
          (λ x h. elim h [
            | inl f ↦ inr (subst (Placed size hash (update m b n)) (sym f) put)
            | inr old ↦ inl old
          ])
          (inl refl) (λ j f. ground (arith, f))
