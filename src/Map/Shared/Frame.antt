-- ===== src/Map/Shared/Frame.antt =====
-- What one thread's step leaves to the others: the two ways in which a step goes on.
use lockless_concurrent_fram.Common.{
  IsIn, ℕ, ◌≡◌, ◌≢◌, ◌⊎◌, inl, inr, sym, ap, ◌∙◌, subst, true, false, some, List, update,
  update_self, update_ne, update_all, arith,
}
use native.Mathlib.Decide.{ℕ_discrete}
use lockless_concurrent_fram.Map.{Node}
use lockless_concurrent_fram.Map.Shared.{Pc, idle}
use lockless_concurrent_fram.Map.Shared.Invariant.{
  writing, Local, Placed, Inv, Onward, Local-Onward, Placed-Onward,
}

module _ {K V : Type 0} (size : ℕ) (hash : K → ℕ) {m : ℕ → Node K V} {log : List (K × V)}
    {pc : ℕ → Pc K V} (inv : Inv size hash m log pc) where
  alone-update :
      (u : ℕ) (p : Pc K V)
      → ((w j : ℕ) → u ≢ w → writing size hash p ≡ some j → writing size hash (pc w) ≢ some j)
      → (a b j : ℕ) → a ≢ b
      → writing size hash (update pc u p a) ≡ some j
      → writing size hash (update pc u p b) ≢ some j
  alone-update u p new a b j ne e f = elim (ℕ_discrete u a) [
    | yes i ↦
        let away : u ≢ b = λ g. ne (sym i ∙ g) in
        new b j away (ap (writing size hash) (sym (update_self pc u p) ∙ ap (update pc u p) i) ∙ e)
          (ap (writing size hash) (sym (update_ne pc u b p away)) ∙ f)
    | no i ↦
        let old : writing size hash (pc a) ≡ some j =
          ap (writing size hash) (sym (update_ne pc u a p i)) ∙ e in
        elim (ℕ_discrete u b) [
          | yes k ↦
              new a j i
                (ap (writing size hash) (sym (update_self pc u p) ∙ ap (update pc u p) k) ∙ f) old
          | no k ↦ inv.alone a b j ne old (ap (writing size hash) (sym (update_ne pc u b p k)) ∙ f)
        ]
  ]

  -- A step that writes nothing.
  pub quiet-Inv :
      (u : ℕ) (p : Pc K V)
      → Local size hash m log p
      → ((j : ℕ) → writing size hash p ≡ some j → writing size hash (pc u) ≡ some j)
      → Inv size hash m log (update pc u p)
  quiet-Inv u p own less = record {
    sound = inv.sound;
    logged = inv.logged;
    placed = inv.placed;
    locals = update_all (Local size hash m log) pc u p own (λ w ne. inv.locals w);
    alone = alone-update u p (λ w j ne e. inv.alone u w j ne (less j e));
  }

  -- A step that writes an unpublished bucket which no other thread has claimed.
  module _ (u b : ℕ) (n : Node K V) (log' : List (K × V)) (unread : (m b).ready ≡ false)
      (held : n.occupied ≡ true) (mine : (w : ℕ) → u ≢ w → writing size hash (pc w) ≢ some b)
      (grows : (x : K × V) → IsIn x log → IsIn x log') where
    pub other : (j : ℕ) → (m j).ready ≡ true → b ≢ j
    other j r e = ground (arith, unread, r, ap (λ j. (m j).ready) e)

    pub write-Onward :
        (p : Pc K V) → writing size hash p ≢ some b → Onward size hash m log p (update m b n) log'
    write-Onward p away = record {
      taken = λ j h. elim (ℕ_discrete b j) [
        | yes e ↦ subst (λ j. (update m b n j).occupied ≡ true) e (rw (update_self m b n) held)
        | no ne ↦ rw (update_ne m b j n ne) h
      ];
      written = λ j r. update_ne m b j n (other j r);
      claimed = λ j e. update_ne m b j n (λ f. away (e ∙ ap some (sym f)));
      grows = grows;
    }

    pub write-Inv :
        (p : Pc K V)
        → (n.ready ≡ true → IsIn (n.key, n.value) log')
        → ((x : K × V) → IsIn x log' → IsIn x log ⊎ Placed size hash (update m b n) x)
        → Local size hash (update m b n) log' p
        → ((j : ℕ) → writing size hash p ≡ some j → j ≡ b)
        → Inv size hash (update m b n) log' (update pc u p)
    write-Inv p entry new own at_b = record {
      sound =
          update_all (λ n. n.ready ≡ true → n.occupied ≡ true) m b n (λ _. held)
            (λ j _. inv.sound j);
      logged =
          update_all (λ n. n.ready ≡ true → IsIn (n.key, n.value) log') m b n entry
            (λ j _ r. grows ((m j).key, (m j).value) (inv.logged j r));
      placed = λ x h. elim (new x h) [
        | inl old ↦ Placed-Onward size hash x (write-Onward idle (λ e. cc)) (inv.placed x old)
        | inr placed ↦ placed
      ];
      locals =
          update_all (Local size hash (update m b n) log') pc u p own (λ w ne.
            Local-Onward size hash (pc w) (write-Onward (pc w) (mine w ne)) (inv.locals w));
      alone =
          alone-update u p (λ w j ne e.
            subst (λ j. writing size hash (pc w) ≢ some j) (sym (at_b j e)) (mine w ne));
    }
