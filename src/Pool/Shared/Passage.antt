-- ===== src/Pool/Shared/Passage.antt =====
-- The object that a thread carries through a call of the stack.
use mathlib.Core.List.{map}
use lockless_concurrent_fram.Common.{
  ℕ, ◌≡◌, ◌≢◌, inl, inr, refl, sym, ap, ◌∙◌, subst, Bool, false, not, ◌&&◌, Bool-cases, Option,
  none, some, List, [], ◌∷◌, ◌==◌, update_self, arith,
}
use lockless_concurrent_fram.Common.Words.{max32}
use lockless_concurrent_fram.Stack.{Stack, unpack, null_index}
use lockless_concurrent_fram.Stack.Lifo.{pop}
use lockless_concurrent_fram.Stack.Chain.{Chain}
use lockless_concurrent_fram.Stack.Shared.{
  Pc, idle, push_load, push_next, push_cas, push_write, push_head, push_link, push_try, pushed,
  pop_load, pop_next, pop_cas, pop_read, pop_free, pop_link, pop_try, popped, step, contents_after,
  claim_after,
}
use lockless_concurrent_fram.Stack.Shared.Invariant.{owned, Local, Inv}

abbrev pub as_list : Option ℕ → List ℕ
as_list none = []
as_list (some i) = i ∷ []

-- The item that a push has not yet put on the stack, or that a pop has taken off it.
abbrev pub passing : Pc ℕ → Option ℕ → List ℕ
passing (push_load x) claim = x ∷ []
passing (push_next x old) claim = x ∷ []
passing (push_cas x old next) claim = x ∷ []
passing (push_write x n) claim = x ∷ []
passing (push_head x n) claim = x ∷ []
passing (push_link x n old) claim = x ∷ []
passing (push_try x n old) claim = x ∷ []
passing (pop_read n) claim = as_list claim
passing (pop_free n x) claim = as_list claim
passing (pop_link n x old) claim = as_list claim
passing (pop_try n x old) claim = as_list claim
passing (popped r) claim = as_list r
passing _ claim = []

-- A thread with a node has an item.
pub owned-passing :
    (m : Stack ℕ) (p : Pc ℕ) (claim : Option ℕ) (n : ℕ)
    → Local m claim p
    → owned p ≡ some n
    → (i : ℕ) × (passing p claim ≡ i ∷ [])
owned-passing m (push_write x k) claim n h e = (x, refl)
owned-passing m (push_head x k) claim n h e = (x, refl)
owned-passing m (push_link x k old) claim n h e = (x, refl)
owned-passing m (push_try x k old) claim n h e = (x, refl)
owned-passing m (pop_read k) claim n h e = (m.node_data k, ap as_list h)
owned-passing m (pop_free k x) claim n h e = (x, ap as_list h)
owned-passing m (pop_link k x old) claim n h e = (x, ap as_list h.0)
owned-passing m (pop_try k x old) claim n h e = (x, ap as_list h.0)
owned-passing m p claim n h e = cc

-- What a step of the stack does to its contents and to what the thread carries.
pub data Effect (q carried : List ℕ) : List ℕ → List ℕ → Type 0 where
  kept : Effect q carried q carried
  put_in : (x : ℕ) → carried ≡ x ∷ [] → Effect q carried (x ∷ q) []
  took_out : (x : ℕ) (rest : List ℕ) → q ≡ x ∷ rest → carried ≡ [] → Effect q carried rest (x ∷ [])

module _ {m : Stack ℕ} {pc : ℕ → Pc ℕ} {q : List ℕ} {claim : ℕ → Option ℕ} {moves : ℕ}
    {used spare : List ℕ} (inv : Inv m pc q claim moves used spare) where
  -- The stack is not empty while its head has an index.
  top_item : (unpack m.head).index ≢ max32 → (x : ℕ) × (rest : List ℕ) × (q ≡ x ∷ rest)
  top_item full = by_used used inv.used_chain inv.items
    where
      by_used :
          (used : List ℕ)
          → Chain m.node_next (unpack m.head).index used
          → map m.node_data used ≡ q
          → (x : ℕ) × (rest : List ℕ) × (q ≡ x ∷ rest)
      by_used [] c e = absurd (full c)
      by_used (i ∷ used) c e = (m.node_data i, map m.node_data used, sym e)

  abbrev Goes : ℕ → Bool → Pc ℕ → Type 0
  Goes u b p =
      let (m', p', e) = step b m p in
      Effect q (passing p (claim u)) (contents_after e q) (passing p' (claim_after u e q claim u))

  -- A step does not lose an item, if `push_next` has an index.
  pub step-Effect :
      (u : ℕ) (b : Bool) (p : Pc ℕ)
      → pc u ≡ p
      → ((x old : ℕ) → p ≡ push_next x old → (unpack old).index ≢ max32)
      → Goes u b p
  unfolding step
  step-Effect u b idle e h = kept
  step-Effect u b (push_load x) e h = kept
  step-Effect u b (push_next x old) e h =
      let index : ((unpack old).index == null_index) ≡ false = ground (arith, h x old refl) in
      rw index kept
  step-Effect u b (push_cas x old next) e h = elim (Bool-cases (not b && m.free_head == old)) [
    | inl won ↦ rw won kept
    | inr lost ↦ rw lost kept
  ]
  step-Effect u b (push_write x n) e h = kept
  step-Effect u b (push_head x n) e h = kept
  step-Effect u b (push_link x n old) e h = kept
  step-Effect u b (push_try x n old) e h = elim (Bool-cases (not b && m.head == old)) [
    | inl won ↦ rw won (put_in x refl)
    | inr lost ↦ rw lost kept
  ]
  step-Effect u b (pushed r) e h = kept
  step-Effect u b pop_load e h = kept
  step-Effect u b (pop_next old) e h = elim (Bool-cases ((unpack old).index == null_index)) [
    | inl null ↦ rw null kept
    | inr index ↦ rw index kept
  ]
  step-Effect u b (pop_cas old next) e h = elim (Bool-cases (not b && m.head == old)) [
    | inl won ↦
        let same : m.head ≡ old = ground (arith, won) in
        let own : Local m (claim u) (pop_cas old next) =
          subst (Local m (claim u)) e (inv.locals u) in
        let (x, rest, top) =
          top_item (λ null. own.1 (ap (λ w. (unpack w).index) (sym same) ∙ null)) in
        rw (won, update_self claim u (pop q).1)
          (subst (λ r. Effect q [] (pop r).0 (as_list (pop r).1)) (sym top)
            (took_out x rest top refl))
    | inr lost ↦ rw lost kept
  ]
  step-Effect u b (pop_read n) e h = kept
  step-Effect u b (pop_free n x) e h = kept
  step-Effect u b (pop_link n x old) e h = kept
  step-Effect u b (pop_try n x old) e h =
      let own : Local m (claim u) (pop_try n x old) = subst (Local m (claim u)) e (inv.locals u) in
      elim (Bool-cases (not b && m.free_head == old)) [
        | inl won ↦ rw won (subst (λ c. Effect q (as_list c) q (x ∷ [])) (sym own.0) kept)
        | inr lost ↦ rw lost kept
      ]
  step-Effect u b (popped r) e h = kept
