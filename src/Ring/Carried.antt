-- ===== src/Ring/Carried.antt =====
-- From the items of the calls of `try_push` to those of the history.
use lockless_concurrent_fram.Common.{
  ℕ, zero, suc, ◌≡◌, inl, inr, subst, Bool, true, false, some, List, [], ◌∷◌, ◌++◌, update_all,
  get_elem?, ◌==◌, Bool-cases,
}
use lockless_concurrent_fram.Common.Words.{add64, sub64, is_negative}
use lockless_concurrent_fram.Ring.{
  Memory, Pc, idle, push_load, push_seq, push_cas, push_write, push_publish, pushed, pop_load,
  pop_seq, pop_cas, pop_read, pop_publish, popped, slot, after_push_seq, after_pop_seq, log_after,
  step, System, advance,
}

module _ {T : Type 0} (P : T → Type 0) where
  abbrev pub AllOf : List T → Type 0
  AllOf [] = Unit
  AllOf (x ∷ xs) = P x × AllOf xs

  -- The item of a push whose ticket is yet to be reserved.
  abbrev pub Carries : Pc T → Type 0
  Carries (push_load x) = P x
  Carries (push_seq x _) = P x
  Carries (push_cas x _) = P x
  Carries _ = Unit

  AllOf-snoc : (xs : List T) (x : T) → AllOf xs → P x → AllOf (xs ++ x ∷ [])
  AllOf-snoc [] x all new = (new, tt)
  AllOf-snoc (y ∷ xs) x all new = (all.0, AllOf-snoc xs x all.1 new)

  pub AllOf-get : (xs : List T) (n : ℕ) {x : T} → AllOf xs → get_elem? xs n ≡ some x → P x
  AllOf-get [] n all e = cc
  AllOf-get (y ∷ xs) zero {x} all e = let f : y ≡ x = cc in subst P f all.0
  AllOf-get (y ∷ xs) (suc n) all e = AllOf-get xs n all.1 e

  after_push_seq-Carries : (x : T) (head diff : ℕ) → P x → Carries (after_push_seq x head diff)
  after_push_seq-Carries x head diff h = elim (Bool-cases (diff == 0)) [
    | inl e ↦ rw e h
    | inr e ↦ elim (Bool-cases (is_negative diff)) [ inl f ↦ rw (e, f) tt | inr f ↦ rw (e, f) h ]
  ]

  after_pop_seq-Carries : (tail diff : ℕ) → Carries (after_pop_seq tail diff)
  after_pop_seq-Carries tail diff = elim (Bool-cases (diff == 0)) [
    | inl e ↦ rw e tt
    | inr e ↦ elim (Bool-cases (is_negative diff)) [ inl f ↦ rw (e, f) tt | inr f ↦ rw (e, f) tt ]
  ]

  step-Carries :
      (size : ℕ) (spurious : Bool) (m : Memory T) (p : Pc T) (log : List T)
      → Carries p
      → AllOf log
      → let (m', p', e) = step size spurious m p in Carries p' × AllOf (log_after e log)
  unfolding step
  step-Carries size b m idle log c all = (tt, all)
  step-Carries size b m (push_load x) log c all = (c, all)
  step-Carries size b m (push_seq x head) log c all =
      (after_push_seq-Carries x head (sub64 (m.sequences (slot size head)) head) c, all)
  step-Carries size true m (push_cas x head) log c all = (c, all)
  step-Carries size false m (push_cas x head) log c all = elim (Bool-cases (m.head == head)) [
    | inl e ↦ rw e (tt, AllOf-snoc log x all c)
    | inr e ↦ rw e (c, all)
  ]
  step-Carries size b m (push_write x head) log c all = (tt, all)
  step-Carries size b m (push_publish x head) log c all = (tt, all)
  step-Carries size b m (pushed r) log c all = (tt, all)
  step-Carries size b m pop_load log c all = (tt, all)
  step-Carries size b m (pop_seq tail) log c all =
      (after_pop_seq-Carries tail (sub64 (m.sequences (slot size tail)) (add64 tail 1)), all)
  step-Carries size true m (pop_cas tail) log c all = (tt, all)
  step-Carries size false m (pop_cas tail) log c all = elim (Bool-cases (m.tail == tail)) [
    | inl e ↦ rw e (tt, all)
    | inr e ↦ rw e (tt, all)
  ]
  step-Carries size b m (pop_read tail) log c all = (tt, all)
  step-Carries size b m (pop_publish tail x) log c all = (tt, all)
  step-Carries size b m (popped r) log c all = (tt, all)

  pub advance-Carries :
      (size i : ℕ) (spurious : Bool) (s : System T)
      → ((j : ℕ) → Carries (s.pc j))
      → AllOf s.log
      → let t = advance size i spurious s in ((j : ℕ) → Carries (t.pc j)) × AllOf t.log
  unfolding advance
  advance-Carries size i b s carried all =
      let p = (step size b s.mem (s.pc i)).1 in
      let (c, l) = step-Carries size b s.mem (s.pc i) s.log (carried i) all in
      (update_all Carries s.pc i p c (λ j _. carried j), l)

module _ {T : Type 0} (P Q : T → Type 0) (f : (x : T) → P x → Q x) where
  pub AllOf-map : (xs : List T) → AllOf P xs → AllOf Q xs
  AllOf-map [] all = tt
  AllOf-map (x ∷ xs) all = (f x all.0, AllOf-map xs all.1)

  pub Carries-map : (p : Pc T) → Carries P p → Carries Q p
  Carries-map (push_load x) c = f x c
  Carries-map (push_seq x head) c = f x c
  Carries-map (push_cas x head) c = f x c
  Carries-map p c = tt
