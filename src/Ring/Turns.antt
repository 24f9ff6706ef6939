-- ===== src/Ring/Turns.antt =====
-- The steps of one thread inside try_push and try_pop, and what they do to the history.
use mathlib.Core.List.{map}
use lockless_concurrent_fram.Common.{
  ℕ, ◌+◌, ◌≡◌, refl, sym, ap, inl, inr, Bool, true, false, some, List, [], ◌∷◌, ◌++◌, ◌==◌,
  Bool-cases, arith,
}
use lockless_concurrent_fram.Common.Words.{add64, sub64, is_negative}
use lockless_concurrent_fram.Common.Sums.{weight, weight-append}
use lockless_concurrent_fram.Ring.{
  Memory, Event, Pc, push_load, push_seq, push_cas, push_write, push_publish, pushed, pop_load,
  pop_seq, pop_cas, pop_read, pop_publish, popped, slot, after_push_seq, after_pop_seq, log_after,
  out_after, step,
}

module _ {T : Type 0} where
  abbrev pub IsHead : T → List T → Type 0
  IsHead x [] = ⊥
  IsHead x (y ∷ ys) = x ≡ y

  abbrev pub IsSome : List T → Type 0
  IsSome [] = ⊥
  IsSome (x ∷ xs) = Unit

  -- The points of try_push with the first item of a list, and those of try_pop.
  abbrev pub Pushes : Pc T → List T → Type 0
  Pushes (push_load x) todo = IsHead x todo
  Pushes (push_seq x _) todo = IsHead x todo
  Pushes (push_cas x _) todo = IsHead x todo
  Pushes (push_write x _) todo = IsHead x todo
  Pushes (push_publish x _) todo = IsHead x todo
  Pushes (pushed _) todo = IsSome todo
  Pushes _ todo = ⊥

  abbrev pub Pops : Pc T → Type 0
  Pops pop_load = Unit
  Pops (pop_seq _) = Unit
  Pops (pop_cas _) = Unit
  Pops (pop_read _) = Unit
  Pops (pop_publish _ _) = Unit
  Pops (popped _) = Unit
  Pops _ = ⊥

  abbrev pub rest_of : List T → List T
  rest_of [] = []
  rest_of (x ∷ xs) = xs

  -- The items that are not in the history yet.
  abbrev pub unsent : Pc T → List T → List T
  unsent (push_write _ _) todo = rest_of todo
  unsent (push_publish _ _) todo = rest_of todo
  unsent (pushed true) todo = rest_of todo
  unsent _ todo = todo

  -- The weight of an item that was taken and has not been handed over yet.
  abbrev pub in_hand : (T → ℕ) → Pc T → ℕ
  in_hand w (pop_publish _ x) = w x
  in_hand w (popped (some x)) = w x
  in_hand w _ = 0

  pub record Sends (w : T → ℕ) (p : Pc T) (todo log : List T) (out : List (ℕ × T))
      (r : Memory T × Pc T × Event T) : Type 0 where
    pub stays : Pushes r.1 todo
    pub sent :
        weight w (log_after r.2 log) + weight w (unsent r.1 todo)
        ≡ weight w log + weight w (unsent p todo)
    pub none_taken : out_after r.2 out ≡ out

  after_push_seq-Pushes :
      (x : T) (head diff : ℕ) (todo : List T)
      → IsHead x todo
      → Pushes (after_push_seq x head diff) todo × (unsent (after_push_seq x head diff) todo ≡ todo)
  after_push_seq-Pushes x head diff [] h = elim h [ ]
  after_push_seq-Pushes x head diff (y ∷ todo) h = elim (Bool-cases (diff == 0)) [
    | inl e ↦ rw e (h, refl)
    | inr e ↦ elim (Bool-cases (is_negative diff)) [
      | inl f ↦ rw (e, f) (tt, refl)
      | inr f ↦ rw (e, f) (h, refl)
    ]
  ]

  pub step-Sends :
      (size : ℕ) (b : Bool) (w : T → ℕ) (m : Memory T) (p : Pc T) (todo log : List T)
      (out : List (ℕ × T))
      → Pushes p todo
      → Sends w p todo log out (step size b m p)
  unfolding step
  step-Sends size b w m (push_load x) todo log out h = record {
    stays = h;
    sent = refl;
    none_taken = refl;
  }
  step-Sends size b w m (push_seq x head) todo log out h =
      let (h', e) =
        after_push_seq-Pushes x head (sub64 (m.sequences (slot size head)) head) todo h in
      record { stays = h'; sent = ap (λ l. weight w log + weight w l) e; none_taken = refl }
  step-Sends size true w m (push_cas x head) todo log out h = record {
    stays = h;
    sent = refl;
    none_taken = refl;
  }
  step-Sends size false w m (push_cas x head) [] log out h = elim h [ ]
  step-Sends size false w m (push_cas x head) (y ∷ todo) log out h =
      elim (Bool-cases (m.head == head)) [
        | inl e ↦ rw e (record {
          stays = h;
          sent = omega (arith, weight-append w log (x ∷ []), ap w h);
          none_taken = refl;
        })
        | inr e ↦ rw e (record { stays = h; sent = refl; none_taken = refl })
      ]
  step-Sends size b w m (push_write x head) todo log out h = record {
    stays = h;
    sent = refl;
    none_taken = refl;
  }
  step-Sends size b w m (push_publish x head) (y ∷ todo) log out h = record {
    stays = tt;
    sent = refl;
    none_taken = refl;
  }
  step-Sends size b w m (push_publish x head) [] log out h = elim h [ ]
  step-Sends size b w m (pushed r) todo log out h = record {
    stays = h;
    sent = refl;
    none_taken = refl;
  }
  step-Sends size b w m p todo log out h = elim h [ ]

weight-taken_snoc :
    {T : Type 0} (w : T → ℕ) (out : List (ℕ × T)) (t : ℕ) (x : T)
    → weight w (map (λ e. e.1) (out ++ (t, x) ∷ [])) ≡ weight w (map (λ e. e.1) out) + w x
weight-taken_snoc w [] t x = omega arith
weight-taken_snoc w (e ∷ out) t x = omega (arith, weight-taken_snoc w out t x)

after_pop_seq-Pops :
    (T : Type 0) (w : T → ℕ) (tail diff : ℕ)
    → let p : Pc T = after_pop_seq tail diff in Pops p × (in_hand w p ≡ 0)
after_pop_seq-Pops T w tail diff = elim (Bool-cases (diff == 0)) [
  | inl e ↦ rw e (tt, refl)
  | inr e ↦ elim (Bool-cases (is_negative diff)) [
    | inl f ↦ rw (e, f) (tt, refl)
    | inr f ↦ rw (e, f) (tt, refl)
  ]
]

module _ {T : Type 0} where
  pub record Takes (w : T → ℕ) (p : Pc T) (log : List T) (out : List (ℕ × T))
      (r : Memory T × Pc T × Event T) : Type 0 where
    pub stays : Pops r.1
    pub none_sent : log_after r.2 log ≡ log
    pub taken :
        weight w (map (λ e. e.1) (out_after r.2 out)) + in_hand w p
        ≡ weight w (map (λ e. e.1) out) + in_hand w r.1

  pub step-Takes :
      (size : ℕ) (b : Bool) (w : T → ℕ) (m : Memory T) (p : Pc T) (log : List T)
      (out : List (ℕ × T))
      → Pops p
      → Takes w p log out (step size b m p)
  unfolding step
  step-Takes size b w m pop_load log out h = record { stays = tt; none_sent = refl; taken = refl }
  step-Takes size b w m (pop_seq tail) log out h =
      let (h', e) =
        after_pop_seq-Pops T w tail (sub64 (m.sequences (slot size tail)) (add64 tail 1)) in
      record {
        stays = h';
        none_sent = refl;
        taken = ap (λ k. weight w (map (λ e. e.1) out) + k) (sym e);
      }
  step-Takes size true w m (pop_cas tail) log out h = record {
    stays = tt;
    none_sent = refl;
    taken = refl;
  }
  step-Takes size false w m (pop_cas tail) log out h = elim (Bool-cases (m.tail == tail)) [
    | inl e ↦ rw e (record { stays = tt; none_sent = refl; taken = refl })
    | inr e ↦ rw e (record { stays = tt; none_sent = refl; taken = refl })
  ]
  step-Takes size b w m (pop_read tail) log out h = record {
    stays = tt;
    none_sent = refl;
    taken = omega (arith, weight-taken_snoc w out tail (m.buffer (slot size tail)));
  }
  step-Takes size b w m (pop_publish tail x) log out h = record {
    stays = tt;
    none_sent = refl;
    taken = refl;
  }
  step-Takes size b w m (popped r) log out h = record { stays = tt; none_sent = refl; taken = refl }
  step-Takes size b w m p log out h = elim h [ ]
