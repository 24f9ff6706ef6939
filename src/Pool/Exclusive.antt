-- ===== src/Pool/Exclusive.antt =====
-- One client of `LockFreeObjectPool`, and the objects that it holds.
use lockless_concurrent_fram.Common.{
  ℕ, zero, suc, ◌+◌, ◌-◌, ◌≤◌, ◌<◌, ◌≡◌, ◌↔◌, refl, sym, ap, ◌∙◌, subst, if◌then◌else◌, Bool, true,
  false, Option, none, some, some-injective, List, [], ◌∷◌, ◌++◌, length, may_succeed, ltb, ◌==◌,
  arith,
}
use lockless_concurrent_fram.Common.Words.{max32}
use lockless_concurrent_fram.Stack.Lifo.{push, pop}
use lockless_concurrent_fram.Pool.{Pool, init, acquire, release}
use lockless_concurrent_fram.Pool.Leases.{
  Contents, pointer, acquire-refines, release-refines, init-Contents, countdown, length-countdown,
}

-- How often an object occurs in a list.
abbrev pub count : ℕ → List ℕ → ℕ
count i [] = 0
count i (j ∷ q) = (if j == i then 1 else 0) + count i q

count-append : (i : ℕ) (xs ys : List ℕ) → count i (xs ++ ys) ≡ count i xs + count i ys
count-append i [] ys = omega arith
count-append i (x ∷ xs) ys = omega (arith, count-append i xs ys)

length-append : (xs ys : List ℕ) → length (xs ++ ys) ≡ length xs + length ys
length-append [] ys = omega arith
length-append (x ∷ xs) ys = omega (arith, length-append xs ys)

-- What the client holds after an `acquire`.
abbrev pub held_after : ℕ → Option ℕ → List ℕ → List ℕ
held_after base none held = held
held_after base (some p) held = (p - base) ∷ held

module _ (base capacity : ℕ) where
  -- The states that a client reaches by calls one after the other, with the objects it holds.
  pub data Run : Pool → List ℕ → Type 0 where
    opened :
        {pool : Pool} (pops pushes : ℕ → List Bool)
        → ((i : ℕ) → may_succeed (pops i) ≡ true)
        → ((i : ℕ) → may_succeed (pushes i) ≡ true)
        → init pops pushes base capacity ≡ some (pool, true)
        → Run pool []
    acquired :
        {pool pool' : Pool} {held : List ℕ} (pops pushes : List Bool) (p : Option ℕ)
        → may_succeed pops ≡ true
        → may_succeed pushes ≡ true
        → Run pool held
        → acquire pops pushes pool ≡ some (pool', p)
        → Run pool' (held_after base p held)
    released :
        {pool pool' : Pool} (pops pushes : List Bool) (i : ℕ) (before after : List ℕ)
        → may_succeed pops ≡ true
        → may_succeed pushes ≡ true
        → Run pool (before ++ i ∷ after)
        → release pops pushes pool (some (base + i)) ≡ some pool'
        → Run pool' (before ++ after)

  -- Each object is free or held, and not both.
  pub record Ledger (pool : Pool) (held : List ℕ) : Type 0 where
    pub q : List ℕ
    pub contents : Contents pool q
    pub same_base : pool.base ≡ base
    pub same_capacity : pool.capacity ≡ capacity
    pub once : (i : ℕ) → count i q + count i held ≡ (if ltb i capacity then 1 else 0)
    pub total : length q + length held ≡ capacity

  count-countdown : (i n : ℕ) → count i (countdown n) ≡ (if ltb i n then 1 else 0)
  count-countdown i zero = ground arith
  count-countdown i (suc n) = ground (arith, count-countdown i n)

  after_acquire :
      {pool : Pool} {held : List ℕ} (pool' : Pool) (q : List ℕ) (l : Ledger pool held)
      → l.q ≡ q
      → pool'.base ≡ base
      → pool'.capacity ≡ capacity
      → Contents pool' (pop q).0
      → Ledger pool' (held_after base (pointer base (pop q).1) held)
  after_acquire {held = held} pool' [] l e b k c = record {
    q = [];
    contents = c;
    same_base = b;
    same_capacity = k;
    once =
        λ i. subst (λ q. count i q + count i held ≡ (if ltb i capacity then 1 else 0)) e (l.once i);
    total = subst (λ q. length q + length held ≡ capacity) e l.total;
  }
  after_acquire {held = held} pool' (j ∷ q) l e b k c =
      let back : base + j - base ≡ j = omega arith in
      record {
        q = q;
        contents = c;
        same_base = b;
        same_capacity = k;
        once = λ i.
            let old : count i (j ∷ q) + count i held ≡ (if ltb i capacity then 1 else 0) =
              subst (λ q. count i q + count i held ≡ (if ltb i capacity then 1 else 0)) e
                (l.once i) in
            rw back (omega (arith, old));
        total =
            let old : length (j ∷ q) + length held ≡ capacity =
              subst (λ q. length q + length held ≡ capacity) e l.total in
            omega (arith, old);
      }

  after_release :
      {pool : Pool} (pool' : Pool) (i : ℕ) (before after : List ℕ)
      (l : Ledger pool (before ++ i ∷ after))
      → pool'.base ≡ base
      → pool'.capacity ≡ capacity
      → Contents pool' (push pool.capacity l.q i).0
      → Ledger pool' (before ++ after)
  after_release {pool} pool' i before after l b k c =
      let lens : length (before ++ i ∷ after) ≡ length before + suc (length after) =
        length-append before (i ∷ after) in
      let room : ltb (length l.q) pool.capacity ≡ true =
        ground (arith, l.total, lens, l.same_capacity) in
      record {
        q = i ∷ l.q;
        contents =
            subst
              (λ b.
                let r : List ℕ × Bool = if b then (i ∷ l.q, true) else (l.q, false) in
                Contents pool' r.0)
              room c;
        same_base = b;
        same_capacity = k;
        once = λ j.
            omega (arith, l.once j, count-append j before (i ∷ after), count-append j before after);
        total = omega (arith, l.total, lens, length-append before after);
      }

  pub Run-Ledger :
      0 < capacity
      → capacity ≤ max32
      → {pool : Pool} {held : List ℕ} → Run pool held
      → Ledger pool held
  Run-Ledger pos small (opened {pool} pops pushes lucky lucky' e) =
      let (made, f, c, b, k) = init-Contents pops pushes lucky lucky' base capacity pos small in
      let same : made ≡ pool = ap (λ r. r.0) (some-injective (sym f ∙ e)) in
      record {
        q = countdown capacity;
        contents = subst (λ p. Contents p (countdown capacity)) same c;
        same_base = ap (λ p. p.base) (sym same) ∙ b;
        same_capacity = ap (λ p. p.capacity) (sym same) ∙ k;
        once = λ i. omega (arith, count-countdown i capacity);
        total = omega (arith, length-countdown capacity);
      }
  Run-Ledger pos small (acquired {pool} {pool'} {held} pops pushes p lucky lucky' r e) =
      let l = Run-Ledger pos small r in
      let (after, f, c, b, k) = acquire-refines pops pushes lucky lucky' l.contents in
      let same : (after, pointer pool.base (pop l.q).1) ≡ (pool', p) = some-injective (sym f ∙ e) in
      let got : pointer base (pop l.q).1 ≡ p =
        ap (λ n. pointer n (pop l.q).1) (sym l.same_base) ∙ ap (λ r. r.1) same in
      subst (λ p. Ledger pool' (held_after base p held)) got
        (subst (λ pool'. Ledger pool' (held_after base (pointer base (pop l.q).1) held))
          (ap (λ r. r.0) same)
          (after_acquire after l.q l refl (b ∙ l.same_base) (k ∙ l.same_capacity) c))
  Run-Ledger pos small (released {pool} {pool'} pops pushes i before after lucky lucky' r e) =
      let l = Run-Ledger pos small r in
      let lt : i < pool.capacity =
        ground (arith, l.once i, l.same_capacity, count-append i before (i ∷ after)) in
      let (pool'', f, c, b, k) = release-refines pops pushes lucky lucky' i l.contents lt in
      let here : release pops pushes pool (some (base + i)) ≡ some pool'' =
        subst (λ n. release pops pushes pool (some (n + i)) ≡ some pool'') l.same_base f in
      subst (λ p. Ledger p (before ++ after)) (some-injective (sym here ∙ e))
        (after_release pool'' i before after l (b ∙ l.same_base) (k ∙ l.same_capacity) c)

  -- Whatever a client does with a new pool of 1 to NULL_INDEX objects, by calls of `acquire` and
  -- by calls of `release` on pointers that it holds, one after the other, none of whose loops
  -- fails spuriously for ever: it holds no object twice, `acquire` returns nullptr exactly when it
  -- holds all of them, and a pointer that `acquire` returns leads to an object of the pool that it
  -- does not hold.
  held_once :
      0 < capacity
      → capacity ≤ max32
      → {pool : Pool} {held : List ℕ} (pops pushes : List Bool) → may_succeed pops ≡ true
      → may_succeed pushes ≡ true
      → Run pool held
      → ((i : ℕ) → count i held ≤ 1)
        × ((pool' : Pool) × (r : Option ℕ) × (acquire pops pushes pool
              ≡ some (pool', pointer base r))
            × ((r ≡ none) ↔ (length held ≡ capacity))
            × ((i : ℕ) → r ≡ some i → (i < capacity) × (count i held ≡ 0)))
  held_once pos small {pool} {held} pops pushes lucky lucky' r =
      let l = Run-Ledger pos small r in
      let (pool', f, _, _, _) = acquire-refines pops pushes lucky lucky' l.contents in
      let (all_held, unheld) = by_free l.q l.once l.total in
      (
        λ i. ground (arith, l.once i),
        (
          pool',
          (pop l.q).1,
          subst (λ n. acquire pops pushes pool ≡ some (pool', pointer n (pop l.q).1)) l.same_base f,
          all_held,
          unheld,
        ),
      )
    where
      by_free :
          (q : List ℕ)
          → ((i : ℕ) → count i q + count i held ≡ (if ltb i capacity then 1 else 0))
          → length q + length held ≡ capacity
          → (((pop q).1 ≡ none) ↔ (length held ≡ capacity))
            × ((i : ℕ) → (pop q).1 ≡ some i → (i < capacity) × (count i held ≡ 0))
      by_free [] once total = ((λ _. omega (arith, total), λ _. refl), λ i e. ground arith)
      by_free (j ∷ q) once total =
          (ground (arith, total), λ i e. ground (arith, once i, some-injective e))
