-- ===== src/Pool/Leases.antt =====
-- Which objects of the pool are free, and what `acquire` and `release` do to them.
use lockless_concurrent_fram.Common.{
  ℕ, zero, suc, ◌+◌, ◌≤◌, ◌<◌, ◌≡◌, ◌⊎◌, refl, sym, ◌∙◌, subst, if◌then◌else◌, Bool, true, false,
  Option, none, some, List, [], ◌∷◌, length, may_succeed, ltb, arith,
}
use lockless_concurrent_fram.Common.Words.{max32, add32}
use lockless_concurrent_fram.Stack
use lockless_concurrent_fram.Stack.{Stack, try_push, try_pop}
use lockless_concurrent_fram.Stack.Layout.{Holds}
use lockless_concurrent_fram.Stack.Lifo.{push, pop, push-refines, pop-refines}
use lockless_concurrent_fram.Stack.Start.{init-Holds, init-capacity}
use lockless_concurrent_fram.Pool.{Pool, fill, init, acquire, release, get_index, get_by_index}

-- The free objects of the pool, by their indices, the one to be handed out next first.
pub record Contents (pool : Pool) (q : List ℕ) : Type 0 where
  pub holds : Holds pool.free_indices q
  pub same : pool.free_indices.capacity ≡ pool.capacity
  pub small : pool.capacity ≤ max32

-- The pointer to an object.
abbrev pub pointer : ℕ → Option ℕ → Option ℕ
pointer base none = none
pointer base (some i) = some (base + i)

module _ (pops pushes : List Bool) (lucky : may_succeed pops ≡ true)
    (lucky' : may_succeed pushes ≡ true) where
  acquire_known :
      (pool : Pool) (s : Stack ℕ) (r : Option ℕ)
      → try_pop pops pushes pool.free_indices ≡ some (s, r)
      → acquire pops pushes pool ≡ some (record pool { free_indices = s }, pointer pool.base r)
  unfolding acquire
  acquire_known pool s none e = rw (e, acquire) refl
  acquire_known pool s (some i) e = rw (e, acquire) refl

  -- For a pool whose free objects are `q`, a call that runs alone, some compare-exchange of each
  -- loop not failing spuriously: `acquire` returns the pointer to the first object of `q`, or
  -- nullptr if there is none, and the others stay free.
  pub acquire-refines :
      {pool : Pool} {q : List ℕ}
      → Contents pool q
      → (pool' : Pool) × (acquire pops pushes pool ≡ some (pool', pointer pool.base (pop q).1))
        × Contents pool' (pop q).0
        × (pool'.base ≡ pool.base)
        × (pool'.capacity ≡ pool.capacity)
  acquire-refines {pool} {q} c =
      let (s, e, h, k) = pop-refines pops pushes lucky lucky' c.holds in
      (
        record pool { free_indices = s },
        acquire_known pool s (pop q).1 e,
        record { holds = h; same = k ∙ c.same; small = c.small },
        refl,
        refl,
      )

  release_known :
      (pool : Pool) (i : ℕ) (s : Stack ℕ) (b : Bool)
      → i < pool.capacity
      → pool.capacity ≤ max32
      → try_push pops pushes pool.free_indices i ≡ some (s, b)
      → release pops pushes pool (some (pool.base + i)) ≡ some (record pool { free_indices = s })
  unfolding release
  release_known pool i s b lt small e = ground (arith, e)

  -- For a pool whose free objects are `q` and an object of it, a call that runs alone, some
  -- compare-exchange of each loop not failing spuriously: `release` of the pointer puts the object
  -- in front of `q`, unless as many indices are there as the pool has objects; then nothing
  -- changes.
  pub release-refines :
      {pool : Pool} {q : List ℕ} (i : ℕ)
      → Contents pool q
      → i < pool.capacity
      → (pool' : Pool) × (release pops pushes pool (some (pool.base + i)) ≡ some pool')
        × Contents pool' (push pool.capacity q i).0
        × (pool'.base ≡ pool.base)
        × (pool'.capacity ≡ pool.capacity)
  release-refines {pool} {q} i c lt =
      let (s, e, h, k) = push-refines pops pushes lucky lucky' i c.holds in
      (
        record pool { free_indices = s },
        release_known pool i s (push pool.free_indices.capacity q i).1 lt c.small e,
        record { holds = rw (← c.same) h; same = k ∙ c.same; small = c.small },
        refl,
        refl,
      )

-- `release` of a pointer below the pool's storage or beyond its end, and of nullptr, changes
-- nothing.
pub release_foreign :
    (pops pushes : List Bool) (pool : Pool) (p : ℕ)
    → (p < pool.base) ⊎ (pool.base + pool.capacity ≤ p)
    → (release pops pushes pool (some p) ≡ some pool) × (release pops pushes pool none ≡ some pool)
unfolding release
release_foreign pops pushes pool p out = (ground arith, refl)

-- The index of an object's pointer is the index it was asked for under.
pub get_index-get_by_index :
    (pool : Pool) (idx p : ℕ)
    → pool.capacity ≤ max32
    → get_by_index pool idx ≡ some p
    → get_index pool p ≡ idx
unfolding get_index get_by_index
get_index-get_by_index pool idx p small e = ground arith

-- n - 1, ..., 1, 0.
abbrev pub countdown : ℕ → List ℕ
countdown zero = []
countdown (suc n) = n ∷ countdown n

pub length-countdown : (n : ℕ) → length (countdown n) ≡ n
length-countdown zero = refl
length-countdown (suc n) = omega (arith, length-countdown n)

module _ (pops pushes : ℕ → List Bool) (lucky : (i : ℕ) → may_succeed (pops i) ≡ true)
    (lucky' : (i : ℕ) → may_succeed (pushes i) ≡ true) where
  push_index :
      (i : ℕ) (s : Stack ℕ)
      → Holds s (countdown i)
      → i < s.capacity
      → (s' : Stack ℕ) × (try_push (pops i) (pushes i) s i ≡ some (s', true))
        × Holds s' (countdown (suc i))
        × (s'.capacity ≡ s.capacity)
  push_index i s h lt =
      let room : ltb (length (countdown i)) s.capacity ≡ true =
        ground (arith, length-countdown i) in
      subst
        (λ b.
          let r : List ℕ × Bool = if b then (i ∷ countdown i, true) else (countdown i, false) in
          (s' : Stack ℕ) × (try_push (pops i) (pushes i) s i ≡ some (s', r.1))
          × Holds s' r.0
          × (s'.capacity ≡ s.capacity))
        room (push-refines (pops i) (pushes i) (lucky i) (lucky' i) i h)

  fill-Holds :
      (n i : ℕ) (s : Stack ℕ)
      → Holds s (countdown i)
      → i + n ≡ s.capacity
      → s.capacity ≤ max32
      → (s' : Stack ℕ) × (fill pops pushes n i s ≡ some (s', true))
        × Holds s' (countdown (i + n))
        × (s'.capacity ≡ s.capacity)
  unfolding fill
  fill-Holds zero i s h e small = (s, refl, rw (add_zero i) h, refl)
    where
      add_zero : (i : ℕ) → i + 0 ≡ i
      add_zero i = omega arith
  fill-Holds (suc n) i s h e small =
      let (s', pushed, h', same) = push_index i s h (omega (arith, e)) in
      let next : add32 i 1 ≡ suc i = omega (arith, e, small) in
      let (s'', filled, h'', same') =
        fill-Holds n (suc i) s' h' (omega (arith, e, same)) (omega (arith, small, same)) in
      let sum : i + suc n ≡ suc i + n = omega arith in
      (
        s'',
        rw (pushed, fill)
            (subst (λ k. fill pops pushes n k s' ≡ some (s'', true)) (sym next) filled),
        rw sum h'',
        same' ∙ same,
      )

  -- A pool made with at least one object, and with at most NULL_INDEX of them, throws nothing, and
  -- all its objects are free, the last one first, if no loop of its calls fails spuriously for
  -- ever.
  pub init-Contents :
      (base capacity : ℕ)
      → 0 < capacity
      → capacity ≤ max32
      → (pool : Pool) × (init pops pushes base capacity ≡ some (pool, true))
        × Contents pool (countdown capacity)
        × (pool.base ≡ base)
        × (pool.capacity ≡ capacity)
  unfolding init
  init-Contents base capacity pos small =
      let fresh : Stack ℕ = Stack.init 0 capacity in
      let sum : 0 + capacity ≡ capacity = omega arith in
      let known : fresh.capacity ≡ capacity = init-capacity 0 capacity small in
      let (s, e, h, same) =
        fill-Holds capacity 0 fresh (init-Holds 0 capacity small pos) (omega (arith, known))
          (omega (arith, small, known)) in
      (
        record { base = base; capacity = capacity; free_indices = s },
        rw (e, init) refl,
        record {
          holds = subst (λ n. Holds s (countdown n)) sum h;
          same = same ∙ known;
          small = small;
        },
        refl,
        refl,
      )
