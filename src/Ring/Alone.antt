-- ===== src/Ring/Alone.antt =====
-- A ring at rest holds a queue, and a call that runs alone does to it what the bounded queue does.
use lockless_concurrent_fram.Common.{
  may_succeed, ℕ, suc, ◌+◌, ◌≤◌, ◌<◌, ◌≡◌, ◌∙◌, Bool, true, false, none, some, inl, inr, List, [],
  ◌∷◌, ◌++◌, length, get_elem?, length-snoc, get_elem?-snoc, get_elem?-append_left, arith,
  if◌then◌else◌, ltb, ltb→lt, Bool-cases,
}
use native.Mathlib.Decide.{ℕ_discrete, dec_lt}
use lockless_concurrent_fram.Common.Words.{add64}
use lockless_concurrent_fram.Queue
use lockless_concurrent_fram.Ring.{Memory, slot}
use lockless_concurrent_fram.Ring.Calls.{
  pushed_at, popped_at, push_loop, try_push, pop_loop, try_pop,
}
use lockless_concurrent_fram.Ring.Invariant.Slots.{IsSize, slot-of_lt, slot_turn, slot-add_size}

module _ {T : Type 0} (size : ℕ) where
  pub record Holds (m : Memory T) (q : List T) : Type 0 where
    pub span : m.tail + length q ≡ m.head
    pub fits : length q ≤ size
    pub room : m.head + size < 0x8000_0000_0000_0000
    pub items :
        (k : ℕ)
        → k < length q
        → (m.sequences (slot size (m.tail + k)) ≡ m.tail + k + 1)
          × (get_elem? q k ≡ some (m.buffer (slot size (m.tail + k))))
    pub spare : (p : ℕ) → m.head ≤ p → p < m.tail + size → m.sequences (slot size p) ≡ p

module _ {T : Type 0} (size : ℕ) (ok : IsSize size) {m : Memory T} {q : List T}
    (h : Holds size m q) where
  pushed_at-Holds :
      (x : T)
      → length q < size
      → m.head + 1 + size < 0x8000_0000_0000_0000
      → Holds size (pushed_at size m x m.head) (q ++ x ∷ [])
  pushed_at-Holds x lt more = record {
    span = omega (arith, h.span, length-snoc q x);
    fits = omega (arith, length-snoc q x);
    room = omega arith;
    items = λ k b. elim (dec_lt k (length q)) [
      | yes old ↦ ground (
        arith,
        h.items k old,
        h.span,
        slot_turn size ok.pow (m.tail + k) m.head,
        get_elem?-append_left q (x ∷ []) k old,
      )
      | no new ↦
          let e : k ≡ length q = omega (arith, length-snoc q x) in
          ground (arith, h.span, get_elem?-snoc q x)
    ];
    spare = λ p a b. ground (arith, h.span, h.spare p, slot_turn size ok.pow m.head p);
  }

  -- With room left, the slot at `head_` is free; with none, it holds the oldest item.
  head_slot : m.sequences (slot size m.head) ≡ (if ltb (length q) size then m.head else m.tail + 1)
  head_slot =
      ground
        (arith, h.span, h.fits, h.spare m.head, h.items 0, slot-add_size size ok.pow m.tail, ok.two)

  -- `try_push`, running alone: it pushes exactly when there is room.
  push_loop-Holds :
      (spurious : List Bool) (x : T)
      → may_succeed spurious ≡ true
      → m.head + 1 + size < 0x8000_0000_0000_0000
      → push_loop size spurious m x m.head
        ≡ some (if ltb (length q) size then (pushed_at size m x m.head, true) else (m, false))
  unfolding push_loop
  push_loop-Holds [] x e more = cc
  push_loop-Holds (false ∷ rest) x e more =
      ground (arith, head_slot, h.span, h.fits, ok.two, h.room)
  push_loop-Holds (true ∷ rest) x e more =
      ground (arith, head_slot, h.span, h.fits, ok.two, h.room, push_loop-Holds rest x e more)

  -- For a ring at rest that holds the queue `q`, of a size that is a power of two from 2 on, with
  -- counters that stay below 2 ^ 63: `try_push`, running alone, some compare-exchange not failing
  -- spuriously, returns what the bounded queue's push of `x` returns, and the ring then holds that
  -- push's queue.
  pub try_push-refines :
      (spurious : List Bool) (x : T)
      → may_succeed spurious ≡ true
      → m.head + 1 + size < 0x8000_0000_0000_0000
      → (m' : Memory T) × (try_push size spurious m x ≡ some (m', (Queue.push size q x).1))
        × Holds size m' (Queue.push size q x).0
        × (m'.head ≤ m.head + 1)
  unfolding try_push
  try_push-refines spurious x e more = elim (Bool-cases (ltb (length q) size)) [
    | inl lt ↦ (
      pushed_at size m x m.head,
      push_loop-Holds spurious x e more ∙ rw lt,
      rw lt (pushed_at-Holds x (ltb→lt _ _ lt) more),
      omega arith,
    )
    | inr ge ↦ (m, push_loop-Holds spurious x e more ∙ rw ge, rw ge h, omega arith)
  ]

module _ {T : Type 0} (size : ℕ) (ok : IsSize size) {m : Memory T} where
  popped_at-Holds :
      (x : T) (q : List T) → Holds size m (x ∷ q) → Holds size (popped_at size m m.tail) q
  popped_at-Holds x q h = record {
    span = omega (arith, h.span, h.room);
    fits = omega (arith, h.fits);
    room = h.room;
    items = λ k b.
        let e : add64 m.tail 1 ≡ m.tail + 1 = omega (arith, h.span, h.room) in
        let f : m.tail + 1 + k ≡ m.tail + suc k = omega arith in
        rw (e, f)
          (ground (
            arith,
            h.items (suc k),
            h.span,
            h.fits,
            slot_turn size ok.pow m.tail (m.tail + suc k),
          ));
    spare = λ p a b. elim (ℕ_discrete (m.tail + size) p) [
      | yes e ↦ ground (arith, h.span, h.room, ok.two, slot-add_size size ok.pow m.tail)
      | no ne ↦ ground (
        arith,
        h.span,
        h.room,
        h.spare p,
        ok.two,
        slot_turn size ok.pow m.tail p,
        slot_turn size ok.pow (m.tail + size) p,
        slot-add_size size ok.pow m.tail,
      )
    ];
  }

  -- The slot at `tail_` holds the oldest item, or waits for the next one.
  pop_empty :
      (spurious : List Bool)
      → Holds size m []
      → may_succeed spurious ≡ true
      → pop_loop size spurious m m.tail ≡ some (m, none)
  unfolding pop_loop
  pop_empty [] h e = cc
  pop_empty (b ∷ rest) h e = ground (arith, h.span, h.spare m.tail, h.room, ok.two)

  pop_first :
      (spurious : List Bool) (x : T) (q : List T)
      → Holds size m (x ∷ q)
      → may_succeed spurious ≡ true
      → pop_loop size spurious m m.tail ≡ some (popped_at size m m.tail, some x)
  unfolding pop_loop
  pop_first [] x q h e = cc
  pop_first (false ∷ rest) x q h e = ground (arith, h.items 0, h.span, h.room)
  pop_first (true ∷ rest) x q h e =
      ground (arith, h.items 0, h.span, h.room, pop_first rest x q h e)

  -- For a ring at rest that holds the queue `q`, of a size that is a power of two from 2 on, with
  -- counters that stay below 2 ^ 63: `try_pop`, running alone, some compare-exchange not failing
  -- spuriously, returns what the queue's pop returns, and the ring then holds that pop's queue.
  pub try_pop-refines :
      (q : List T) (spurious : List Bool)
      → Holds size m q
      → may_succeed spurious ≡ true
      → (m' : Memory T) × (try_pop size spurious m ≡ some (m', (Queue.pop q).1))
        × Holds size m' (Queue.pop q).0
  unfolding try_pop
  try_pop-refines [] spurious h e = (m, pop_empty spurious h e, h)
  try_pop-refines (x ∷ q) spurious h e =
      (popped_at size m m.tail, pop_first spurious x q h e, popped_at-Holds x q h)

-- For a ring at rest that holds the queue `q`, of a size that is a power of two from 2 on, with
-- counters that stay below 2 ^ 63, and a call that runs alone, some compare-exchange not failing
-- spuriously: `try_push` returns what the bounded queue's push returns and the ring then holds
-- that push's queue, and `try_pop` does what the queue's pop does.
pub calls-refine :
    {T : Type 0} (size : ℕ)
    → IsSize size
    → (m : Memory T) (q : List T) (spurious : List Bool) (x : T) → Holds size m q
    → may_succeed spurious ≡ true
    → m.head + 1 + size < 0x8000_0000_0000_0000
    → ((m' : Memory T) × (try_push size spurious m x ≡ some (m', (Queue.push size q x).1))
        × Holds size m' (Queue.push size q x).0)
      × ((m' : Memory T) × (try_pop size spurious m ≡ some (m', (Queue.pop q).1))
          × Holds size m' (Queue.pop q).0)
calls-refine size ok m q spurious x h lucky room =
    let (m', e, h', near) = try_push-refines size ok h spurious x lucky room in
    ((m', e, h'), try_pop-refines size ok q spurious h lucky)

-- A new ring holds the empty queue.
pub init-Holds :
    {T : Type 0} (size : ℕ)
    → IsSize size
    → (blank : T) → size < 0x8000_0000_0000_0000
    → Holds size (record { sequences = λ i. i; buffer = λ _. blank; head = 0; tail = 0 }) []
init-Holds size ok blank small = record {
  span = omega arith;
  fits = omega arith;
  room = omega arith;
  items = λ k b. absurd (omega arith);
  spare = λ p a b. slot-of_lt size ok.pow p (omega arith);
}
