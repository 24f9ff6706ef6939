-- ===== src/Ring/Safety.antt =====
-- What holds of `RingBuffer` under every interleaving of its callers.
use native.Mathlib.Decide.{dec_lt}
use lockless_concurrent_fram.Common.{
  ℕ, ◌+◌, ◌≤◌, ◌<◌, ◌≡◌, ◌⊎◌, subst, ◌∙◌, Bool, true, false, Option, none, some, inl, inr, length,
  length-drop, get_elem?-drop, drop, arith,
}
use lockless_concurrent_fram.Common.Words.{sub64, add64}
use lockless_concurrent_fram.Ring.{
  Pc, idle, push_seq, pushed, pop_seq, popped, slot, after_push_seq, after_pop_seq, System, step,
  is_ready, Reach,
}
use lockless_concurrent_fram.Ring.Invariant.{push_ticket, pop_ticket, Local, Inv}
use lockless_concurrent_fram.Ring.Invariant.Slots.{IsSize, slot_next}
use lockless_concurrent_fram.Ring.Reachable.{Reach-Inv}
use lockless_concurrent_fram.Ring.History.{times, Genuine, reading, Taken, Reach-Taken}
use lockless_concurrent_fram.Ring.Alone.{Holds}

-- The ticket whose slot a thread may read or write without synchronisation.
abbrev pub owned : {T : Type 0} → Pc T → Option ℕ
owned (Pc.push_write _ head) = some head
owned (Pc.push_publish _ head) = some head
owned (Pc.pop_read tail) = some tail
owned (Pc.pop_publish tail _) = some tail
owned _ = none

-- What is promised of the history of a ring.
pub record InOrder {T : Type 0} (s : System T) : Type 0 where
  pub genuine : Genuine s.log s.out
  pub at_most_once : (t : ℕ) → times t s.out ≤ 1
  pub not_early : (t : ℕ) → s.mem.tail ≤ t → times t s.out ≡ 0
  pub not_lost : (t : ℕ) → t < s.mem.tail → ((i : ℕ) → reading (s.pc i) ≡ none) → times t s.out ≡ 1

module _ {T : Type 0} (size : ℕ) (ok : IsSize size) {blank : T} {s : System T}
    (r : Reach size blank s) (room : length s.log + size < 0x8000_0000_0000_0000) where
  inv : Inv size s.mem s.pc s.log
  inv = Reach-Inv size ok r room

  taken : Taken s.mem.tail s.pc s.log s.out
  taken = Reach-Taken size ok r room

  -- In every state that threads reach from a new ring, as long as the number of items pushed so
  -- far plus `size`, a power of two from 2 on, stays below 2 ^ 63: each item taken is the one
  -- pushed under that ticket, no ticket is taken twice or before its turn, and, when no consumer
  -- is about to read its slot, each ticket below `tail_` has been taken.
  pub in_order : InOrder s
  in_order = record {
    genuine = taken.genuine;
    at_most_once = taken.once;
    not_early = taken.early;
    not_lost = λ t lt quiet. elim (taken.covered t lt) [
      | inl e ↦ e
      | inr (i, e) ↦ absurd (ground (arith, quiet i))
    ];
  }

  -- In every state that threads reach from a new ring, as long as the number of items pushed so
  -- far plus `size`, a power of two from 2 on, stays below 2 ^ 63: `head_` is not behind `tail_`,
  -- and at most `size` ahead of it.
  pub head_bounds : (s.mem.tail ≤ s.mem.head) × (s.mem.head ≤ s.mem.tail + size)
  head_bounds = (inv.tail_le, inv.head_le)

  owner_slot :
      (p : Pc T) (t : ℕ)
      → Local size s.mem s.log p
      → owned p ≡ some t
      → (s.mem.sequences (slot size t) ≡ t) × (push_ticket p ≡ some t)
        ⊎ (s.mem.sequences (slot size t) ≡ t + 1) × (pop_ticket p ≡ some t)
  owner_slot idle t loc e = cc
  owner_slot p t loc e = ground arith

  -- In every state that threads reach from a new ring, as long as the number of items pushed so
  -- far plus `size`, a power of two from 2 on, stays below 2 ^ 63: no two threads are at work on
  -- one slot of `buffer_` at the same time.
  pub slot_exclusive :
      (i j t u : ℕ)
      → owned (s.pc i) ≡ some t
      → owned (s.pc j) ≡ some u
      → slot size t ≡ slot size u
      → i ≡ j
  slot_exclusive i j t u e f same = ground (
    arith,
    owner_slot (s.pc i) t (inv.locals i) e,
    owner_slot (s.pc j) u (inv.locals j) f,
    inv.push_unique i j t,
    inv.pop_unique i j t,
    slot_next size ok.pow ok.two t,
    slot_next size ok.pow ok.two u,
  )

  refused_push :
      (x : T) (h : ℕ)
      → h ≤ s.mem.head
      → after_push_seq x h (sub64 (s.mem.sequences (slot size h)) h) ≡ pushed false
      → s.mem.sequences (slot size h) < h
  refused_push x h le e = ground (arith, inv.bound h, inv.room, inv.tail_le)

  refused_pop :
      (t : ℕ)
      → t ≤ s.mem.tail
      → after_pop_seq {T = T} t (sub64 (s.mem.sequences (slot size t)) (add64 t 1)) ≡ popped none
      → s.mem.sequences (slot size t) < t + 1
  refused_pop t le e = ground (arith, inv.bound t, inv.room, inv.tail_le)

  -- The slot of a ticket that was reserved is never behind the ticket.
  not_reserved : (h : ℕ) → h ≤ s.mem.head → s.mem.sequences (slot size h) < h → h ≡ s.mem.head
  not_reserved h le below = elim (dec_lt h s.mem.tail) [
    | yes old ↦ absurd (omega (arith, inv.passed h old))
    | no new ↦ elim (dec_lt h s.mem.head) [
      | yes lt ↦ elim (inv.covered_push h (omega arith) lt) [
        | inl e ↦ absurd (omega arith)
        | inr (j, e) ↦ absurd (ground (arith, owner_slot (s.pc j) h (inv.locals j)))
      ]
      | no ge ↦ omega arith
    ]
  ]

  -- In every state that threads reach from a new ring, as long as the number of items pushed so
  -- far plus `size`, a power of two from 2 on, stays below 2 ^ 63: the step with which `try_push`
  -- gives up is taken when its head is the current one and either `size` items are inside or some
  -- consumer has yet to release the slot of that head.
  pub full_when_refused :
      (i : ℕ) (x : T) (h : ℕ) (spurious : Bool)
      → s.pc i ≡ push_seq x h
      → (step size spurious s.mem (push_seq x h)).1 ≡ pushed false
      → (h ≡ s.mem.head)
        × ((s.mem.head ≡ s.mem.tail + size)
            ⊎ ((j : ℕ) × (t : ℕ) × (pop_ticket (s.pc j) ≡ some t) × (t + size ≡ s.mem.head)))
  unfolding step
  full_when_refused i x h spurious here refused =
      let le : h ≤ s.mem.head = subst (Local size s.mem s.log) here (inv.locals i) in
      let below = refused_push x h le refused in
      let same : h ≡ s.mem.head = not_reserved h le below in
      (
        same,
        elim (dec_lt s.mem.head (s.mem.tail + size)) [
          | yes lt ↦ elim (inv.covered_pop s.mem.head (omega arith) lt) [
            | inl e ↦ absurd (ground (arith, same))
            | inr other ↦ inr other
          ]
          | no ge ↦ inl (omega (arith, inv.head_le))
        ],
      )

  -- In every state that threads reach from a new ring, as long as the number of items pushed so
  -- far plus `size`, a power of two from 2 on, stays below 2 ^ 63: the step with which `try_pop`
  -- gives up is taken when its tail is the current one and either `head_` is `tail_` or some
  -- producer has yet to publish the item of that tail.
  pub empty_when_refused :
      (i t : ℕ) (spurious : Bool)
      → s.pc i ≡ pop_seq t
      → (step size spurious s.mem (pop_seq t)).1 ≡ popped none
      → (t ≡ s.mem.tail)
        × ((s.mem.head ≡ s.mem.tail) ⊎ ((j : ℕ) × (push_ticket (s.pc j) ≡ some s.mem.tail)))
  unfolding step
  empty_when_refused i t spurious here refused =
      let le : t ≤ s.mem.tail = subst (Local size s.mem s.log) here (inv.locals i) in
      let below = refused_pop t le refused in
      let same : t ≡ s.mem.tail = ground (arith, inv.passed t) in
      (
        same,
        elim (dec_lt s.mem.tail s.mem.head) [
          | yes lt ↦ elim (inv.covered_push s.mem.tail (omega arith) lt) [
            | inl e ↦ absurd (ground (arith, same))
            | inr other ↦ inr other
          ]
          | no ge ↦ inl (omega (arith, inv.tail_le))
        ],
      )

  -- In every state that threads reach from a new ring, as long as the number of items pushed so
  -- far plus `size`, a power of two from 2 on, stays below 2 ^ 63: if no thread is inside a call,
  -- the ring holds the queue of the items that were pushed and not taken.
  pub at_rest : ((i : ℕ) → is_ready (s.pc i) ≡ true) → Holds size s.mem (drop s.mem.tail s.log)
  at_rest ready = record {
    span = omega (arith, length-drop s.mem.tail s.log, inv.counted, inv.tail_le);
    fits = omega (arith, length-drop s.mem.tail s.log, inv.counted, inv.head_le);
    room = inv.room;
    items = λ k b.
        elim (inv.covered_push (s.mem.tail + k) (omega arith)
          (omega (arith, length-drop s.mem.tail s.log, inv.counted))) [
            | inl e ↦ (e, get_elem?-drop s.mem.tail k s.log ∙ (inv.full (s.mem.tail + k) e).1)
            | inr (j, e) ↦ absurd (busy j e)
          ];
    spare = λ p a b. elim (inv.covered_pop p a b) [
      | inl e ↦ e
      | inr (j, t, e, k) ↦ absurd (ground (arith, ready j))
    ];
  }
    where
      busy : {p : ℕ} (j : ℕ) → push_ticket (s.pc j) ≡ some p → ⊥
      busy j e = ground (arith, ready j)
