-- ===== src/Examples/Rings.antt =====
-- examples/ring_buffer_example.cpp: producer_example and consumer_example. The lists of a call say
-- which of its compare-exchanges fail spuriously. The loops of mpmc_example are these, with threads.
use lockless_concurrent_fram.Common.{
  ℕ, zero, suc, ◌+◌, ◌≤◌, ◌<◌, ◌≡◌, refl, ap, ◌∙◌, Bool, true, Option, none, some, List, [], ◌∷◌,
  ◌++◌, append-nil, append_assoc, length, length-snoc, may_succeed, ltb, arith, if◌then◌else◌,
}
use lockless_concurrent_fram.Examples.Upto.{upto, length-upto}
use lockless_concurrent_fram.Ring.{Memory}
use lockless_concurrent_fram.Ring.Calls.{try_push, try_pop}
use lockless_concurrent_fram.Ring.Alone.{Holds, init-Holds, try_push-refines, try_pop-refines}
use lockless_concurrent_fram.Ring.Invariant.Slots.{IsSize}

abbrev pub new_ring : Memory ℕ
new_ring = record { sequences = λ i. i; buffer = λ _. 0; head = 0; tail = 0 }

module _ (size : ℕ) where
  -- `while (!buffer.try_push(i))`, with `n` rounds allowed.
  pub push_until : ℕ → (ℕ → List Bool) → Memory ℕ → ℕ → Option (Memory ℕ)
  push_until zero pushes m x = none
  push_until (suc n) pushes m x = elim (try_push size (pushes n) m x) [
    | none ↦ none
    | some (m', done) ↦ let again = push_until n pushes m' x in if done then some m' else again
  ]

  pub produce : ℕ → (ℕ → List Bool) → Memory ℕ → List ℕ → Option (Memory ℕ)
  produce n pushes m [] = some m
  produce n pushes m (x ∷ items) = elim (push_until n pushes m x) [
    | none ↦ none
    | some m' ↦ produce n pushes m' items
  ]

  -- Pushes whose results the program does not look at.
  pub fill : (ℕ → List Bool) → Memory ℕ → List ℕ → Option (Memory ℕ)
  fill pushes m [] = some m
  fill pushes m (x ∷ items) = elim (try_push size (pushes (length items)) m x) [
    | none ↦ none
    | some (m', _) ↦ fill pushes m' items
  ]

  -- `while (buffer.try_pop(value))`, with `n` rounds allowed: the values, and how many they are.
  pub consume : ℕ → (ℕ → List Bool) → Memory ℕ → Option (List ℕ × ℕ)
  consume zero pops m = none
  consume (suc n) pops m = elim (try_pop size (pops n) m) [
    | none ↦ none
    | some (m', none) ↦ some ([], 0)
    | some (m', some x) ↦ elim (consume n pops m') [
      | none ↦ none
      | some (values, count) ↦ some (x ∷ values, count + 1)
    ]
  ]

pub producer_example : ℕ → (ℕ → List Bool) → Option (Memory ℕ)
producer_example n pushes = produce 256 n pushes new_ring (upto 100)

pub consumer_example : ℕ → (pushes pops : ℕ → List Bool) → Option (List ℕ × ℕ)
consumer_example n pushes pops = elim (fill 256 pushes new_ring (upto 50)) [
  | none ↦ none
  | some m ↦ consume 256 n pops m
]

module _ (size : ℕ) (ok : IsSize size) (calls : ℕ → List Bool)
    (lucky : (i : ℕ) → may_succeed (calls i) ≡ true) where
  produce-Holds :
      (n : ℕ) (items q : List ℕ) (m : Memory ℕ)
      → 0 < n
      → Holds size m q
      → length q + length items ≤ size
      → m.head + length items + size < 0x8000_0000_0000_0000
      → (m' : Memory ℕ) × (produce size n calls m items ≡ some m') × Holds size m' (q ++ items)
  unfolding produce push_until
  produce-Holds zero items q m pos h fits room = absurd (omega (arith, pos))
  produce-Holds (suc n) [] q m pos h fits room = (m, refl, rw append-nil h)
  produce-Holds (suc n) (x ∷ items) q m pos h fits room =
      let (m', e, held, near) =
        try_push-refines size ok h (calls n) x (lucky n) (omega (arith, room)) in
      let free : ltb (length q) size ≡ true = ground (arith, fits) in
      let first : push_until size (suc n) calls m x ≡ some m' = rw (e, push_until, free) refl in
      let (m'', f, held') =
        produce-Holds (suc n) items (q ++ x ∷ []) m' pos (rw free at held)
          (omega (arith, fits, length-snoc q x)) (omega (arith, room, near)) in
      (m'', rw (first, produce) f, rw append_assoc at held')

  fill-Holds :
      (items q : List ℕ) (m : Memory ℕ)
      → Holds size m q
      → length q + length items ≤ size
      → m.head + length items + size < 0x8000_0000_0000_0000
      → (m' : Memory ℕ) × (fill size calls m items ≡ some m') × Holds size m' (q ++ items)
  unfolding fill
  fill-Holds [] q m h fits room = (m, refl, rw append-nil h)
  fill-Holds (x ∷ items) q m h fits room =
      let (m', e, held, near) =
        try_push-refines size ok h (calls (length items)) x (lucky (length items))
          (omega (arith, room)) in
      let free : ltb (length q) size ≡ true = ground (arith, fits) in
      let (m'', f, held') =
        fill-Holds items (q ++ x ∷ []) m' (rw free at held) (omega (arith, fits, length-snoc q x))
          (omega (arith, room, near)) in
      (m'', rw (e, fill) f, rw append_assoc at held')

  -- The loop of the consumer ends after one round more than there are items, and gives them all.
  consume-drains :
      (n : ℕ) (q : List ℕ) (m : Memory ℕ)
      → length q < n
      → Holds size m q
      → consume size n calls m ≡ some (q, length q)
  unfolding consume
  consume-drains zero q m lt h = absurd (omega (arith, lt))
  consume-drains (suc n) [] m lt h =
      let (m', e, _) = try_pop-refines size ok [] (calls n) h (lucky n) in rw (e, consume) refl
  consume-drains (suc n) (x ∷ q) m lt h =
      let (m', e, held) = try_pop-refines size ok (x ∷ q) (calls n) h (lucky n) in
      rw (e, consume, consume-drains n q m' (omega (arith, lt)) held)
        (ap (λ k. some (x ∷ q, k)) (omega arith))

slots_256 : IsSize 256
slots_256 = record { pow = record { exponent = 8; is_pow = refl }; two = omega arith }

new_ring-Holds : Holds 256 new_ring []
new_ring-Holds = init-Holds 256 slots_256 0 (omega arith)

-- When no call fails spuriously for ever, and more than 50 rounds are allowed for each loop:
-- producer_example ends with the values from 0 to 99 in the ring, and consumer_example ends after
-- consuming the values from 0 to 49, and counts 50.
programs_end :
    (n : ℕ) (pushes pops : ℕ → List Bool)
    → ((i : ℕ) → may_succeed (pushes i) ≡ true)
    → ((i : ℕ) → may_succeed (pops i) ≡ true)
    → 50 < n
    → ((m : Memory ℕ) × (producer_example n pushes ≡ some m) × Holds 256 m (upto 100))
      × (consumer_example n pushes pops ≡ some (upto 50, 50))
unfolding producer_example consumer_example
programs_end n pushes pops lucky lucky' enough =
    let (m, e, held) =
      fill-Holds 256 slots_256 pushes lucky (upto 50) [] new_ring new_ring-Holds
        (omega (arith, length-upto 50)) (omega (arith, length-upto 50)) in
    (
      produce-Holds 256 slots_256 pushes lucky n (upto 100) [] new_ring (omega (arith, enough))
          new_ring-Holds (omega (arith, length-upto 100)) (omega (arith, length-upto 100)),
      rw (e, consumer_example)
          (consume-drains 256 slots_256 pops lucky' n (upto 50) m
              (omega (arith, enough, length-upto 50)) held
            ∙ ap (λ k. some (upto 50, k)) (length-upto 50)),
    )
