-- ===== src/Ring/Batch.antt =====
-- The batch calls of `RingBuffer`: as many single calls as succeed.
use lockless_concurrent_fram.Common.{
  may_succeed, ℕ, zero, suc, ◌+◌, ◌-◌, ◌<◌, ◌≡◌, refl, ap, ◌∙◌, Bool, true, some, inl, inr, List,
  [], ◌∷◌, ◌++◌, length, length-snoc, append-nil, append_assoc, take, drop, take-nil, arith, ltb,
  ltb→lt, ltb-false→ge, Bool-cases, min,
}
use lockless_concurrent_fram.Ring.{Memory}
use lockless_concurrent_fram.Ring.Calls.{try_push, try_push_batch, try_pop_batch}
use lockless_concurrent_fram.Ring.Alone.{Holds, try_push-refines, try_pop-refines}
use lockless_concurrent_fram.Ring.Invariant.Slots.{IsSize}

module _ {T : Type 0} (size : ℕ) (ok : IsSize size) (spurious : ℕ → List Bool)
    (lucky : (i : ℕ) → may_succeed (spurious i) ≡ true) where
  -- What a batch of pushes has done when it stops.
  pub record PushedBatch (q items : List T) (pushed : ℕ) (m : Memory T) : Type 0 where
    pub after : Memory T
    pub returns :
        try_push_batch size spurious m items pushed
        ≡ some (after, pushed + min (length items) (size - length q))
    pub holds : Holds size after (q ++ take (size - length q) items)

  after_push :
      {items : List T} (x : T) (q : List T) (pushed : ℕ) {m m' : Memory T}
      → length q < size
      → try_push size (spurious pushed) m x ≡ some (m', true)
      → PushedBatch (q ++ x ∷ []) items (pushed + 1) m'
      → PushedBatch q (x ∷ items) pushed m
  unfolding try_push_batch
  after_push {items} x q pushed lt e rest = record {
    after = rest.after;
    returns =
        rw (e, try_push_batch)
          (rest.returns ∙ ap (λ n. some (rest.after, n)) (omega (arith, length-snoc q x)));
    holds =
        let one : size - length q ≡ suc (size - length (q ++ x ∷ [])) =
          omega (arith, length-snoc q x) in
        rw one (rw append_assoc at rest.holds);
  }

  -- For a ring at rest that holds the queue `q`, of a size that is a power of two from 2 on, with
  -- counters that stay below 2 ^ 63: `try_push_batch`, running alone, none of its calls failing
  -- spuriously for ever, pushes as many items as there is room for, in order, and returns that
  -- number added to the count it started with.
  try_push_batch-refines :
      (items q : List T) (pushed : ℕ) (m : Memory T)
      → Holds size m q
      → m.head + length items + size < 0x8000_0000_0000_0000
      → PushedBatch q items pushed m
  unfolding try_push_batch
  try_push_batch-refines [] q pushed m h room = record {
    after = m;
    returns = ap (λ n. some (m, n)) (omega arith);
    holds = rw (take-nil T (size - length q), append-nil) h;
  }
  try_push_batch-refines (x ∷ items) q pushed m h room =
      let (m', e, h', near) =
        try_push-refines size ok h (spurious pushed) x (lucky pushed) (omega arith) in
      elim (Bool-cases (ltb (length q) size)) [
        | inl lt ↦
            let held : Holds size m' (q ++ x ∷ []) = rw lt at h' in
            after_push x q pushed (ltb→lt _ _ lt) (e ∙ rw lt)
              (try_push_batch-refines items (q ++ x ∷ []) (pushed + 1) m' held (omega arith))
        | inr ge ↦
            let full : size - length q ≡ 0 = omega (arith, h.fits, ltb-false→ge _ _ ge) in
            let held : Holds size m' q = rw ge at h' in
            record {
              after = m';
              returns = rw (e, try_push_batch, ge) (ap (λ n. some (m', n)) (omega (arith, full)));
              holds = rw (full, append-nil) held;
            }
      ]

  -- For a ring at rest that holds the queue `q`, of a size that is a power of two from 2 on, with
  -- counters that stay below 2 ^ 63: `try_pop_batch`, running alone, none of its calls failing
  -- spuriously for ever, takes the oldest items, at most `count`, in order, and leaves the others.
  pub try_pop_batch-refines :
      (count : ℕ) (q : List T) (popped : ℕ) (m : Memory T)
      → Holds size m q
      → (m' : Memory T) × (try_pop_batch size spurious popped count m ≡ some (m', take count q))
        × Holds size m' (drop count q)
  unfolding try_pop_batch
  try_pop_batch-refines zero q popped m h = (m, refl, h)
  try_pop_batch-refines (suc count) [] popped m h =
      let (m', e, h') = try_pop-refines size ok [] (spurious popped) h (lucky popped) in
      (m', rw (e, try_pop_batch), h')
  try_pop_batch-refines (suc count) (x ∷ q) popped m h =
      let (m₁, e₁, h₁) = try_pop-refines size ok (x ∷ q) (spurious popped) h (lucky popped) in
      let (m₂, e₂, h₂) = try_pop_batch-refines count q (popped + 1) m₁ h₁ in
      (m₂, rw (e₁, try_pop_batch, e₂), h₂)

  -- For a ring at rest that holds the queue `q`, of a size that is a power of two from 2 on, with
  -- counters that stay below 2 ^ 63: `try_push_batch` and then `try_pop_batch`, running alone,
  -- none of their calls failing spuriously for ever, push as many items as there is room for, in
  -- order, and return that number; and take the oldest items, at most `count`, in order, and leave
  -- the others.
  pub batches-refine :
      (items q : List T) (count : ℕ) (m : Memory T)
      → Holds size m q
      → m.head + length items + size < 0x8000_0000_0000_0000
      → let held = q ++ take (size - length q) items in
        (m' : Memory T) × (m'' : Memory T) × (try_push_batch size spurious m items 0
          ≡ some (m', min (length items) (size - length q)))
        × Holds size m' held
        × (try_pop_batch size spurious 0 count m' ≡ some (m'', take count held))
        × Holds size m'' (drop count held)
  batches-refine items q count m h room =
      let b : PushedBatch q items 0 m = try_push_batch-refines items q 0 m h room in
      let (m'', taken, left) =
        try_pop_batch-refines count (q ++ take (size - length q) items) 0 b.after b.holds in
      (b.after, m'', b.returns ∙ ap (λ n. some (b.after, n)) (omega arith), b.holds, taken, left)
