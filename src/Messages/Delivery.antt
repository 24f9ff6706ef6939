-- ===== src/Messages/Delivery.antt =====
-- What goes into the message queue comes out at the other end.
use lockless_concurrent_fram.Common.{
  ℕ, ◌+◌, ◌-◌, ◌≤◌, ◌<◌, ◌≡◌, ◌⊎◌, Bool, true, false, some, List, may_succeed, ◌==◌, arith,
}
use lockless_concurrent_fram.Common.Words.{max64}
use lockless_concurrent_fram.Queue
use lockless_concurrent_fram.Ring
use lockless_concurrent_fram.Ring.Calls.{try_push}
use lockless_concurrent_fram.Ring.Invariant.Slots.{IsSize}
use lockless_concurrent_fram.Ring.Alone.{Holds, try_push-refines, try_pop-refines}
use lockless_concurrent_fram.Arena.{Arena, get, get_offset}
use lockless_concurrent_fram.Arena.Pointers.{IsPlaced}
use lockless_concurrent_fram.Messages.{
  MessageHandle, ZeroCopyQueue, push_message, pop_message, get_message_data,
}

-- The pointer points into the arena.
pub record PointsInto (a : Arena) (p : ℕ) : Type 0 where
  pub placed : IsPlaced a
  pub from_base : a.base ≤ p
  pub below_end : p < a.base + a.size

abbrev pub handle_of : Arena → ℕ → ℕ → MessageHandle
handle_of a p size = record { offset = p - a.base; size = size }

module _ (queue_size : ℕ) (ok : IsSize queue_size) (z : ZeroCopyQueue) where
  -- `push_message` with a pointer below the arena or beyond its end returns false and changes
  -- nothing.
  pub push_message_foreign :
      (spurious : List Bool) (p size : ℕ)
      → (p < z.arena.base) ⊎ (z.arena.base + z.arena.size ≤ p)
      → push_message queue_size spurious z p size ≡ some (z, false)
  unfolding push_message get_offset
  push_message_foreign spurious p size out = ground arith

  push_known :
      (spurious : List Bool) (p size o : ℕ) (m : Ring.Memory MessageHandle) (b : Bool)
      → get_offset z.arena p ≡ o
      → (o == max64) ≡ false
      → try_push queue_size spurious z.queue (record { offset = o; size = size }) ≡ some (m, b)
      → push_message queue_size spurious z p size ≡ some (record z { queue = m }, b)
  unfolding push_message
  push_known spurious p size o m b e f g = ground arith

  offset_known :
      (p : ℕ)
      → PointsInto z.arena p
      → (get_offset z.arena p ≡ p - z.arena.base)
        × ((p - z.arena.base == max64) ≡ false)
        × (get z.arena (p - z.arena.base) ≡ some p)
  unfolding get_offset get
  offset_known p into = ground arith

  -- For a pointer into the arena, and a ring at rest that holds `q`, of a size that is a power of
  -- two from 2 on, with counters that stay below 2 ^ 63: `push_message`, running alone, some
  -- compare-exchange not failing spuriously, does to the queue what the bounded queue's push of
  -- the pointer's handle does, and the handle leads back to the pointer.
  pub push_message-refines :
      {q : List MessageHandle} (spurious : List Bool) (p size : ℕ)
      → Holds queue_size z.queue q
      → PointsInto z.arena p
      → may_succeed spurious ≡ true
      → z.queue.head + 1 + queue_size < 0x8000_0000_0000_0000
      → (queue : Ring.Memory MessageHandle) × (push_message queue_size spurious z p size
          ≡ some
              (record z { queue = queue }, (Queue.push queue_size q (handle_of z.arena p size)).1))
        × Holds queue_size queue (Queue.push queue_size q (handle_of z.arena p size)).0
        × (get_message_data z (handle_of z.arena p size) ≡ some p)
  unfolding get_message_data
  push_message-refines spurious p size h into lucky room =
      let handle = handle_of z.arena p size in
      let (m, e, held, near) = try_push-refines queue_size ok h spurious handle lucky room in
      let (at_, valid, back) = offset_known p into in
      (m, push_known spurious p size (p - z.arena.base) m _ at_ valid e, held, back)

  -- For a ring at rest that holds `q`, of a size that is a power of two from 2 on: `pop_message`,
  -- running alone, some compare-exchange not failing spuriously, returns the oldest handle, if
  -- there is one, and leaves the others.
  pub pop_message-refines :
      {q : List MessageHandle} (spurious : List Bool)
      → Holds queue_size z.queue q
      → may_succeed spurious ≡ true
      → (queue : Ring.Memory MessageHandle) × (pop_message queue_size spurious z
          ≡ some (record z { queue = queue }, (Queue.pop q).1))
        × Holds queue_size queue (Queue.pop q).0
  unfolding pop_message
  pop_message-refines {q} spurious h lucky =
      let (m, e, held) = try_pop-refines queue_size ok q spurious h lucky in
      (m, rw (e, pop_message), held)
