-- ===== src/Messages.antt =====
-- include/lockless/message_queue.hpp: ZeroCopyQueue, which passes offsets into an arena through a
-- ring buffer. Calls run alone here; a list says which compare-exchanges fail spuriously.
pub mod Delivery
pub mod Shared
mod Tests
use lockless_concurrent_fram.Common.{
  ℕ, ◌≡◌, Bool, true, false, Option, none, some, List, ◌==◌, if◌then◌else◌,
}
use lockless_concurrent_fram.Common.Words.{max64}
use lockless_concurrent_fram.Ring
use lockless_concurrent_fram.Ring.Calls.{try_push, try_pop}
use lockless_concurrent_fram.Arena.{Arena, get, get_offset}
use lockless_concurrent_fram.Arena.Calls.{allocate}

pub record MessageHandle : Type 0 where
  pub offset : ℕ
  pub size : ℕ

pub record ZeroCopyQueue : Type 0 where
  pub queue : Ring.Memory MessageHandle
  pub arena : Arena

-- `prepare_message`; the inner `none` is the exception of a full arena.
pub prepare_message : List Bool → ZeroCopyQueue → ℕ → Option (ZeroCopyQueue × Option ℕ)
prepare_message spurious z size = elim (allocate spurious z.arena size) [
  | none ↦ none
  | some (arena, p) ↦ some (record z { arena = arena }, p)
]

pub push_message : ℕ → List Bool → ZeroCopyQueue → ℕ → ℕ → Option (ZeroCopyQueue × Bool)
push_message queue_size spurious z p size =
    let offset = get_offset z.arena p in
    if offset == max64
    then some (z, false)
    else elim (try_push queue_size spurious z.queue (record { offset = offset; size = size })) [
      | none ↦ none
      | some (queue, done) ↦ some (record z { queue = queue }, done)
    ]

pub pop_message : ℕ → List Bool → ZeroCopyQueue → Option (ZeroCopyQueue × Option MessageHandle)
pop_message queue_size spurious z = elim (try_pop queue_size spurious z.queue) [
  | none ↦ none
  | some (queue, handle) ↦ some (record z { queue = queue }, handle)
]

pub get_message_data : ZeroCopyQueue → MessageHandle → Option ℕ
get_message_data z handle = get z.arena handle.offset
