-- ===== src/Messages/Shared.antt =====
-- include/lockless/message_queue.hpp: ZeroCopyQueue with many threads at work, over the steps of Arena
-- and Ring, which interleave. A producer pushes what its prepare_message returned, with its size, as
-- often as it likes: until try_push takes it, say.
pub mod Sent
pub mod Delivered
mod Tests
use lockless_concurrent_fram.Common.{
  ℕ, ◌+◌, ◌≤◌, ◌<◌, ◌≡◌, ◌≢◌, Bool, true, false, none, some, List, update,
}
use lockless_concurrent_fram.Common.Words.{max64}
use lockless_concurrent_fram.Ring
use lockless_concurrent_fram.Arena
use lockless_concurrent_fram.Arena.{allocated, load, get_offset}
use lockless_concurrent_fram.Messages.{MessageHandle, ZeroCopyQueue}

pub record System : Type 0 where
  pub arena : Arena.System
  pub ring : Ring.System MessageHandle

-- The queue that the calls see.
abbrev pub queue_of : System → ZeroCopyQueue
queue_of s = record { queue = s.ring.mem; arena = s.arena.mem }

-- The handle that push_message makes of the pointer to the byte at `offset`.
abbrev pub handle_at : Arena.Arena → ℕ → ℕ → MessageHandle
handle_at a offset size = record { offset = get_offset a (a.base + offset); size = size }

pub start : ℕ → ℕ → ℕ → MessageHandle → System
start base arena_size queue_size blank = record {
  arena = Arena.start base arena_size;
  ring = Ring.start queue_size blank;
}

-- What thread `i` does; `limit` bounds what it asks for. It is in one call at a time.
module _ (limit queue_size : ℕ) where
  pub data Step (i : ℕ) (s : System) : System → Type 0 where
    call_prepare :
        (bytes : ℕ)
        → Arena.is_ready (s.arena.pc i) ≡ true
        → Ring.is_ready (s.ring.pc i) ≡ true
        → bytes ≤ limit
        → Step i s (record s { arena = record s.arena { pc = update s.arena.pc i (load bytes) } })
    call_push :
        (bytes offset : ℕ)
        → s.arena.pc i ≡ allocated bytes offset
        → Ring.is_ready (s.ring.pc i) ≡ true
        → get_offset s.arena.mem (s.arena.mem.base + offset) ≢ max64
        → Step i s (record s {
          ring = record s.ring {
            pc = update s.ring.pc i (Ring.push_load (handle_at s.arena.mem offset bytes));
          };
        })
    call_push_foreign :
        (bytes offset : ℕ)
        → s.arena.pc i ≡ allocated bytes offset
        → Ring.is_ready (s.ring.pc i) ≡ true
        → get_offset s.arena.mem (s.arena.mem.base + offset) ≡ max64
        → Step i s s
    call_pop :
        Arena.is_ready (s.arena.pc i) ≡ true
        → Ring.is_ready (s.ring.pc i) ≡ true
        → Step i s (record s { ring = record s.ring { pc = update s.ring.pc i Ring.pop_load } })
    move_arena :
        (spurious : Bool) → Step i s (record s { arena = Arena.advance i spurious s.arena })
    move_ring :
        (spurious : Bool) → Step i s (record s { ring = Ring.advance queue_size i spurious s.ring })

  pub data Reach (base arena_size : ℕ) (blank : MessageHandle) : System → Type 0 where
    here : Reach base arena_size blank (start base arena_size queue_size blank)
    next :
        {s t : System} (i : ℕ)
        → Reach base arena_size blank s
        → Step i s t
        → Reach base arena_size blank t
