-- ===== src/Arena.antt =====
-- include/lockless/message_queue.hpp: SharedMemoryArena, the bump allocator.
pub mod Blocks
pub mod Calls
pub mod Pointers
pub mod Owned
mod Tests
use lockless_concurrent_fram.Common.{
  ℕ, ◌+◌, ◌-◌, ◌≤◌, ◌≡◌, Bool, true, false, ◌||◌, Option, none, some, List, [], ◌∷◌, ltb, leb, ◌==◌,
  if◌then◌else◌, update,
}
use lockless_concurrent_fram.Common.Words.{add64, max64}

-- The members of `SharedMemoryArena`; `base` is the address of `buffer_.data()`.
pub record Arena : Type 0 where
  pub base : ℕ
  pub write_offset : ℕ
  pub size : ℕ

unfoldable pub init : ℕ → ℕ → Arena
init base size = record { base = base; write_offset = 0; size = size }

-- Where a thread stands in `allocate`.
pub data Pc : Type 0 where
  idle : Pc
  load : (bytes : ℕ) → Pc  -- before write_offset_.load
  try : (bytes current : ℕ) → Pc  -- top of the loop, before the compare-exchange
  allocated : (bytes offset : ℕ) → Pc  -- returned &buffer_[offset]
  threw : Pc  -- "Arena full"

-- One step of one thread. The test of the loop reads no shared memory, so it goes with the
-- compare-exchange; a failure, spurious or not, loads the offset anew.
unfoldable pub step : Bool → Arena → Pc → Arena × Pc
step spurious a idle = (a, idle)
step spurious a (load bytes) = (a, try bytes a.write_offset)
step spurious a (try bytes current) =
    if ltb a.size (add64 current bytes)
    then (a, threw)
    else (if spurious || (if a.write_offset == current then false else true)
        then (a, try bytes a.write_offset)
        else (record a { write_offset = add64 current bytes }, allocated bytes current))
step spurious a (allocated bytes offset) = (a, allocated bytes offset)
step spurious a threw = (a, threw)

-- `get`; `none` is the null pointer.
unfoldable pub get : Arena → ℕ → Option ℕ
get a offset = if leb a.size offset then none else some (a.base + offset)

-- `get_offset`; SIZE_MAX stands for a pointer from elsewhere.
unfoldable pub get_offset : Arena → ℕ → ℕ
get_offset a p = if ltb p a.base || leb (a.base + a.size) p then max64 else p - a.base

abbrev pub is_ready : Pc → Bool
is_ready (load _) = false
is_ready (try _ _) = false
is_ready _ = true

-- All threads over one arena. `blocks` is the history of what was allocated, newest first, each
-- block with its offset and its length.
pub record System : Type 0 where
  pub mem : Arena
  pub pc : ℕ → Pc
  pub blocks : List (ℕ × ℕ)

-- A step that ends in `allocated` from the loop has won a block.
abbrev pub blocks_after : Pc → Pc → List (ℕ × ℕ) → List (ℕ × ℕ)
blocks_after (try _ _) (allocated bytes offset) blocks = (offset, bytes) ∷ blocks
blocks_after _ _ blocks = blocks

unfoldable pub advance : ℕ → Bool → System → System
advance i spurious s =
    let (a, p) = step spurious s.mem (s.pc i) in
    record { mem = a; pc = update s.pc i p; blocks = blocks_after (s.pc i) p s.blocks }

-- `limit` bounds what callers ask for.
pub data Step (limit : ℕ) (s : System) : System → Type 0 where
  call :
      (i bytes : ℕ)
      → is_ready (s.pc i) ≡ true
      → bytes ≤ limit
      → Step limit s (record s { pc = update s.pc i (load bytes) })
  move : (i : ℕ) (spurious : Bool) → Step limit s (advance i spurious s)

unfoldable pub start : ℕ → ℕ → System
unfolding init
start base size = record { mem = init base size; pc = λ _. idle; blocks = [] }

pub data Reach (limit base size : ℕ) : System → Type 0 where
  here : Reach limit base size (start base size)
  next : {s t : System} → Reach limit base size s → Step limit s t → Reach limit base size t
