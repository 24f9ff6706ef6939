-- ===== src/Arena/Pointers.antt =====
-- `get` and `get_offset` of `SharedMemoryArena`: offsets and addresses.
use lockless_concurrent_fram.Common.{ℕ, ◌+◌, ◌≤◌, ◌<◌, ◌≡◌, ◌≢◌, ◌⊎◌, ◌↔◌, some, arith}
use lockless_concurrent_fram.Common.Words.{word64, max64}
use lockless_concurrent_fram.Arena.{Arena, get, get_offset}

-- An arena in the address space: its last byte has an address, and no offset is SIZE_MAX.
pub record IsPlaced (a : Arena) : Type 0 where
  pub within : a.base + a.size < word64

-- `get_offset` is the inverse of `get` on the offsets of the arena.
pub get_offset-get :
    (a : Arena) (offset p : ℕ)
    → get a offset ≡ some p
    → (get_offset a p ≡ offset) × (offset < a.size)
unfolding get get_offset
get_offset-get a offset p e = ground arith

-- In an arena whose bytes all have addresses below 2 ^ 64, `get_offset` is SIZE_MAX exactly for
-- pointers from elsewhere, and `get` gives any other pointer back.
get-get_offset :
    (a : Arena) (p : ℕ)
    → IsPlaced a
    → ((get_offset a p ≡ max64) ↔ ((p < a.base) ⊎ (a.base + a.size ≤ p)))
      × (get_offset a p ≢ max64 → get a (get_offset a p) ≡ some p)
unfolding get get_offset
get-get_offset a p ok = (ground arith, λ ne. ground arith)
