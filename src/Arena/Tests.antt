-- ===== src/Arena/Tests.antt =====
-- An arena of eight bytes, and the theorems on it.
use lockless_concurrent_fram.Common.{
  ◌+◌, ◌≤◌, ◌<◌, ◌≡◌, ◌-◌, ◌⊎◌, refl, true, false, none, some, [], ◌∷◌, ltb, if◌then◌else◌, arith,
}
use lockless_concurrent_fram.Arena.{
  Arena, get, get_offset, step, start, init, advance, System, call, move, Reach, here, next,
}
use lockless_concurrent_fram.Arena.Blocks.{Stacked, blocks_apart}
use lockless_concurrent_fram.Common.Words.{word64}
use lockless_concurrent_fram.Arena.Calls.{allocate, allocate_cases}
use lockless_concurrent_fram.Arena.Pointers.{get_offset-get}

record Played : Type 0 where
  last : System
  reach : Reach 4 100 8 last

-- Threads 0 and 1 both load offset 0 and race for it; thread 1 loses once and then gets a block too.
raced : Played
unfolding advance step start init
raced =
    let a = next here (call 0 3 refl (omega arith)) in
    let b = next a (call 1 2 refl (omega arith)) in
    let c = next (next b (move 0 false)) (move 1 false) in
    record { last = _; reach = next (next (next c (move 0 false)) (move 1 false)) (move 1 false) }

raced_blocks : raced.last.blocks ≡ (3, 2) ∷ (0, 3) ∷ []
unfolding raced
raced_blocks = refl

blocks_apart_example :
    Stacked raced.last.mem.write_offset raced.last.blocks × (raced.last.mem.write_offset ≤ 8)
blocks_apart_example = blocks_apart 4 8 (omega arith) raced.reach

abbrev half_full : Arena
half_full = record { base = 100; write_offset = 4; size = 8 }

-- A request of SIZE_MAX - 2 bytes moves the offset from 4 to 1.
allocate_back :
    allocate (false ∷ []) half_full 0xffff_ffff_ffff_fffd
    ≡ some (record half_full { write_offset = 1 }, some 104)
unfolding allocate
allocate_back = refl

allocate_cases_example :
    ((4 + 0xffff_ffff_ffff_fffd < word64)
      × (allocate (true ∷ false ∷ []) half_full 0xffff_ffff_ffff_fffd
          ≡ some (
              if ltb 8 (4 + 0xffff_ffff_ffff_fffd)
              then (half_full, none)
              else (record half_full { write_offset = 4 + 0xffff_ffff_ffff_fffd }, some 104))))
    ⊎ ((word64 ≤ 4 + 0xffff_ffff_ffff_fffd)
        × (4 + 0xffff_ffff_ffff_fffd - word64 < 4)
        × (allocate (true ∷ false ∷ []) half_full 0xffff_ffff_ffff_fffd
            ≡ some (
                if ltb 8 (4 + 0xffff_ffff_ffff_fffd - word64) then (half_full, none) else (
                  record half_full { write_offset = 4 + 0xffff_ffff_ffff_fffd - word64 },
                  some 104,
                ))))
allocate_cases_example =
    allocate_cases (true ∷ false ∷ []) half_full 0xffff_ffff_ffff_fffd refl (omega arith)
      (omega arith)

get_offset-get_example : (get_offset half_full 103 ≡ 3) × (3 < 8)
unfolding get
get_offset-get_example = get_offset-get half_full 3 103 refl
