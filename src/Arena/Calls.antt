-- ===== src/Arena/Calls.antt =====
-- Whole calls of `SharedMemoryArena::allocate`, with no other thread at work.
use lockless_concurrent_fram.Common.{
  ℕ, ◌+◌, ◌-◌, ◌≤◌, ◌<◌, ◌≡◌, Bool, true, false, not, ◌&&◌, Option, none, some, List, [], ◌∷◌, ltb,
  ◌==◌, if◌then◌else◌, arith, may_succeed, ◌⊎◌, inl, inr, Bool-cases, ltb→lt, ltb-false→ge,
}
use lockless_concurrent_fram.Common.Words.{add64, word64}
use lockless_concurrent_fram.Arena.{Arena}

-- The loop. A list says of each compare-exchange whether it fails spuriously; the outer `none` means
-- that it ran out, the inner one is the exception "Arena full". The result is an address.
unfoldable pub allocate_loop : List Bool → Arena → ℕ → ℕ → Option (Arena × Option ℕ)
allocate_loop [] a bytes current = none
allocate_loop (spurious ∷ rest) a bytes current =
    let again = allocate_loop rest a bytes a.write_offset in
    if ltb a.size (add64 current bytes)
    then some (a, none)
    else (if not spurious && a.write_offset == current
        then some (record a { write_offset = add64 current bytes }, some (a.base + current))
        else again)

unfoldable pub allocate : List Bool → Arena → ℕ → Option (Arena × Option ℕ)
unfolding allocate_loop
allocate spurious a bytes = allocate_loop spurious a bytes a.write_offset

allocate_loop_lem :
    (spurious : List Bool) (a : Arena) (bytes : ℕ)
    → may_succeed spurious ≡ true
    → a.write_offset + bytes < word64
    → allocate_loop spurious a bytes a.write_offset
      ≡ some (
          if ltb a.size (a.write_offset + bytes)
          then (a, none)
          else (record a { write_offset = a.write_offset + bytes }, some (a.base + a.write_offset)))
unfolding allocate_loop
allocate_loop_lem [] a bytes e lt = cc
allocate_loop_lem (false ∷ rest) a bytes e lt = ground arith
allocate_loop_lem (true ∷ rest) a bytes e lt = ground (arith, allocate_loop_lem rest a bytes e lt)

-- While offset plus request stays below 2 ^ 64 and some compare-exchange does not fail spuriously,
-- `allocate` takes the next `bytes` bytes if they fit, and otherwise throws and leaves the arena
-- as it was.
pub allocate_lem :
    (spurious : List Bool) (a : Arena) (bytes : ℕ)
    → may_succeed spurious ≡ true
    → a.write_offset + bytes < word64
    → allocate spurious a bytes
      ≡ some (
          if ltb a.size (a.write_offset + bytes)
          then (a, none)
          else (record a { write_offset = a.write_offset + bytes }, some (a.base + a.write_offset)))
unfolding allocate
allocate_lem = allocate_loop_lem

-- When offset plus request, both below 2 ^ 64, passes 2 ^ 64 and is at most the size after the
-- wrap, and the first compare-exchange does not fail spuriously, `allocate` succeeds and moves the
-- offset back.
pub allocate_wraps :
    (rest : List Bool) (a : Arena) (bytes : ℕ)
    → a.write_offset < word64
    → bytes < word64
    → word64 ≤ a.write_offset + bytes
    → a.write_offset + bytes ≤ word64 + a.size
    → (a' : Arena) × (allocate (false ∷ rest) a bytes ≡ some (a', some (a.base + a.write_offset)))
      × (a'.write_offset < a.write_offset)
unfolding allocate allocate_loop
allocate_wraps rest a bytes small lt over fits =
    (record a { write_offset = a.write_offset + bytes - word64 }, ground arith, omega arith)

allocate_loop_wraps :
    (spurious : List Bool) (a : Arena) (bytes : ℕ)
    → may_succeed spurious ≡ true
    → allocate_loop spurious a bytes a.write_offset
      ≡ some (
          if ltb a.size (add64 a.write_offset bytes) then (a, none) else (
            record a { write_offset = add64 a.write_offset bytes },
            some (a.base + a.write_offset),
          ))
unfolding allocate_loop
allocate_loop_wraps [] a bytes e = cc
allocate_loop_wraps (false ∷ rest) a bytes e = ground arith
allocate_loop_wraps (true ∷ rest) a bytes e = ground (arith, allocate_loop_wraps rest a bytes e)

-- For an offset and a request below 2 ^ 64, when some compare-exchange does not fail spuriously,
-- one of two things holds. Offset plus request stays below 2 ^ 64, and `allocate` takes the next
-- bytes if they fit, and otherwise throws and leaves the arena as it was. Or the sum is 2 ^ 64 or
-- more and wraps to something below the offset, and `allocate` does the same with the wrapped sum:
-- if that is within the size, it succeeds and moves the offset back.
pub allocate_cases :
    (spurious : List Bool) (a : Arena) (bytes : ℕ)
    → may_succeed spurious ≡ true
    → a.write_offset < word64
    → bytes < word64
    → ((a.write_offset + bytes < word64)
        × (allocate spurious a bytes
            ≡ some (
                if ltb a.size (a.write_offset + bytes) then (a, none) else (
                  record a { write_offset = a.write_offset + bytes },
                  some (a.base + a.write_offset),
                ))))
      ⊎ ((word64 ≤ a.write_offset + bytes)
          × (a.write_offset + bytes - word64 < a.write_offset)
          × (allocate spurious a bytes
              ≡ some (
                  if ltb a.size (a.write_offset + bytes - word64) then (a, none) else (
                    record a { write_offset = a.write_offset + bytes - word64 },
                    some (a.base + a.write_offset),
                  ))))
unfolding allocate
allocate_cases spurious a bytes e small request =
    let run = allocate_loop_wraps spurious a bytes e in
    elim (Bool-cases (ltb (a.write_offset + bytes) word64)) [
      | inl lt ↦
          let sum : add64 a.write_offset bytes ≡ a.write_offset + bytes = ground (arith, lt) in
          inl (ltb→lt _ _ lt, rw sum at run)
      | inr ge ↦
          let sum : add64 a.write_offset bytes ≡ a.write_offset + bytes - word64 =
            ground (arith, ge, small, request) in
          inr (ltb-false→ge _ _ ge, ground (arith, ge, small, request), rw sum at run)
    ]
