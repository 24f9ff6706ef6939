-- ===== src/Cache/Lines.antt =====
-- What CacheAligned and check_separation say of cache lines.
use lockless_concurrent_fram.Common.{ℕ, ◌+◌, ◌*◌, ◌/◌, ◌≤◌, ◌<◌, ◌≡◌, ◌≢◌, true, false, arith}
use lockless_concurrent_fram.Common.Words.{word64}
use lockless_concurrent_fram.Cache.{
  cache_line_size, padding_size, padding, size_of, distance, check_separation,
}

-- The size of CacheAligned<T> in lines: enough for a value, and one line more where the value fills
-- its lines.
pub size_of_lem : (size : ℕ) → size_of size ≡ (size / cache_line_size + 1) * cache_line_size
unfolding size_of padding padding_size
size_of_lem size = ground arith

-- For two addresses below 2 ^ 63: when check_separation does not warn, they are on different cache
-- lines; when it warns, they are on the same line or on adjacent ones.
pub check_separation_lem :
    (addr1 addr2 : ℕ)
    → addr1 < word64 / 2
    → addr2 < word64 / 2
    → (check_separation addr1 addr2 ≡ false → addr1 / cache_line_size ≢ addr2 / cache_line_size)
      × (check_separation addr1 addr2 ≡ true
          → (addr1 / cache_line_size ≤ addr2 / cache_line_size + 1)
            × (addr2 / cache_line_size ≤ addr1 / cache_line_size + 1))
unfolding check_separation distance
check_separation_lem a b in_a in_b = (
  λ quiet same. ground (arith, in_a, in_b, quiet, same),
  λ warned. ground (arith, in_a, in_b, warned),
)
