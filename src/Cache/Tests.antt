-- ===== src/Cache/Tests.antt =====
-- Sizes and addresses.
use lockless_concurrent_fram.Common.{◌+◌, ◌/◌, ◌≤◌, ◌≡◌, ◌≢◌, refl, true, false, arith}
use lockless_concurrent_fram.Cache.{
  cache_line_size, padding_size, padding, size_of, distance, check_separation,
}
use lockless_concurrent_fram.Cache.Lines.{check_separation_lem}

-- A value of one whole line gets a second one.
size_of_64 : size_of 64 ≡ 128
unfolding size_of padding padding_size
size_of_64 = refl

-- Two addresses on different lines, and a warning all the same.
warned : check_separation 60 64 ≡ true
unfolding check_separation distance
warned = refl

check_separation_lem_example :
    (check_separation 60 130 ≡ false → 60 / cache_line_size ≢ 130 / cache_line_size)
    × (check_separation 60 130 ≡ true
        → (60 / cache_line_size ≤ 130 / cache_line_size + 1)
          × (130 / cache_line_size ≤ 60 / cache_line_size + 1))
check_separation_lem_example = check_separation_lem 60 130 (omega arith) (omega arith)
