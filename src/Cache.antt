-- ===== src/Cache.antt =====
-- include/lockless/cache_utils.hpp and common.hpp: CacheAligned and FalseSharingDetector, as
-- arithmetic on sizes and addresses. Sizes and alignments are the compiler's, by its rules: a size
-- is a multiple of the alignment, with no more padding than that takes.
pub mod Lines
mod Tests
use lockless_concurrent_fram.Common.{
  ℕ, ◌+◌, ◌-◌, ◌*◌, ◌/◌, ◌%◌, Bool, true, false, ◌||◌, not, ltb, ◌==◌, if◌then◌else◌,
}
use lockless_concurrent_fram.Common.Words.{sub64, is_negative}

abbrev pub cache_line_size : ℕ
cache_line_size = 64

-- `CacheAligned<T>::padding_size`, and the length of the array `padding`, where `size` is sizeof(T).
pub padding_size : ℕ → ℕ
padding_size size =
    if size % cache_line_size == 0 then 0 else cache_line_size - size % cache_line_size

pub padding : ℕ → ℕ
unfolding padding_size
padding size = if ltb 0 (padding_size size) then padding_size size else 1

-- sizeof(CacheAligned<T>): `value` and `padding`, rounded up to whole lines.
pub size_of : ℕ → ℕ
unfolding padding
size_of size = (size + padding size + (cache_line_size - 1)) / cache_line_size * cache_line_size

pub verify_cache_alignment : ℕ → Bool
verify_cache_alignment ptr = ptr % cache_line_size == 0

-- `distance` in check_separation, as a pattern of bits, and whether there is a warning.
pub distance : ℕ → ℕ → ℕ
distance addr1 addr2 = if ltb addr1 addr2 then sub64 addr2 addr1 else sub64 addr1 addr2

pub check_separation : ℕ → ℕ → Bool
unfolding distance
check_separation addr1 addr2 =
    is_negative (distance addr1 addr2) || ltb (distance addr1 addr2) cache_line_size

pub check_alignment : ℕ → Bool
unfolding verify_cache_alignment
check_alignment ptr = not (verify_cache_alignment ptr)
