-- ===== src/Stack/Words.antt =====
-- The packed word: an index and a tag.
use lockless_concurrent_fram.Common.{ℕ, ◌<◌, ◌≡◌, arith}
use lockless_concurrent_fram.Common.Words.{word32, word64}
use lockless_concurrent_fram.Stack.{pack, unpack}

-- For an index and a tag below 2 ^ 32, `unpack` gives back what `pack` took, and the packed word
-- fits in 64 bits.
pub unpack-pack :
    (index tag : ℕ)
    → index < word32
    → tag < word32
    → (unpack (pack index tag) ≡ record { index = index; tag = tag }) × (pack index tag < word64)
unfolding pack unpack
unpack-pack index tag h k = ground arith

-- `pack` gives back any word that `unpack` took apart.
pub pack-unpack : (w : ℕ) → w < word64 → pack (unpack w).index (unpack w).tag ≡ w
unfolding pack unpack
pack-unpack w h = omega arith

pub index-pack : (index tag : ℕ) → index < word32 → (unpack (pack index tag)).index ≡ index
unfolding pack unpack
index-pack index tag h = omega arith
