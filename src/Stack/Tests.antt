-- ===== src/Stack/Tests.antt =====
-- A push on a stack of two nodes.
use lockless_concurrent_fram.Common.{ℕ, ◌≡◌, refl, Bool, true, false, Option, none, some, [], ◌∷◌}
use lockless_concurrent_fram.Stack.{
  Stack, pack, unpack, init, pop_index_loop, push_index_loop, push_index, try_push,
}

abbrev fresh : Stack ℕ
fresh = init 0 2

-- The result of a call.
abbrev results : Option (Stack ℕ × Bool) → Option Bool
results none = none
results (some (s, b)) = some b

first_push : results (try_push (false ∷ []) (true ∷ false ∷ []) fresh 7) ≡ some true
unfolding try_push push_index push_index_loop pop_index_loop init pack unpack
first_push = refl
