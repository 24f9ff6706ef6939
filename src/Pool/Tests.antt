-- ===== src/Pool/Tests.antt =====
-- A pool of two objects, at addresses 100 and 101, and the theorems on it.
use lockless_concurrent_fram.Common.{◌≡◌, refl, Bool, true, false, some, List, [], ◌∷◌, arith}
use lockless_concurrent_fram.Stack.{unpack}
use lockless_concurrent_fram.Pool.{Pool, init}
use lockless_concurrent_fram.Pool.Leases.{Contents, init-Contents}

-- The first exchange of each loop fails spuriously.
abbrev late : List Bool
late = true ∷ false ∷ []

-- One object has been handed out.
abbrev one_left : Pool
one_left = record {
  base = 100;
  capacity = 2;
  free_indices = record {
    node_data = λ _. 0;
    node_next = λ _. 0xFFFF_FFFF;
    capacity = 2;
    head = 0x1_0000_0000;
    free_head = 0x1_0000_0001;
  };
}

one_left-Contents : Contents one_left (0 ∷ [])
unfolding unpack
one_left-Contents = record {
  holds = record { used = 0 ∷ []; spare = 1 ∷ []; layout = omega arith; items = refl };
  same = refl;
  small = omega arith;
}

two_free :
    (pool : Pool) × (init (λ _. late) (λ _. late) 100 2 ≡ some (pool, true))
    × Contents pool (1 ∷ 0 ∷ [])
    × (pool.base ≡ 100)
    × (pool.capacity ≡ 2)
two_free =
    init-Contents (λ _. late) (λ _. late) (λ _. refl) (λ _. refl) 100 2 (omega arith) (omega arith)
