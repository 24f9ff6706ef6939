-- ===== src/Stack/Start.antt =====
-- A new stack: all nodes are free, linked 0 -> 1 -> 2 ... -> NULL_INDEX.
use lockless_concurrent_fram.Common.{
  ℕ, zero, suc, ◌+◌, ◌-◌, ◌≤◌, ◌<◌, ◌≡◌, refl, List, [], ◌∷◌, length, arith,
}
use lockless_concurrent_fram.Common.Words.{max32}
use lockless_concurrent_fram.Stack.{init, pack, unpack}
use lockless_concurrent_fram.Stack.Words.{index-pack}
use lockless_concurrent_fram.Stack.Chain.{Chain, NotIn, Distinct, Below}
use lockless_concurrent_fram.Stack.Layout.{Layout, Holds}

-- from, from + 1, ..., `n` indices in all.
abbrev pub indices : ℕ → ℕ → List ℕ
indices from zero = []
indices from (suc n) = from ∷ indices (from + 1) n

length-indices : (from n : ℕ) → length (indices from n) ≡ n
length-indices from zero = refl
length-indices from (suc n) = omega (arith, length-indices (from + 1) n)

NotIn-indices : (i from n : ℕ) → i < from → NotIn i (indices from n)
NotIn-indices i from zero lt = tt
NotIn-indices i from (suc n) lt =
    (λ e. omega (arith, e), NotIn-indices i (from + 1) n (omega arith))

Distinct-indices : (from n : ℕ) → Distinct (indices from n)
Distinct-indices from zero = tt
Distinct-indices from (suc n) =
    (NotIn-indices from (from + 1) n (omega arith), Distinct-indices (from + 1) n)

Below-indices : (from n top : ℕ) → from + n ≤ top → Below top (indices from n)
Below-indices from zero top le = tt
Below-indices from (suc n) top le = (omega arith, Below-indices (from + 1) n top (omega arith))

module _ {T : Type 0} (blank : T) (capacity : ℕ) (small : capacity ≤ max32) where
  Chain-indices :
      (n from : ℕ)
      → from + suc n ≡ capacity
      → Chain (init blank capacity).node_next from (indices from (suc n))
  unfolding init
  Chain-indices zero from e = (refl, ground arith)
  Chain-indices (suc n) from e =
      let step : (init blank capacity).node_next from ≡ from + 1 = ground arith in
      (refl, rw step (Chain-indices n (from + 1) (omega arith)))

  pub init-Layout : (n : ℕ) → suc n ≡ capacity → Layout (init blank capacity) [] (indices 0 (suc n))
  unfolding init
  init-Layout n e = record {
    used_chain = index-pack max32 0 (omega arith);
    spare_chain = rw (index-pack 0 0 (omega arith)) (Chain-indices n 0 (omega (arith, e)));
    used_distinct = tt;
    spare_distinct = Distinct-indices 0 (suc n);
    apart = tt;
    used_below = tt;
    spare_below = Below-indices 0 (suc n) capacity (omega (arith, e));
    all_nodes = omega (arith, length-indices 0 (suc n), e);
    small = small;
  }

  -- A new stack of at least one node, and of at most NULL_INDEX nodes, holds nothing.
  pub init-Holds : 0 < capacity → Holds (init blank capacity) []
  init-Holds pos = record {
    used = [];
    spare = indices 0 (suc (capacity - 1));
    layout = init-Layout (capacity - 1) (omega arith);
    items = refl;
  }

  pub init-capacity : (init blank capacity).capacity ≡ capacity
  unfolding init
  init-capacity = refl

  pub init-tags :
      (unpack (init blank capacity).head).tag + (unpack (init blank capacity).free_head).tag ≡ 0
  unfolding init pack unpack
  init-tags = refl
