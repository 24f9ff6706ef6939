-- ===== src/Stack/Layout.antt =====
-- Where the nodes of the stack are, and what a call moves.
use mathlib.Core.List.{map}
use lockless_concurrent_fram.Common.{
  ℕ, ◌+◌, ◌≤◌, ◌<◌, ◌≡◌, refl, ap, List, [], ◌∷◌, length, update, update_self, arith,
}
use lockless_concurrent_fram.Common.Words.{max32, word32}
use lockless_concurrent_fram.Stack.{Stack, pack, unpack}
use lockless_concurrent_fram.Stack.Words.{index-pack}
use lockless_concurrent_fram.Stack.Chain.{
  Chain, Distinct, Apart, Below, Chain-update, Apart-front, Apart-back, Chain-top,
}
use lockless_concurrent_fram.Stack.Loops.{stamp}

module _ {T : Type 0} where
  -- The nodes of the stack and the free nodes share out the array.
  pub record Layout (s : Stack T) (used spare : List ℕ) : Type 0 where
    pub used_chain : Chain s.node_next (unpack s.head).index used
    pub spare_chain : Chain s.node_next (unpack s.free_head).index spare
    pub used_distinct : Distinct used
    pub spare_distinct : Distinct spare
    pub apart : Apart used spare
    pub used_below : Below s.capacity used
    pub spare_below : Below s.capacity spare
    pub all_nodes : length used + length spare ≡ s.capacity
    pub small : s.capacity ≤ max32

  pub record Holds (s : Stack T) (q : List T) : Type 0 where
    pub used : List ℕ
    pub spare : List ℕ
    pub layout : Layout s used spare
    pub items : map s.node_data used ≡ q

  pub length-map : (f : ℕ → T) (xs : List ℕ) → length (map f xs) ≡ length xs
  length-map f [] = refl
  length-map f (x ∷ xs) = ap ℕ.suc (length-map f xs)

  abbrev pub after_push : Stack T → T → ℕ → Stack T
  after_push s x i = record s {
    node_data = update s.node_data i x;
    node_next = update s.node_next i (unpack s.head).index;
    head = pack i (stamp s.node_next s.head);
    free_head = pack (s.node_next i) (stamp s.node_next s.free_head);
  }

  pub after_push-Layout :
      (s : Stack T) (x : T) (i : ℕ) (used spare : List ℕ)
      → Layout s used (i ∷ spare)
      → Layout (after_push s x i) (i ∷ used) spare
  after_push-Layout s x i used spare l =
      let (fresh, rest) = Apart-front i used spare l.apart in
      let in_range : i < word32 = omega (arith, l.spare_below.0, l.small) in
      let next_range =
        Chain-top s.node_next (s.node_next i) s.capacity spare l.spare_chain.1 l.spare_below.1
          l.small in
      record {
        used_chain = (
          index-pack i (stamp s.node_next s.head) in_range,
          rw (update_self s.node_next i (unpack s.head).index) (
              Chain-update s.node_next i (unpack s.head).index (unpack s.head).index used fresh
                l.used_chain),
        );
        spare_chain = rw (index-pack (s.node_next i) (stamp s.node_next s.free_head) next_range) (
            Chain-update s.node_next i (unpack s.head).index (s.node_next i) spare
              l.spare_distinct.0 l.spare_chain.1);
        used_distinct = (fresh, l.used_distinct);
        spare_distinct = l.spare_distinct.1;
        apart = (l.spare_distinct.0, rest);
        used_below = (l.spare_below.0, l.used_below);
        spare_below = l.spare_below.1;
        all_nodes = omega (arith, l.all_nodes);
        small = l.small;
      }

  abbrev pub after_pop : Stack T → ℕ → Stack T
  after_pop s i = record s {
    node_next = update s.node_next i (unpack s.free_head).index;
    head = pack (s.node_next i) (stamp s.node_next s.head);
    free_head = pack i (stamp s.node_next s.free_head);
  }

  pub after_pop-Layout :
      (s : Stack T) (i : ℕ) (used spare : List ℕ)
      → Layout s (i ∷ used) spare
      → Layout (after_pop s i) used (i ∷ spare)
  after_pop-Layout s i used spare l =
      let in_range : i < word32 = omega (arith, l.used_below.0, l.small) in
      let next_range =
        Chain-top s.node_next (s.node_next i) s.capacity used l.used_chain.1 l.used_below.1
          l.small in
      record {
        used_chain = rw (index-pack (s.node_next i) (stamp s.node_next s.head) next_range) (
            Chain-update s.node_next i (unpack s.free_head).index (s.node_next i) used
              l.used_distinct.0 l.used_chain.1);
        spare_chain = (
          index-pack i (stamp s.node_next s.free_head) in_range,
          rw (update_self s.node_next i (unpack s.free_head).index) (
              Chain-update s.node_next i (unpack s.free_head).index (unpack s.free_head).index spare
                l.apart.0 l.spare_chain),
        );
        used_distinct = l.used_distinct.1;
        spare_distinct = (l.apart.0, l.spare_distinct);
        apart = Apart-back i used spare l.used_distinct.0 l.apart.1;
        used_below = l.used_below.1;
        spare_below = (l.used_below.0, l.spare_below);
        all_nodes = omega (arith, l.all_nodes);
        small = l.small;
      }
