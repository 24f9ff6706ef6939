-- ===== src/Stack/Lifo.antt =====
-- What a call of the stack that runs alone does: it behaves as the bounded stack.
use mathlib.Core.List.{map}
use lockless_concurrent_fram.Common.{
  ℕ, ◌≡◌, ◌≢◌, refl, sym, ap, ap₂, ◌∙◌, Bool, true, false, Option, none, some, List, [], ◌∷◌,
  length, may_succeed, ltb, if◌then◌else◌, update_self, arith,
}
use lockless_concurrent_fram.Common.Words.{max32}
use lockless_concurrent_fram.Stack.{Stack, unpack, push_node, try_push, free_node, try_pop}
use lockless_concurrent_fram.Stack.Chain.{map-update, Apart-front}
use lockless_concurrent_fram.Stack.Loops.{pop_index-empty, pop_index_lem, push_index_lem}
use lockless_concurrent_fram.Stack.Layout.{
  Layout, Holds, length-map, after_push, after_push-Layout, after_pop, after_pop-Layout,
}

-- A bounded stack: what `ArrayLockFreeStack` promises to one caller at a time.
abbrev pub push : {T : Type 0} → ℕ → List T → T → List T × Bool
push capacity q x = if ltb (length q) capacity then (x ∷ q, true) else (q, false)

abbrev pub pop : {T : Type 0} → List T → List T × Option T
pop [] = ([], none)
pop (x ∷ q) = (q, some x)

module _ {T : Type 0} (pops pushes : List Bool) (lucky : may_succeed pops ≡ true)
    (lucky' : may_succeed pushes ≡ true) where
  push_full :
      (s : Stack T) (x : T)
      → (unpack s.free_head).index ≡ max32
      → try_push pops pushes s x ≡ some (s, false)
  unfolding try_push push_node
  push_full s x e = rw (pop_index-empty s.node_next s.free_head pops lucky e, try_push)

  push_room :
      (s : Stack T) (x : T) (i : ℕ)
      → (unpack s.free_head).index ≡ i
      → i ≢ max32
      → try_push pops pushes s x ≡ some (after_push s x i, true)
  unfolding try_push push_node
  push_room s x i e ne = ground (
    arith,
    pop_index_lem s.node_next s.free_head pops lucky,
    push_index_lem pushes s.node_next s.head i lucky',
  )

  -- For a stack that holds `q`, running alone, some compare-exchange of each loop not failing
  -- spuriously: `try_push` returns what the bounded stack's push of `x` returns, and the stack
  -- then holds that push's items.
  pub push-refines :
      {s : Stack T} {q : List T} (x : T)
      → Holds s q
      → (s' : Stack T) × (try_push pops pushes s x ≡ some (s', (push s.capacity q x).1))
        × Holds s' (push s.capacity q x).0
        × (s'.capacity ≡ s.capacity)
  push-refines {s} {q} x h = by_spare h.used h.spare h.layout h.items
    where
      by_spare :
          (used spare : List ℕ)
          → Layout s used spare
          → map s.node_data used ≡ q
          → (s' : Stack T) × (try_push pops pushes s x ≡ some (s', (push s.capacity q x).1))
            × Holds s' (push s.capacity q x).0
            × (s'.capacity ≡ s.capacity)
      by_spare used [] l e =
          let len : length q ≡ length used = ap length (sym e) ∙ length-map s.node_data used in
          let full : ltb (length q) s.capacity ≡ false = ground (arith, l.all_nodes) in
          (
            s,
            push_full s x l.spare_chain ∙ rw full,
            rw full (record { used = used; spare = []; layout = l; items = e }),
            refl,
          )
      by_spare used (i ∷ spare) l e =
          let len : length q ≡ length used = ap length (sym e) ∙ length-map s.node_data used in
          let room : ltb (length q) s.capacity ≡ true = ground (arith, l.all_nodes) in
          let ne : i ≢ max32 = λ f. omega (arith, l.spare_below.0, l.small, f) in
          (
            after_push s x i,
            push_room s x i l.spare_chain.0 ne ∙ rw room,
            rw room (record {
              used = i ∷ used;
              spare = spare;
              layout = after_push-Layout s x i used spare l;
              items =
                  ap₂ ◌∷◌ (update_self s.node_data i x)
                    (map-update s.node_data i x used (Apart-front i used spare l.apart).0 ∙ e);
            }),
            refl,
          )

  pop_empty : (s : Stack T) → (unpack s.head).index ≡ max32 → try_pop pops pushes s ≡ some (s, none)
  unfolding try_pop free_node
  pop_empty s e = rw (pop_index-empty s.node_next s.head pops lucky e, try_pop)

  pop_top :
      (s : Stack T) (i : ℕ)
      → (unpack s.head).index ≡ i
      → i ≢ max32
      → try_pop pops pushes s ≡ some (after_pop s i, some (s.node_data i))
  unfolding try_pop free_node
  pop_top s i e ne = ground (
    arith,
    pop_index_lem s.node_next s.head pops lucky,
    push_index_lem pushes s.node_next s.free_head i lucky',
  )

  -- For a stack that holds `q`, running alone, some compare-exchange of each loop not failing
  -- spuriously: `try_pop` returns what the bounded stack's pop returns, and the stack then holds
  -- that pop's items.
  pub pop-refines :
      {s : Stack T} {q : List T}
      → Holds s q
      → (s' : Stack T) × (try_pop pops pushes s ≡ some (s', (pop q).1))
        × Holds s' (pop q).0
        × (s'.capacity ≡ s.capacity)
  pop-refines {s} {q} h = by_used h.used h.spare h.layout q h.items
    where
      by_used :
          (used spare : List ℕ)
          → Layout s used spare
          → (q : List T) → map s.node_data used ≡ q
          → (s' : Stack T) × (try_pop pops pushes s ≡ some (s', (pop q).1))
            × Holds s' (pop q).0
            × (s'.capacity ≡ s.capacity)
      by_used [] spare l q e = rw (← e) (
        s,
        pop_empty s l.used_chain,
        record { used = []; spare = spare; layout = l; items = refl },
        refl,
      )
      by_used (i ∷ used) spare l q e =
          let ne : i ≢ max32 = λ f. omega (arith, l.used_below.0, l.small, f) in
          rw (← e) (
            after_pop s i,
            pop_top s i l.used_chain.0 ne,
            record {
              used = used;
              spare = i ∷ spare;
              layout = after_pop-Layout s i used spare l;
              items = refl;
            },
            refl,
          )
