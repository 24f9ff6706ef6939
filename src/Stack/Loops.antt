-- ===== src/Stack/Loops.antt =====
-- The two loops of the stack, running alone: what they leave behind.
use lockless_concurrent_fram.Common.{
  ℕ, ◌≡◌, ◌≢◌, ◌∙◌, fun_ext, Bool, true, false, some, List, [], ◌∷◌, may_succeed, ==_refl, update,
  arith,
}
use lockless_concurrent_fram.Common.Words.{add32, max32}
use lockless_concurrent_fram.Stack.{
  pack, unpack, pop_index_loop, pop_index, push_index_loop, push_index,
}

module _ (next : ℕ → ℕ) (target : ℕ) where
  abbrev pub top : ℕ
  top = (unpack target).index

  abbrev pub stamp : ℕ
  stamp = add32 (unpack target).tag 1

  pub pop_index-empty :
      (spurious : List Bool)
      → may_succeed spurious ≡ true
      → top ≡ max32
      → pop_index spurious next target ≡ some (target, max32)
  unfolding pop_index pop_index_loop
  pop_index-empty [] e f = cc
  pop_index-empty (b ∷ rest) e f = ground arith

  pub pop_index_lem :
      (spurious : List Bool)
      → may_succeed spurious ≡ true
      → top ≢ max32
      → pop_index spurious next target ≡ some (pack (next top) stamp, top)
  unfolding pop_index pop_index_loop
  pop_index_lem [] e f = cc
  pop_index_lem (false ∷ rest) e f = ground arith
  pop_index_lem (true ∷ rest) e f = ground (arith, pop_index_lem rest e f)

update_twice : (f : ℕ → ℕ) (i v : ℕ) → update (update f i v) i v ≡ update f i v
update_twice f i v = fun_ext (λ j. ground arith)

pub push_index_lem :
    (spurious : List Bool) (next : ℕ → ℕ) (target node : ℕ)
    → may_succeed spurious ≡ true
    → push_index spurious next target node
      ≡ some (update next node (top next target), pack node (stamp next target))
unfolding push_index push_index_loop
push_index_lem [] next target node e = cc
push_index_lem (false ∷ rest) next target node e = rw (==_refl target)
push_index_lem (true ∷ rest) next target node e =
    push_index_lem rest (update next node (top next target)) target node e
    ∙ rw (update_twice next node (top next target))
