-- ===== src/Stack/Shared.antt =====
-- include/lockless/array_stack.hpp: the stack with many threads at work. A call of try_push or try_pop
-- is a sequence of steps with one shared access each, and threads interleave step by step.
pub mod Nodes
pub mod Owners
pub mod Invariant
pub mod Frame
pub mod Moves
pub mod Taken
pub mod Reachable
pub mod Safety
mod Tests
use lockless_concurrent_fram.Common.{
  ℕ, ◌+◌, ◌≡◌, Bool, true, false, not, ◌&&◌, Option, none, some, List, [], ◌∷◌, ◌==◌, if◌then◌else◌,
  update,
}
use lockless_concurrent_fram.Common.Words.{add32}
use lockless_concurrent_fram.Stack.{Head, Stack, pack, unpack, null_index, init}
use lockless_concurrent_fram.Stack.Lifo.{pop}

-- Where a thread stands in `try_push` or `try_pop`, with the locals that are live there.
pub data Pc (T : Type 0) : Type 0 where
  idle : Pc T
  push_load : (item : T) → Pc T  -- pop_index(free_head_), before the load of the head
  push_next : (item : T) (old : ℕ) → Pc T  -- top of the loop, before next.load
  push_cas : (item : T) (old next : ℕ) → Pc T  -- before the compare-exchange
  push_write : (item : T) (node : ℕ) → Pc T  -- before nodes_[node_idx].data = value
  push_head : (item : T) (node : ℕ) → Pc T  -- push_index(head_, node_idx), before the load
  push_link : (item : T) (node old : ℕ) → Pc T  -- top of the loop, before next.store
  push_try : (item : T) (node old : ℕ) → Pc T  -- before the compare-exchange
  pushed : (result : Bool) → Pc T
  pop_load : Pc T  -- pop_index(head_), before the load of the head
  pop_next : (old : ℕ) → Pc T
  pop_cas : (old next : ℕ) → Pc T
  pop_read : (node : ℕ) → Pc T  -- before result = nodes_[node_idx].data
  pop_free : (node : ℕ) (item : T) → Pc T  -- push_index(free_head_, node_idx), before the load
  pop_link : (node : ℕ) (item : T) (old : ℕ) → Pc T
  pop_try : (node : ℕ) (item : T) (old : ℕ) → Pc T
  popped : (result : Option T) → Pc T  -- `none` is the return of false

-- What a step means for the stack: a compare-exchange that wins takes a node off the free list or
-- puts it back, or puts the item on the stack, or takes the top item off.
pub data Event (T : Type 0) : Type 0 where
  silent : Event T
  freed : Event T
  put : (item : T) → Event T
  took : Event T

-- The word of a head after a win: `node` on top, and the next tag.
unfoldable pub bumped : ℕ → ℕ → ℕ
bumped node old = pack node (add32 (unpack old).tag 1)

module _ {T : Type 0} where
  -- One step of one thread. A weak compare-exchange may fail although the words agree: `spurious`.
  unfoldable pub step : Bool → Stack T → Pc T → Stack T × Pc T × Event T
  step spurious m idle = (m, idle, silent)
  step spurious m (push_load x) = (m, push_next x m.free_head, silent)
  step spurious m (push_next x old) = (
    m,
    if (unpack old).index == null_index
        then pushed false
        else push_cas x old (m.node_next (unpack old).index),
    silent,
  )
  step spurious m (push_cas x old next) =
      if not spurious && m.free_head == old
      then (record m { free_head = bumped next old }, push_write x (unpack old).index, freed)
      else (m, push_next x m.free_head, silent)
  step spurious m (push_write x node) =
      (record m { node_data = update m.node_data node x }, push_head x node, silent)
  step spurious m (push_head x node) = (m, push_link x node m.head, silent)
  step spurious m (push_link x node old) = (
    record m { node_next = update m.node_next node (unpack old).index },
    push_try x node old,
    silent,
  )
  step spurious m (push_try x node old) =
      if not spurious && m.head == old
      then (record m { head = bumped node old }, pushed true, put x)
      else (m, push_link x node m.head, silent)
  step spurious m (pushed b) = (m, pushed b, silent)
  step spurious m pop_load = (m, pop_next m.head, silent)
  step spurious m (pop_next old) = (
    m,
    if (unpack old).index == null_index
        then popped none
        else pop_cas old (m.node_next (unpack old).index),
    silent,
  )
  step spurious m (pop_cas old next) =
      if not spurious && m.head == old
      then (record m { head = bumped next old }, pop_read (unpack old).index, took)
      else (m, pop_next m.head, silent)
  step spurious m (pop_read node) = (m, pop_free node (m.node_data node), silent)
  step spurious m (pop_free node x) = (m, pop_link node x m.free_head, silent)
  step spurious m (pop_link node x old) = (
    record m { node_next = update m.node_next node (unpack old).index },
    pop_try node x old,
    silent,
  )
  step spurious m (pop_try node x old) =
      if not spurious && m.free_head == old
      then (record m { free_head = bumped node old }, popped (some x), freed)
      else (m, pop_link node x m.free_head, silent)
  step spurious m (popped r) = (m, popped r, silent)

-- A thread may make its next call.
abbrev pub is_ready : {T : Type 0} → Pc T → Bool
is_ready idle = true
is_ready (pushed _) = true
is_ready (popped _) = true
is_ready _ = false

-- All threads over one stack. The program does not keep the rest: `contents` is the abstract stack,
-- on which a push or a pop happens when its exchange on `head_` wins, `claim` is what the last such
-- pop of a thread gave, and `moves` counts the exchanges that won.
pub record System (T : Type 0) : Type 0 where
  pub mem : Stack T
  pub pc : ℕ → Pc T
  pub contents : List T
  pub claim : ℕ → Option T
  pub moves : ℕ

module _ {T : Type 0} where
  abbrev pub contents_after : Event T → List T → List T
  contents_after (put x) q = x ∷ q
  contents_after took q = (pop q).0
  contents_after _ q = q

  abbrev pub claim_after : ℕ → Event T → List T → (ℕ → Option T) → ℕ → Option T
  claim_after i took q claim = update claim i (pop q).1
  claim_after i _ q claim = claim

  abbrev pub moves_after : Event T → ℕ → ℕ
  moves_after silent n = n
  moves_after _ n = n + 1

  -- Thread `i` makes one step.
  unfoldable pub advance : ℕ → Bool → System T → System T
  advance i spurious s =
      let (m, p, e) = step spurious s.mem (s.pc i) in
      record {
        mem = m;
        pc = update s.pc i p;
        contents = contents_after e s.contents;
        claim = claim_after i e s.contents s.claim;
        moves = moves_after e s.moves;
      }

  unfoldable pub start : T → ℕ → System T
  start blank capacity = record {
    mem = init blank capacity;
    pc = λ _. idle;
    contents = [];
    claim = λ _. none;
    moves = 0;
  }

  pub data Step (s : System T) : System T → Type 0 where
    call_push :
        (i : ℕ) (x : T)
        → is_ready (s.pc i) ≡ true
        → Step s (record s { pc = update s.pc i (push_load x) })
    call_pop :
        (i : ℕ) → is_ready (s.pc i) ≡ true → Step s (record s { pc = update s.pc i pop_load })
    move : (i : ℕ) (spurious : Bool) → Step s (advance i spurious s)

  pub data Reach (blank : T) (capacity : ℕ) : System T → Type 0 where
    here : Reach blank capacity (start blank capacity)
    next : {s t : System T} → Reach blank capacity s → Step s t → Reach blank capacity t
