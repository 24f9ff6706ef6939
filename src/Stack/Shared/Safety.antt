-- ===== src/Stack/Shared/Safety.antt =====
-- What the stack promises under every interleaving of its callers.
use mathlib.Core.List.{map}
use native.Mathlib.Decide.{dec_lt}
use lockless_concurrent_fram.Common.{
  ℕ, ◌≤◌, ◌<◌, ◌≡◌, ◌≢◌, ◌↔◌, ◌⊎◌, inl, inr, sym, ap, subst, Option, none, some, some-injective,
  List, [], ◌∷◌, length, arith,
}
use lockless_concurrent_fram.Common.Words.{word32, max32}
use lockless_concurrent_fram.Stack.{Stack, unpack}
use lockless_concurrent_fram.Stack.Chain.{Chain, NotIn, Distinct, Below}
use lockless_concurrent_fram.Stack.Layout.{length-map}
use lockless_concurrent_fram.Stack.Counting.{length-Distinct}
use lockless_concurrent_fram.Stack.Shared.{
  Pc, push_cas, push_try, pop_cas, pop_try, popped, System, Reach,
}
use lockless_concurrent_fram.Stack.Shared.Nodes.{In, Seen}
use lockless_concurrent_fram.Stack.Shared.Invariant.{owned, Local}
use lockless_concurrent_fram.Stack.Shared.Reachable.{Held-System, Reach-Inv}

-- The two heads, and the word that each of them holds.
pub data Target : Type 0 where
  data_head : Target
  node_pool : Target

newer : (now old : ℕ) → Seen now old → old ≢ now → (unpack old).tag < (unpack now).tag
newer now old seen ne = elim (dec_lt (unpack old).tag (unpack now).tag) [
  | yes lt ↦ lt
  | no ge ↦ absurd (ne (seen.1 (omega (arith, seen.0, ge))))
]

module _ {T : Type 0} where
  abbrev pub word : Stack T → Target → ℕ
  word m data_head = m.head
  word m node_pool = m.free_head

  -- The head that a thread is about to exchange, and the word that it expects there.
  abbrev pub exchange : Pc T → Option (Target × ℕ)
  exchange (push_cas x old n) = some (node_pool, old)
  exchange (push_try x n old) = some (data_head, old)
  exchange (pop_cas old n) = some (data_head, old)
  exchange (pop_try n x old) = some (node_pool, old)
  exchange _ = none

  -- A pop that has returned an item returned the one that it claimed.
  abbrev pub Answers : Option T → Pc T → Type 0
  Answers claim (popped (some x)) = claim ≡ some x
  Answers claim _ = Unit

  Local-Answers : (m : Stack T) (claim : Option T) (p : Pc T) → Local m claim p → Answers claim p
  Local-Answers m claim (popped (some x)) h = h
  Local-Answers m claim p h = ground arith

  expected :
      (m : Stack T) {r q : Target × ℕ} → r ≡ q → Seen (word m r.0) r.1 → Seen (word m q.0) q.1
  expected m e = subst (λ r. Seen (word m r.0) r.1) e

  expected-Seen :
      (m : Stack T) (claim : Option T) (p : Pc T) (target : Target) (old : ℕ)
      → Local m claim p
      → exchange p ≡ some (target, old)
      → Seen (word m target) old
  expected-Seen m claim (push_cas x w n) target old h e = expected m (some-injective e) h.0
  expected-Seen m claim (push_try x n w) target old h e = expected m (some-injective e) h.1
  expected-Seen m claim (pop_cas w n) target old h e = expected m (some-injective e) h.0
  expected-Seen m claim (pop_try n x w) target old h e = expected m (some-injective e) h.1
  expected-Seen m claim p target old h e = ground arith

module _ {T : Type 0} {blank : T} {capacity : ℕ} (pos : 0 < capacity) (small : capacity ≤ max32)
    {s : System T} (r : Reach blank capacity s) (room : s.moves < word32) where
  held : Held-System s
  held = Reach-Inv pos small r room

  -- In every state that threads reach from a new stack of 1 to NULL_INDEX nodes, as long as fewer
  -- than 2 ^ 32 exchanges have won: the nodes linked from `head_` are distinct and hold the
  -- contents of the abstract stack, which changes exactly when an exchange on `head_` wins, by a
  -- push of the item or by a pop; these are at most as many as there are nodes; `head_` has
  -- NULL_INDEX exactly when the abstract stack is empty; and a pop that returned an item returned
  -- what its abstract pop gave.
  pub linearizable :
      ((used : List ℕ) × Chain s.mem.node_next (unpack s.mem.head).index used
        × Distinct used
        × (map s.mem.node_data used ≡ s.contents)
        × (length s.contents ≤ s.mem.capacity))
      × ((unpack s.mem.head).index ≡ max32 ↔ s.contents ≡ [])
      × ((i : ℕ) → Answers (s.claim i) (s.pc i))
  linearizable =
      let (used, spare, inv) = held in
      let fits : length s.contents ≤ s.mem.capacity = omega (
        arith,
        length-Distinct s.mem.capacity used inv.shares.distinct inv.shares.below,
        length-map s.mem.node_data used,
        ap length inv.items,
      ) in
      (
        (used, inv.used_chain, inv.shares.distinct, inv.items, fits),
        by_used used inv.used_chain inv.items inv.shares.below inv.small,
        λ i. Local-Answers s.mem (s.claim i) (s.pc i) (inv.locals i),
      )
    where
      by_used :
          (used : List ℕ)
          → Chain s.mem.node_next (unpack s.mem.head).index used
          → map s.mem.node_data used ≡ s.contents
          → Below s.mem.capacity used
          → s.mem.capacity ≤ max32
          → (unpack s.mem.head).index ≡ max32 ↔ s.contents ≡ []
      by_used [] c e b le = ((λ _. sym e), λ _. c)
      by_used (i ∷ used) c e b le = (
        (λ null. absurd (omega (arith, c.0, null, b.0, le))),
        λ none_left. absurd (ground (arith, e, none_left)),
      )

  -- In every state that threads reach from a new stack of 1 to NULL_INDEX nodes, as long as fewer
  -- than 2 ^ 32 exchanges have won: a node that a thread has taken off a list is in neither list
  -- and with no other thread, and every node is on the stack, in the free list, or with a thread.
  pub one_owner :
      (used : List ℕ) × (spare : List ℕ) × Chain s.mem.node_next (unpack s.mem.head).index used
      × Chain s.mem.node_next (unpack s.mem.free_head).index spare
      × ((i n : ℕ)
          → owned (s.pc i) ≡ some n
          → NotIn n used × NotIn n spare × ((j : ℕ) → owned (s.pc j) ≡ some n → i ≡ j))
      × ((n : ℕ)
          → n < s.mem.capacity
          → In n used ⊎ (In n spare ⊎ ((i : ℕ) × (owned (s.pc i) ≡ some n))))
  one_owner =
      let (used, spare, inv) = held in
      (
        used,
        spare,
        inv.used_chain,
        inv.spare_chain,
        (λ i n e.
            let (lt, out, out') = inv.shares.elsewhere i n e in
            (out, out', λ j f. inv.shares.alone i j n e f)),
        inv.shares.covered,
      )

  -- In every state that threads reach from a new stack of 1 to NULL_INDEX nodes, as long as fewer
  -- than 2 ^ 32 exchanges have won: when `free_head_` has NULL_INDEX, for which `try_push` returns
  -- false, every node is on the stack or with a thread in the middle of a call.
  full_when_none_spare :
      (unpack s.mem.free_head).index ≡ max32
      → (used : List ℕ) × Chain s.mem.node_next (unpack s.mem.head).index used
        × (map s.mem.node_data used ≡ s.contents)
        × ((n : ℕ) → n < s.mem.capacity → In n used ⊎ ((i : ℕ) × (owned (s.pc i) ≡ some n)))
  full_when_none_spare null =
      let (used, spare, inv) = held in
      (
        used,
        inv.used_chain,
        inv.items,
        λ n lt.
            by_spare used spare inv.spare_chain inv.shares.below' inv.small n
              (inv.shares.covered n lt),
      )
    where
      by_spare :
          (used spare : List ℕ)
          → Chain s.mem.node_next (unpack s.mem.free_head).index spare
          → Below s.mem.capacity spare
          → s.mem.capacity ≤ max32
          → (n : ℕ) → In n used ⊎ (In n spare ⊎ ((i : ℕ) × (owned (s.pc i) ≡ some n)))
          → In n used ⊎ ((i : ℕ) × (owned (s.pc i) ≡ some n))
      by_spare used [] c b le n (inl h) = inl h
      by_spare used [] c b le n (inr (inr h)) = inr h
      by_spare used [] c b le n (inr (inl h)) = elim h [ ]
      by_spare used (k ∷ spare) c b le n h = absurd (omega (arith, c.0, null, b.0, le))

  -- In every state that threads reach from a new stack of 1 to NULL_INDEX nodes, as long as fewer
  -- than 2 ^ 32 exchanges have won: when the word that a thread is about to exchange is no longer
  -- the one that it expects, the head's tag is larger than the expected one: other exchanges on
  -- that head have won in the meantime.
  pub failed_for_cause :
      (i : ℕ) (target : Target) (old : ℕ)
      → exchange (s.pc i) ≡ some (target, old)
      → old ≢ word s.mem target
      → (unpack old).tag < (unpack (word s.mem target)).tag
  failed_for_cause i target old e ne =
      let (used, spare, inv) = held in
      newer (word s.mem target) old
        (expected-Seen s.mem (s.claim i) (s.pc i) target old (inv.locals i) e) ne
