-- ===== src/Stack/Shared/Taken.antt =====
-- The invariant of the stack when a pop wins its exchange.
use mathlib.Core.List.{map}
use lockless_concurrent_fram.Common.{
  ℕ, ◌+◌, ◌<◌, ◌≡◌, ◌≢◌, refl, sym, ap, ◌∙◌, subst, Option, none, some, List, [], ◌∷◌, update,
  update_self, update_ne, arith,
}
use lockless_concurrent_fram.Common.Words.{word32, max32}
use lockless_concurrent_fram.Stack.{Stack, unpack}
use lockless_concurrent_fram.Stack.Chain.{Chain, Chain-top}
use lockless_concurrent_fram.Stack.Lifo.{pop}
use lockless_concurrent_fram.Stack.Shared.{Pc, pop_read, bumped}
use lockless_concurrent_fram.Stack.Shared.Nodes.{bumped_lem}
use lockless_concurrent_fram.Stack.Shared.Owners.{same_owners, taken}
use lockless_concurrent_fram.Stack.Shared.Invariant.{owned, Inv}
use lockless_concurrent_fram.Stack.Shared.Frame.{
  Onward, unmoved, moved, locals-Onward, owned-update,
}

-- A thread wins `head_` and takes the top node: the abstract pop.
pub took-Inv :
    {T : Type 0} {m : Stack T} {pc : ℕ → Pc T} {contents : List T} {claim : ℕ → Option T}
    {moves : ℕ} {spare : List ℕ} (used : List ℕ)
    → Inv m pc contents claim moves used spare
    → (i next : ℕ) → owned (pc i) ≡ none
    → (unpack m.head).index ≢ max32
    → m.node_next (unpack m.head).index ≡ next
    → moves + 1 < word32
    → (used' : List ℕ) × Inv
        (record m { head = bumped next m.head })
        (update pc i (pop_read (unpack m.head).index))
        (pop contents).0
        (update claim i (pop contents).1)
        (moves + 1)
        used'
        spare
took-Inv [] inv i next was some_left l more = absurd (some_left inv.used_chain)
took-Inv {T} {m} {pc} {contents} {claim} {moves} {spare} (k ∷ rest) inv i next was some_left l
      more =
    let p : Pc T = pop_read (unpack m.head).index in
    let top : (unpack m.head).index ≡ k = inv.used_chain.0 in
    let tail : Chain m.node_next next rest =
      subst (λ h. Chain m.node_next h rest) (ap m.node_next (sym top) ∙ l) inv.used_chain.1 in
    let small : next < word32 =
      Chain-top m.node_next next m.capacity rest tail inv.shares.below.1 inv.small in
    let (at, tag) = bumped_lem next m.head small (omega (arith, more, inv.tags)) in
    let popped : pop contents ≡ (map m.node_data rest, some (m.node_data k)) =
      ap pop (sym inv.items) in
    (
      rest,
      record {
        used_chain = subst (λ h. Chain m.node_next h rest) (sym at) tail;
        spare_chain = inv.spare_chain;
        shares =
            same_owners (λ j. owned (update pc i p j)) (owned-update pc i p (some k) (ap some top))
              (taken i k was inv.shares);
        small = inv.small;
        items = sym (ap (λ r. r.0) popped);
        tags = omega (arith, tag, inv.tags);
        room = more;
        locals =
            let m' : Stack T = record m { head = bumped next m.head } in
            let o : Onward m pc i m' = record {
              heads = moved m.head next m.node_next small (omega (arith, more, inv.tags));
              frees = unmoved m.free_head m.node_next;
              others = λ j k ne e. (refl, refl);
            } in
            locals-Onward pc claim (update claim i (pop contents).1) i p o
              (λ j ne. update_ne claim i j (pop contents).1 ne) inv.locals
              (update_self claim i (pop contents).1
                ∙ (ap (λ r. r.1) popped ∙ ap (λ n. some (m.node_data n)) (sym top)));
      },
    )
