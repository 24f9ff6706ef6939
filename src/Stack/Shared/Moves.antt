-- ===== src/Stack/Shared/Moves.antt =====
-- The steps that change memory, one by one.
use lockless_concurrent_fram.Common.{
  ℕ, ◌+◌, ◌<◌, ◌≡◌, ◌≢◌, refl, sym, ap, ap₂, ◌∙◌, subst, Option, none, some, List, [], ◌∷◌, update,
  update_ne, arith,
}
use lockless_concurrent_fram.Common.Words.{word32, max32}
use lockless_concurrent_fram.Stack.{Stack, unpack}
use lockless_concurrent_fram.Stack.Chain.{Chain, Chain-update, Chain-top, map-update}
use lockless_concurrent_fram.Stack.Shared.{Pc, bumped}
use lockless_concurrent_fram.Stack.Shared.Nodes.{bumped_lem}
use lockless_concurrent_fram.Stack.Shared.Owners.{swapped, same_owners, taken, given}
use lockless_concurrent_fram.Stack.Shared.Invariant.{owned, Local, Inv}
use lockless_concurrent_fram.Stack.Shared.Frame.{
  Onward, unmoved, moved, linked, locals-Onward, owned-update, owned-same,
}

module _ {T : Type 0} {m : Stack T} {pc : ℕ → Pc T} {contents : List T} {claim : ℕ → Option T}
    {moves : ℕ} {used : List ℕ} where
  -- Only the thread's own place changes.
  pub quiet-Inv :
      {spare : List ℕ} (i : ℕ) (p : Pc T)
      → Inv m pc contents claim moves used spare
      → owned p ≡ owned (pc i)
      → Local m (claim i) p
      → Inv m (update pc i p) contents claim moves used spare
  quiet-Inv i p inv same new = record {
    used_chain = inv.used_chain;
    spare_chain = inv.spare_chain;
    shares = same_owners (λ j. owned (update pc i p j)) (owned-same pc i p same) inv.shares;
    small = inv.small;
    items = inv.items;
    tags = inv.tags;
    room = inv.room;
    locals =
        let o : Onward m pc i m = record {
          heads = unmoved m.head m.node_next;
          frees = unmoved m.free_head m.node_next;
          others = λ j n ne e. (refl, refl);
        } in
        locals-Onward pc claim claim i p o (λ j _. refl) inv.locals new;
  }

  module _ {spare : List ℕ} (inv : Inv m pc contents claim moves used spare) (i n : ℕ)
      (mine : owned (pc i) ≡ some n) where
    other_node : (j k : ℕ) → i ≢ j → owned (pc j) ≡ some k → n ≢ k
    other_node j k ne e f = ne (inv.shares.alone i j n mine (e ∙ ap some (sym f)))

    in_range : n < max32
    in_range = omega (arith, (inv.shares.elsewhere i n mine).0, inv.small)

    -- A thread writes the item into its node.
    pub written-Inv :
        (x : T) (p : Pc T)
        → owned p ≡ some n
        → Local (record m { node_data = update m.node_data n x }) (claim i) p
        → Inv
            (record m { node_data = update m.node_data n x })
            (update pc i p)
            contents
            claim
            moves
            used
            spare
    written-Inv x p own new = record {
      used_chain = inv.used_chain;
      spare_chain = inv.spare_chain;
      shares =
          same_owners (λ j. owned (update pc i p j)) (owned-same pc i p (own ∙ sym mine))
            inv.shares;
      small = inv.small;
      items = map-update m.node_data n x used (inv.shares.elsewhere i n mine).1 ∙ inv.items;
      tags = inv.tags;
      room = inv.room;
      locals =
          let m' : Stack T = record m { node_data = update m.node_data n x } in
          let o : Onward m pc i m' = record {
            heads = unmoved m.head m.node_next;
            frees = unmoved m.free_head m.node_next;
            others = λ j k ne e. (update_ne m.node_data n k x (other_node j k ne e), refl);
          } in
          locals-Onward pc claim claim i p o (λ j _. refl) inv.locals new;
    }

    -- A thread links its node.
    pub linked-Inv :
        (v : ℕ) (p : Pc T)
        → owned p ≡ some n
        → Local (record m { node_next = update m.node_next n v }) (claim i) p
        → Inv
            (record m { node_next = update m.node_next n v })
            (update pc i p)
            contents
            claim
            moves
            used
            spare
    linked-Inv v p own new =
        let (lt, out, out') = inv.shares.elsewhere i n mine in
        record {
          used_chain = Chain-update m.node_next n v (unpack m.head).index used out inv.used_chain;
          spare_chain =
              Chain-update m.node_next n v (unpack m.free_head).index spare out' inv.spare_chain;
          shares =
              same_owners (λ j. owned (update pc i p j)) (owned-same pc i p (own ∙ sym mine))
                inv.shares;
          small = inv.small;
          items = inv.items;
          tags = inv.tags;
          room = inv.room;
          locals =
              let m' : Stack T = record m { node_next = update m.node_next n v } in
              let o : Onward m pc i m' = record {
                heads = linked m.head n v m.node_next used inv.used_chain out in_range;
                frees = linked m.free_head n v m.node_next spare inv.spare_chain out' in_range;
                others = λ j k ne e. (refl, update_ne m.node_next n k v (other_node j k ne e));
              } in
              locals-Onward pc claim claim i p o (λ j _. refl) inv.locals new;
        }

    -- A thread wins `head_` and puts its node on the stack.
    pub pushed-Inv :
        (x : T) (p : Pc T)
        → owned p ≡ none
        → m.node_data n ≡ x
        → m.node_next n ≡ (unpack m.head).index
        → moves + 1 < word32
        → Local (record m { head = bumped n m.head }) (claim i) p
        → Inv
            (record m { head = bumped n m.head })
            (update pc i p)
            (x ∷ contents)
            claim
            (moves + 1)
            (n ∷ used)
            spare
    pushed-Inv x p own d l more new =
        let (at, tag) =
          bumped_lem n m.head (omega (arith, in_range)) (omega (arith, more, inv.tags)) in
        record {
          used_chain = (at, subst (λ h. Chain m.node_next h used) (sym l) inv.used_chain);
          spare_chain = inv.spare_chain;
          shares =
              same_owners (λ j. owned (update pc i p j)) (owned-update pc i p none own)
                (given i n mine inv.shares);
          small = inv.small;
          items = ap₂ ◌∷◌ d inv.items;
          tags = omega (arith, tag, inv.tags);
          room = more;
          locals =
              let m' : Stack T = record m { head = bumped n m.head } in
              let o : Onward m pc i m' = record {
                heads =
                    moved m.head n m.node_next (omega (arith, in_range))
                      (omega (arith, more, inv.tags));
                frees = unmoved m.free_head m.node_next;
                others = λ j k ne e. (refl, refl);
              } in
              locals-Onward pc claim claim i p o (λ j _. refl) inv.locals new;
        }

    -- A thread wins `free_head_` and gives its node back.
    pub freed-Inv :
        (p : Pc T)
        → owned p ≡ none
        → m.node_next n ≡ (unpack m.free_head).index
        → moves + 1 < word32
        → Local (record m { free_head = bumped n m.free_head }) (claim i) p
        → Inv
            (record m { free_head = bumped n m.free_head })
            (update pc i p)
            contents
            claim
            (moves + 1)
            used
            (n ∷ spare)
    freed-Inv p own l more new =
        let (at, tag) =
          bumped_lem n m.free_head (omega (arith, in_range)) (omega (arith, more, inv.tags)) in
        record {
          used_chain = inv.used_chain;
          spare_chain = (at, subst (λ h. Chain m.node_next h spare) (sym l) inv.spare_chain);
          shares =
              same_owners (λ j. owned (update pc i p j)) (owned-update pc i p none own)
                (swapped (given i n mine (swapped inv.shares)));
          small = inv.small;
          items = inv.items;
          tags = omega (arith, tag, inv.tags);
          room = more;
          locals =
              let m' : Stack T = record m { free_head = bumped n m.free_head } in
              let o : Onward m pc i m' = record {
                heads = unmoved m.head m.node_next;
                frees =
                    moved m.free_head n m.node_next (omega (arith, in_range))
                      (omega (arith, more, inv.tags));
                others = λ j k ne e. (refl, refl);
              } in
              locals-Onward pc claim claim i p o (λ j _. refl) inv.locals new;
        }

  -- A thread wins `free_head_` and takes the first free node.
  pub reserved-Inv :
      (spare : List ℕ)
      → Inv m pc contents claim moves used spare
      → (i next : ℕ) (p : Pc T) → owned (pc i) ≡ none
      → owned p ≡ some (unpack m.free_head).index
      → (unpack m.free_head).index ≢ max32
      → m.node_next (unpack m.free_head).index ≡ next
      → moves + 1 < word32
      → Local (record m { free_head = bumped next m.free_head }) (claim i) p
      → (spare' : List ℕ) × Inv
          (record m { free_head = bumped next m.free_head })
          (update pc i p)
          contents
          claim
          (moves + 1)
          used
          spare'
  reserved-Inv [] inv i next p was own some_left l more new = absurd (some_left inv.spare_chain)
  reserved-Inv (k ∷ rest) inv i next p was own some_left l more new =
      let top : (unpack m.free_head).index ≡ k = inv.spare_chain.0 in
      let tail : Chain m.node_next next rest =
        subst (λ h. Chain m.node_next h rest) (ap m.node_next (sym top) ∙ l) inv.spare_chain.1 in
      let small : next < word32 =
        Chain-top m.node_next next m.capacity rest tail inv.shares.below'.1 inv.small in
      let (at, tag) = bumped_lem next m.free_head small (omega (arith, more, inv.tags)) in
      (
        rest,
        record {
          used_chain = inv.used_chain;
          spare_chain = subst (λ h. Chain m.node_next h rest) (sym at) tail;
          shares =
              same_owners (λ j. owned (update pc i p j))
                (owned-update pc i p (some k) (own ∙ ap some top))
                (swapped (taken i k was (swapped inv.shares)));
          small = inv.small;
          items = inv.items;
          tags = omega (arith, tag, inv.tags);
          room = more;
          locals =
              let m' : Stack T = record m { free_head = bumped next m.free_head } in
              let o : Onward m pc i m' = record {
                heads = unmoved m.head m.node_next;
                frees = moved m.free_head next m.node_next small (omega (arith, more, inv.tags));
                others = λ j k ne e. (refl, refl);
              } in
              locals-Onward pc claim claim i p o (λ j _. refl) inv.locals new;
        },
      )
