-- ===== src/Stack/Shared/Frame.antt =====
-- What one thread's step leaves to the others.
use native.Mathlib.Decide.{ℕ_discrete}
use lockless_concurrent_fram.Common.{
  ℕ, ◌+◌, ◌<◌, ◌≡◌, ◌≢◌, refl, sym, ap, ◌∙◌, subst, Option, none, some, List, update, update_self,
  update_ne,
}
use lockless_concurrent_fram.Common.Words.{word32, max32}
use lockless_concurrent_fram.Stack.{Stack, unpack}
use lockless_concurrent_fram.Stack.Chain.{Chain, NotIn}
use lockless_concurrent_fram.Stack.Shared.{
  Pc, idle, push_load, push_next, push_cas, push_write, push_head, push_link, push_try, pushed,
  pop_load, pop_next, pop_cas, pop_read, pop_free, pop_link, pop_try, popped, bumped,
}
use lockless_concurrent_fram.Stack.Shared.Nodes.{Seen, Seen-bumped, top_not}
use lockless_concurrent_fram.Stack.Shared.Invariant.{owned, Local}

-- A head is as it was, or newer than any word that was read; and while it is what a thread has read, so
-- is the link of its node.
pub record Steady (now : ℕ) (next : ℕ → ℕ) (now' : ℕ) (next' : ℕ → ℕ) : Type 0 where
  pub seen : (old : ℕ) → Seen now old → Seen now' old
  pub link :
      (old n : ℕ)
      → Seen now old
      → (unpack old).index ≢ max32
      → (old ≡ now → next (unpack old).index ≡ n)
      → old ≡ now'
      → next' (unpack old).index ≡ n

pub unmoved : (now : ℕ) (next : ℕ → ℕ) → Steady now next now next
unmoved now next = record { seen = λ old s. s; link = λ old n s ne h. h }

pub moved :
    (now node : ℕ) (next : ℕ → ℕ)
    → node < word32
    → (unpack now).tag + 1 < word32
    → Steady now next (bumped node now) next
moved now node next lt room = record {
  seen = λ old s. (Seen-bumped now old node lt room s).0;
  link = λ old n s ne h e. absurd ((Seen-bumped now old node lt room s).1 e);
}

pub linked :
    (now n v : ℕ) (next : ℕ → ℕ) (xs : List ℕ)
    → Chain next (unpack now).index xs
    → NotIn n xs
    → n < max32
    → Steady now next now (update next n v)
linked now n v next xs c out lt = record {
  seen = λ old s. s;
  link = λ old k s ne h e.
      let apart : n ≢ (unpack old).index = λ f.
        top_not next (unpack now).index n xs c out lt (sym (f ∙ ap (λ w. (unpack w).index) e)) in
      update_ne next n (unpack old).index v apart ∙ h e;
}

module _ {T : Type 0} where
  pub record Onward (m : Stack T) (pc : ℕ → Pc T) (i : ℕ) (m' : Stack T) : Type 0 where
    pub heads : Steady m.head m.node_next m'.head m'.node_next
    pub frees : Steady m.free_head m.node_next m'.free_head m'.node_next
    pub others :
        (j n : ℕ)
        → i ≢ j
        → owned (pc j) ≡ some n
        → (m'.node_data n ≡ m.node_data n) × (m'.node_next n ≡ m.node_next n)

  Local-Onward :
      {m m' : Stack T} (pc : ℕ → Pc T) (claim : Option T) (i j : ℕ) (p : Pc T)
      → Onward m pc i m'
      → i ≢ j
      → pc j ≡ p
      → Local m claim p
      → Local m' claim p
  Local-Onward pc claim i j idle o ne e h = tt
  Local-Onward pc claim i j (push_load x) o ne e h = tt
  Local-Onward pc claim i j (push_next x old) o ne e h = o.frees.seen old h
  Local-Onward pc claim i j (push_cas x old n) o ne e h =
      (o.frees.seen old h.0, h.1, o.frees.link old n h.0 h.1 h.2)
  Local-Onward pc claim i j (push_write x n) o ne e h = tt
  Local-Onward pc claim i j (push_head x n) o ne e h = (o.others j n ne (ap owned e)).0 ∙ h
  Local-Onward pc claim i j (push_link x n old) o ne e h =
      ((o.others j n ne (ap owned e)).0 ∙ h.0, o.heads.seen old h.1)
  Local-Onward pc claim i j (push_try x n old) o ne e h =
      let (d, l) = o.others j n ne (ap owned e) in (d ∙ h.0, o.heads.seen old h.1, l ∙ h.2)
  Local-Onward pc claim i j (pushed b) o ne e h = tt
  Local-Onward pc claim i j pop_load o ne e h = tt
  Local-Onward pc claim i j (pop_next old) o ne e h = o.heads.seen old h
  Local-Onward pc claim i j (pop_cas old n) o ne e h =
      (o.heads.seen old h.0, h.1, o.heads.link old n h.0 h.1 h.2)
  Local-Onward pc claim i j (pop_read n) o ne e h =
      h ∙ ap some (sym (o.others j n ne (ap owned e)).0)
  Local-Onward pc claim i j (pop_free n x) o ne e h = h
  Local-Onward pc claim i j (pop_link n x old) o ne e h = (h.0, o.frees.seen old h.1)
  Local-Onward pc claim i j (pop_try n x old) o ne e h =
      (h.0, o.frees.seen old h.1, (o.others j n ne (ap owned e)).1 ∙ h.2)
  Local-Onward pc claim i j (popped none) o ne e h = tt
  Local-Onward pc claim i j (popped (some x)) o ne e h = h

  -- What all threads know, after a step of thread `i`.
  pub locals-Onward :
      {m m' : Stack T} (pc : ℕ → Pc T) (claim claim' : ℕ → Option T) (i : ℕ) (p : Pc T)
      → Onward m pc i m'
      → ((j : ℕ) → i ≢ j → claim' j ≡ claim j)
      → ((j : ℕ) → Local m (claim j) (pc j))
      → Local m' (claim' i) p
      → (j : ℕ) → Local m' (claim' j) (update pc i p j)
  locals-Onward {m' = m'} pc claim claim' i p o same h new j = elim (ℕ_discrete i j) [
    | yes e ↦
        subst (λ j. Local m' (claim' j) (update pc i p j)) e
          (subst (Local m' (claim' i)) (sym (update_self pc i p)) new)
    | no ne ↦
        subst (λ q. Local m' (claim' j) q) (sym (update_ne pc i j p ne))
          (subst (λ c. Local m' c (pc j)) (sym (same j ne))
            (Local-Onward pc (claim j) i j (pc j) o ne refl (h j)))
  ]

  -- Who owns what, after thread `i` has come to `p`.
  pub owned-update :
      (pc : ℕ → Pc T) (i : ℕ) (p : Pc T) (o : Option ℕ)
      → owned p ≡ o
      → (j : ℕ) → owned (update pc i p j) ≡ update (λ j. owned (pc j)) i o j
  owned-update pc i p o e j = elim (ℕ_discrete i j) [
    | yes eq ↦
        subst (λ j. owned (update pc i p j) ≡ update (λ j. owned (pc j)) i o j) eq
          (ap owned (update_self pc i p) ∙ (e ∙ sym (update_self (λ j. owned (pc j)) i o)))
    | no ne ↦ ap owned (update_ne pc i j p ne) ∙ sym (update_ne (λ j. owned (pc j)) i j o ne)
  ]

  pub owned-same :
      (pc : ℕ → Pc T) (i : ℕ) (p : Pc T)
      → owned p ≡ owned (pc i)
      → (j : ℕ) → owned (update pc i p j) ≡ owned (pc j)
  owned-same pc i p e j = elim (ℕ_discrete i j) [
    | yes eq ↦
        subst (λ j. owned (update pc i p j) ≡ owned (pc j)) eq (ap owned (update_self pc i p) ∙ e)
    | no ne ↦ ap owned (update_ne pc i j p ne)
  ]
