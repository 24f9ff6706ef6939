-- ===== src/Pool/Shared/Invariant.antt =====
-- What holds of the pool and its threads between any two shared accesses.
use native.Mathlib.Decide.{ℕ_discrete}
use lockless_concurrent_fram.Common.{
  ℕ, ◌+◌, ◌≤◌, ◌<◌, ◌≡◌, ◌≢◌, ◌⊎◌, inl, inr, refl, sym, ap, ◌∙◌, subst, Bool, true, false, not,
  ◌&&◌, Bool-cases, Option, none, some, List, [], ◌∷◌, ◌++◌, ◌==◌, update, update_self, update_ne,
  arith,
}
use lockless_concurrent_fram.Common.Words.{max32}
use lockless_concurrent_fram.Stack.{Stack, unpack}
use lockless_concurrent_fram.Stack.Chain.{Distinct}
use lockless_concurrent_fram.Stack.Shared.{
  Pc, push_load, push_next, push_cas, pushed, step, is_ready,
}
use lockless_concurrent_fram.Stack.Shared.Nodes.{In}
use lockless_concurrent_fram.Stack.Shared.Invariant.{owned}
use lockless_concurrent_fram.Pool.Shared.{
  Call, resting, filling, acquiring, releasing, System, released_index,
}
use lockless_concurrent_fram.Pool.Shared.Split.{
  Split, NotIn-In, In-NotIn, same_owns, put_back, taken_out,
}
use lockless_concurrent_fram.Pool.Shared.Passage.{passing, Effect, kept, put_in, took_out}

-- What a thread has: the object that its call carries, and those that it holds.
abbrev pub carried : Call → Pc ℕ → Option ℕ → List ℕ
carried resting p claim = []
carried filling p claim = passing p claim
carried acquiring p claim = passing p claim
carried releasing p claim = passing p claim

abbrev pub owns : (ℕ → Call) → (ℕ → Pc ℕ) → (ℕ → Option ℕ) → (ℕ → List ℕ) → ℕ → List ℕ
owns call pc claim held u = carried (call u) (pc u) (claim u) ++ held u

-- Where the stack stands for a thread: between calls it is ready; a push has found a free node, and
-- has not been refused.
pub record Fits (c : Call) (p : Pc ℕ) : Type 0 where
  pub rested : c ≡ resting → is_ready p ≡ true
  pub stocked : (x old : ℕ) → c ≢ resting → p ≡ push_next x old → (unpack old).index ≢ max32
  pub granted : c ≢ resting → p ≢ pushed false

pub record Inv (capacity : ℕ) (s : System) : Type 0 where
  pub split : Split (owns s.call s.stack.pc s.stack.claim s.held) s.filled s.stack.contents
  pub few : s.filled ≤ capacity
  pub same_capacity : s.stack.mem.capacity ≡ capacity
  pub places : (u : ℕ) → Fits (s.call u) (s.stack.pc u)

pub carried_busy :
    (c : Call) (p : Pc ℕ) (claim : Option ℕ) → c ≢ resting → carried c p claim ≡ passing p claim
carried_busy resting p claim ne = absurd (ne refl)
carried_busy filling p claim ne = refl
carried_busy acquiring p claim ne = refl
carried_busy releasing p claim ne = refl

pub Call-cases : (c : Call) → (c ≡ resting) ⊎ (c ≢ resting)
Call-cases resting = inl refl
Call-cases filling = inr (λ e. cc)
Call-cases acquiring = inr (λ e. cc)
Call-cases releasing = inr (λ e. cc)

-- Two functions that agree except at `u`.
abbrev pub Off {ℓ} : {A : Type ℓ} → ℕ → (ℕ → A) → (ℕ → A) → Type ℓ
Off u f g = (w : ℕ) → u ≢ w → f w ≡ g w

pub Off-update {ℓ} : {A : Type ℓ} (f : ℕ → A) (u : ℕ) (a : A) → Off u (update f u a) f
Off-update f u a w ne = update_ne f u w a ne

pub Off-same {ℓ} : {A : Type ℓ} (f : ℕ → A) (u : ℕ) → Off u f f
Off-same f u w ne = refl

-- What the threads have after a step of thread `u`.
pub owns-update :
    (u : ℕ) (call call' : ℕ → Call) (pc pc' : ℕ → Pc ℕ) (claim claim' : ℕ → Option ℕ)
    (held held' : ℕ → List ℕ) (xs : List ℕ)
    → Off u call' call
    → Off u pc' pc
    → Off u claim' claim
    → Off u held' held
    → owns call' pc' claim' held' u ≡ xs
    → (w : ℕ) → owns call' pc' claim' held' w ≡ update (owns call pc claim held) u xs w
owns-update u call call' pc pc' claim claim' held held' xs c p k h e w = elim (ℕ_discrete u w) [
  | yes same ↦
      subst (λ w. owns call' pc' claim' held' w ≡ update (owns call pc claim held) u xs w) same
        (e ∙ sym (update_self (owns call pc claim held) u xs))
  | no ne ↦
      rw (c w ne, p w ne, k w ne, h w ne) (sym (update_ne (owns call pc claim held) u w xs ne))
]

-- Nothing changes hands.
pub update-same :
    (f : ℕ → List ℕ) (u : ℕ) (xs : List ℕ) → f u ≡ xs → (w : ℕ) → update f u xs w ≡ f w
update-same f u xs e w = elim (ℕ_discrete u w) [
  | yes same ↦ subst (λ w. update f u xs w ≡ f w) same (update_self f u xs ∙ sym e)
  | no ne ↦ update_ne f u w xs ne
]

pub Effect-Split :
    {q carried q' carried' : List ℕ} {own : ℕ → List ℕ} {n : ℕ} (u : ℕ) (held : List ℕ)
    → Effect q carried q' carried'
    → own u ≡ carried ++ held
    → Split own n q
    → Split (update own u (carried' ++ held)) n q'
Effect-Split {own = own} u held kept e s = same_owns s _ (update-same own u _ e)
Effect-Split {own = own} u held (put_in x f) e s = put_back s u x held (e ∙ ap (λ xs. xs ++ held) f)
Effect-Split {own = own} {n = n} u held (took_out x rest f g) e s =
    let mine : own u ≡ held = e ∙ ap (λ xs. xs ++ held) g in
    subst (λ xs. Split (update own u (x ∷ xs)) n rest) mine
      (taken_out u x rest (subst (Split own n) f s))

-- An object in the middle of a list, put in front.
pub In-front :
    (i j : ℕ) (before after : List ℕ) → In j (before ++ i ∷ after) → In j (i ∷ before ++ after)
In-front i j [] after h = h
In-front i j (k ∷ before) after (inl e) = inr (inl e)
In-front i j (k ∷ before) after (inr h) = elim (In-front i j before after h) [
  | inl e ↦ inl e
  | inr h ↦ inr (inr h)
]

pub In-middle :
    (i j : ℕ) (before after : List ℕ) → In j (i ∷ before ++ after) → In j (before ++ i ∷ after)
In-middle i j [] after h = h
In-middle i j (k ∷ before) after (inl e) = inr (In-middle i j before after (inl e))
In-middle i j (k ∷ before) after (inr (inl e)) = inl e
In-middle i j (k ∷ before) after (inr (inr h)) = inr (In-middle i j before after (inr h))

pub Distinct-front :
    (i : ℕ) (before after : List ℕ)
    → Distinct (before ++ i ∷ after)
    → Distinct (i ∷ before ++ after)
Distinct-front i [] after d = d
Distinct-front i (k ∷ before) after d =
    let rest = Distinct-front i before after d.1 in
    let out : ¬ In k (before ++ i ∷ after) = NotIn-In k (before ++ i ∷ after) d.0 in
    (
      ((λ e. out (In-middle i k before after (inl (sym e)))), rest.0),
      (In-NotIn k (before ++ after) (λ h. out (In-middle i k before after (inr h))), rest.1),
    )

-- The index of an object of the pool.
pub released_index_lem :
    (base capacity i : ℕ)
    → i < capacity
    → capacity ≤ max32
    → released_index base capacity (base + i) ≡ some i
unfolding released_index
released_index_lem base capacity i lt small = ground (arith, lt, small)

-- Where a push can stand before it has a node.
pub stocked_step :
    (m : Stack ℕ) (b : Bool) (p : Pc ℕ) (claim : Option ℕ) (x old : ℕ)
    → ((y : ℕ) → owned p ≡ none → passing p claim ≡ y ∷ [] → (unpack m.free_head).index ≢ max32)
    → (step b m p).1 ≡ push_next x old
    → (unpack old).index ≢ max32
unfolding step
stocked_step m b (push_load y) claim x old spare e =
    subst (λ old. (unpack old).index ≢ max32) (ground (arith, e)) (spare y refl refl)
stocked_step m b (push_cas y w next) claim x old spare e =
    elim (Bool-cases (not b && m.free_head == w)) [
      | inl won ↦ absurd (ground (arith, e, won))
      | inr lost ↦
          subst (λ old. (unpack old).index ≢ max32) (ground (arith, e, lost)) (spare y refl refl)
    ]
stocked_step m b p claim x old spare e = ground (arith, e)

pub granted_step :
    (m : Stack ℕ) (b : Bool) (p : Pc ℕ)
    → ((x old : ℕ) → p ≡ push_next x old → (unpack old).index ≢ max32)
    → p ≢ pushed false
    → (step b m p).1 ≢ pushed false
unfolding step
granted_step m b (push_next x old) stocked ne e = ground (arith, e, stocked x old refl)
granted_step m b (pushed r) stocked ne e = ne e
granted_step m b p stocked ne e = ground (arith, e)
