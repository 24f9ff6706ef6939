-- ===== src/Ring/Head.antt =====
-- try_pop and try_pop_batch leave `head_` alone.
use lockless_concurrent_fram.Common.{
  ℕ, zero, suc, ◌+◌, ◌≡◌, refl, sym, subst, Bool, not, ◌&&◌, Option, none, some, inl, inr, List, [],
  ◌∷◌, ◌==◌, Bool-cases,
}
use lockless_concurrent_fram.Common.Words.{sub64, add64, is_negative}
use lockless_concurrent_fram.Ring.{Memory, slot}
use lockless_concurrent_fram.Ring.Calls.{pop_loop, try_pop, try_pop_batch, prepend}

module _ {T : Type 0} (size : ℕ) where
  abbrev HeadIs {ℓ} : {A : Type ℓ} → ℕ → Option (Memory T × A) → Type 0
  HeadIs h none = Unit
  HeadIs h (some (m, _)) = m.head ≡ h

  HeadIs-prepend :
      (h : ℕ) (x : T) (r : Option (Memory T × List T)) → HeadIs h r → HeadIs h (prepend size x r)
  HeadIs-prepend h x none e = tt
  HeadIs-prepend h x (some (m, items)) e = e

  pop_loop-HeadIs :
      (spurious : List Bool) (m : Memory T) (tail : ℕ)
      → HeadIs m.head (pop_loop size spurious m tail)
  unfolding pop_loop
  pop_loop-HeadIs [] m tail = tt
  pop_loop-HeadIs (spurious ∷ rest) m tail =
      let diff = sub64 (m.sequences (slot size tail)) (add64 tail 1) in
      let again = pop_loop-HeadIs rest m m.tail in
      elim (Bool-cases (diff == 0)) [
        | inl e ↦ elim (Bool-cases (not spurious && m.tail == tail)) [
          | inl won ↦ rw (e, won) refl
          | inr lost ↦ rw (e, lost) again
        ]
        | inr ne ↦ elim (Bool-cases (is_negative diff)) [
          | inl below ↦ rw (ne, below) refl
          | inr above ↦ rw (ne, above) again
        ]
      ]

  try_pop_batch-HeadIs :
      (spurious : ℕ → List Bool) (popped count : ℕ) (m : Memory T)
      → HeadIs m.head (try_pop_batch size spurious popped count m)
  unfolding try_pop_batch
  try_pop_batch-HeadIs spurious popped zero m = refl
  try_pop_batch-HeadIs spurious popped (suc count) m =
      by_first (try_pop size (spurious popped) m) refl (pop_loop-HeadIs (spurious popped) m m.tail)
        (λ m'. try_pop_batch-HeadIs spurious (popped + 1) count m')
    where
      by_first :
          (r : Option (Memory T × Option T))
          → try_pop size (spurious popped) m ≡ r
          → HeadIs m.head r
          → ((m' : Memory T) → HeadIs m'.head (try_pop_batch size spurious (popped + 1) count m'))
          → HeadIs m.head (try_pop_batch size spurious popped (suc count) m)
      by_first none e h again =
          let stops : try_pop_batch size spurious popped (suc count) m ≡ none =
            rw (e, try_pop_batch) refl in
          subst (HeadIs m.head) (sym stops) tt
      by_first (some (m', none)) e h again =
          let stops : try_pop_batch size spurious popped (suc count) m ≡ some (m', []) =
            rw (e, try_pop_batch) refl in
          subst (HeadIs m.head) (sym stops) h
      by_first (some (m', some x)) e h again =
          let rest = try_pop_batch size spurious (popped + 1) count m' in
          let goes_on : try_pop_batch size spurious popped (suc count) m ≡ prepend size x rest =
            rw (e, try_pop_batch) refl in
          subst (HeadIs m.head) (sym goes_on)
            (HeadIs-prepend m.head x rest (subst (λ n. HeadIs n rest) h (again m')))

  pub try_pop_batch-head :
      (spurious : ℕ → List Bool) (popped count : ℕ) (m m' : Memory T) (items : List T)
      → try_pop_batch size spurious popped count m ≡ some (m', items)
      → m'.head ≡ m.head
  try_pop_batch-head spurious popped count m m' items e =
      subst (HeadIs m.head) e (try_pop_batch-HeadIs spurious popped count m)
