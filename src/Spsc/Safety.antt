-- ===== src/Spsc/Safety.antt =====
-- What `SPSCQueue` promises to its two threads, under every interleaving.
use native.Mathlib.Nat.{add-mod_right}
use native.Mathlib.Decide.{dec_lt}
use lockless_concurrent_fram.Common.{
  ℕ, ◌+◌, ◌%◌, ◌≤◌, ◌≡◌, ◌≢◌, ◌↔◌, sym, ap, ◌∙◌, subst, Bool, true, false, none, [], ◌∷◌, length,
  take, take-length, arith,
}
use lockless_concurrent_fram.Spsc.{
  Memory, PushPc, PopPc, push_load, push_test, push_write, pushed, pop_load, pop_test, pop_read,
  popped, next_index, capacity, empty, push_step, pop_step, System, Reach,
}
use lockless_concurrent_fram.Spsc.Invariant.{
  IsSize, next_index-mod, mod_apart, PushLocal, PopLocal, Inv,
}
use lockless_concurrent_fram.Spsc.Reachable.{Reach-Inv}
use lockless_concurrent_fram.Spsc.Calls.{
  push_through, pop_through, push_steps, pop_steps, try_push, try_pop,
}

module _ {T : Type 0} (size : ℕ) (ok : IsSize size) {blank : T} {s : System T}
    (r : Reach size blank s) where
  inv : Inv size s.mem s.producer s.consumer s.log s.out
  inv = Reach-Inv size ok r

  -- In every state that the producer and the consumer of a queue reach, the array's size being a
  -- power of two from 2 on: the items taken are the first of those published, in order, and at
  -- most `capacity()` are inside.
  pub fifo :
      (s.out ≡ take (length s.out) s.log)
      × (length s.out ≤ length s.log)
      × (length s.log ≤ length s.out + capacity size)
  unfolding capacity
  fifo = (inv.fifo, inv.out_le, omega (arith, inv.log_lt))

  -- In every state that the producer and the consumer of a queue reach, the array's size being a
  -- power of two from 2 on: a producer about to write and a consumer about to read are not at the
  -- same slot.
  pub no_overlap : (x : T) (h t : ℕ) → s.producer ≡ push_write x h → s.consumer ≡ pop_read t → h ≢ t
  no_overlap x h t p c same =
      let (at_h, room) = subst (PushLocal size s.mem s.log s.out) p inv.push_local in
      let (at_t, some_) = subst (PopLocal size s.mem s.log s.out) c inv.pop_local in
      let e : length s.out % size ≡ length s.log % size =
        sym inv.tail_at ∙ sym at_t ∙ sym same ∙ at_h ∙ inv.head_at in
      omega (arith, mod_apart size ok (length s.out) (length s.log) (omega arith) inv.log_lt e)

  -- The index test for a full queue says what it should, and so does the one for an empty queue.
  full_iff : (next_index size s.mem.head ≡ s.mem.tail) ↔ (length s.log + 1 ≡ length s.out + size)
  full_iff = (
    λ e. elim (dec_lt (length s.log + 1) (length s.out + size)) [
      | yes lt ↦
          let turn : length s.out % size ≡ (length s.log + 1) % size =
            sym inv.tail_at
            ∙ sym e
            ∙ ap (next_index size) inv.head_at
            ∙ next_index-mod size ok (length s.log) in
          absurd (
            omega (
              arith,
              inv.out_le,
              mod_apart size ok (length s.out) (length s.log + 1) (omega (arith, inv.out_le)) lt
                  turn,
            ))
      | no ge ↦ omega (arith, inv.log_lt)
    ],
    λ turn. rw (inv.head_at, inv.tail_at, next_index-mod size ok, turn) (add-mod_right _ _),
  )

  level_iff : (s.mem.tail ≡ s.mem.head) ↔ (length s.out ≡ length s.log)
  level_iff = (
    λ e.
        mod_apart size ok (length s.out) (length s.log) inv.out_le inv.log_lt
          (sym inv.tail_at ∙ e ∙ inv.head_at),
    λ e. rw (inv.head_at, inv.tail_at, e),
  )

  -- In every state that the producer and the consumer of a queue reach, the array's size being a
  -- power of two from 2 on: `try_push` at its load of `tail_` returns false exactly when
  -- `capacity()` items are inside.
  pub push_refused :
      (x : T) (h : ℕ)
      → s.producer ≡ push_test x h
      → ((push_step size s.mem (push_test x h)).1 ≡ pushed false)
        ↔ (length s.log ≡ length s.out + capacity size)
  unfolding push_step capacity
  push_refused x h p =
      let at_h : h ≡ s.mem.head = subst (PushLocal size s.mem s.log s.out) p inv.push_local in
      (
        λ refused. ground (arith, at_h, full_iff.0, ok.two),
        λ full. ground (arith, at_h, full_iff.1, ok.two),
      )

  -- In every state that the producer and the consumer of a queue reach, the array's size being a
  -- power of two from 2 on: `try_pop` at its load of `head_` returns false exactly when every item
  -- that was published has been taken out.
  pub pop_refused :
      (t : ℕ)
      → s.consumer ≡ pop_test t
      → ((pop_step size s.mem (pop_test t)).1 ≡ popped none) ↔ (s.out ≡ s.log)
  unfolding pop_step
  pop_refused t c =
      let at_t : t ≡ s.mem.tail = subst (PopLocal size s.mem s.log s.out) c inv.pop_local in
      (
        λ refused.
            let e : length s.out ≡ length s.log = ground (arith, at_t, level_iff.0) in
            inv.fifo ∙ rw e (take-length s.log),
        λ all. ground (arith, at_t, level_iff.1, ap length all),
      )

  -- In every state that the producer and the consumer of a queue reach, the array's size being a
  -- power of two from 2 on: `empty` is true exactly when every item that was published has been
  -- taken out.
  pub empty_iff : (empty s.mem ≡ true) ↔ (s.out ≡ s.log)
  unfolding empty
  empty_iff = (
    λ e. inv.fifo ∙ rw (level_iff.0 (ground arith)) (take-length s.log),
    λ all. ground (arith, level_iff.1, ap length all),
  )

module _ {T : Type 0} where
  abbrev pub returned : PushPc T → Bool
  returned (pushed _) = true
  returned _ = false

  abbrev pub finished : PopPc T → Bool
  finished (popped _) = true
  finished _ = false

module _ {T : Type 0} (size : ℕ) where
  -- Four steps end a `try_push` and a `try_pop`, whatever memory each of the four steps finds.
  pub wait_free :
      (m₁ m₂ m₃ m₄ : Memory T) (x : T)
      → (returned (push_through size (m₁ ∷ m₂ ∷ m₃ ∷ m₄ ∷ []) (push_load x)) ≡ true)
        × (finished (pop_through size (m₁ ∷ m₂ ∷ m₃ ∷ m₄ ∷ []) pop_load) ≡ true)
  unfolding push_through pop_through push_step pop_step
  wait_free m₁ m₂ m₃ m₄ x = ground arith

  -- Four steps with nothing in between leave the memory and the result of the whole `try_push` and
  -- of the whole `try_pop`.
  pub calls-steps :
      (m : Memory T) (x : T)
      → (push_steps size 4 m (push_load x) ≡ ((try_push size m x).0, pushed (try_push size m x).1))
        × (pop_steps size 4 m pop_load ≡ ((try_pop size m).0, popped (try_pop size m).1))
  unfolding push_steps pop_steps push_step pop_step try_push try_pop
  calls-steps m x = ground arith
