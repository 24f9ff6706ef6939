-- ===== src/Ring/Solo.antt =====
-- The loops of `Ring.Calls` are runs of the steps: one thread, with no other thread at work.
use lockless_concurrent_fram.Common.{
  ℕ, ◌≡◌, refl, Bool, true, false, not, ◌&&◌, Option, none, some, inl, inr, List, [], ◌∷◌, arith,
  ◌==◌, Bool-cases,
}
use lockless_concurrent_fram.Common.Words.{add64, sub64, is_negative}
use lockless_concurrent_fram.Ring.{
  Memory, Pc, push_load, push_seq, push_cas, push_write, pushed, pop_load, pop_seq, pop_cas,
  pop_read, popped, slot, step,
}
use lockless_concurrent_fram.Ring.Calls.{
  pushed_at, popped_at, push_loop, try_push, pop_loop, try_pop,
}

module _ {T : Type 0} (size : ℕ) where
  -- One thread runs on from `m` and `p`.
  pub data Run (m' : Memory T) (p' : Pc T) : Memory T → Pc T → Type 0 where
    stop : Run m' p' m' p'
    go :
        {m : Memory T} {p : Pc T} (spurious : Bool)
        → Run m' p' (step size spurious m p).0 (step size spurious m p).1
        → Run m' p' m p

  go_to :
      {m m' : Memory T} {p p' : Pc T} (spurious : Bool) (m₁ : Memory T) (p₁ : Pc T)
      → (step size spurious m p).0 ≡ m₁
      → (step size spurious m p).1 ≡ p₁
      → Run m' p' m₁ p₁
      → Run m' p' m p
  go_to spurious m₁ p₁ e f run = go spurious (rw (e, f) run)

  module _ (m : Memory T) (x : T) (h : ℕ) where
    abbrev push_diff : ℕ
    push_diff = sub64 (m.sequences (slot size h)) h

    push_win :
        (push_diff == 0) ≡ true
        → (m.head == h) ≡ true
        → Run (pushed_at size m x h) (pushed true) m (push_seq x h)
    unfolding step
    push_win z same =
        let m₁ : Memory T = record m { head = add64 h 1 } in
        go_to false m (push_cas x h) refl (rw z)
          (go_to false m₁ (push_write x h) (rw same) (rw same) (go false (go false stop)))

    push_retry :
        (spurious : Bool) {m' : Memory T} {p' : Pc T}
        → (push_diff == 0) ≡ true
        → (not spurious && m.head == h) ≡ false
        → Run m' p' m (push_seq x m.head)
        → Run m' p' m (push_seq x h)
    unfolding step
    push_retry true z lost run = go_to false m (push_cas x h) refl (rw z) (go true run)
    push_retry false z lost run =
        go_to false m (push_cas x h) refl (rw z)
          (go_to false m (push_seq x m.head) (rw lost) (rw lost) run)

  push_loop-Run :
      (spurious : List Bool) (m : Memory T) (x : T) (h : ℕ) (m' : Memory T) (r : Bool)
      → push_loop size spurious m x h ≡ some (m', r)
      → Run m' (pushed r) m (push_seq x h)
  unfolding push_loop step
  push_loop-Run [] m x h m' r e = cc
  push_loop-Run (b ∷ rest) m x h m' r e =
      let d : ℕ = sub64 (m.sequences (slot size h)) h in
      let again = push_loop-Run rest m x m.head m' r in
      elim (Bool-cases (d == 0)) [
        | inl z ↦ elim (Bool-cases (not b && m.head == h)) [
          | inl won ↦
              let same : (m.head == h) ≡ true = ground arith in
              let out : (m' ≡ pushed_at size m x h) × (r ≡ true) = ground arith in
              rw (out.0, out.1) (push_win m x h z same)
          | inr lost ↦ push_retry m x h b z lost (again (ground arith))
        ]
        | inr other ↦ elim (Bool-cases (is_negative d)) [
          | inl neg ↦
              let out : (m' ≡ m) × (r ≡ false) = ground arith in
              rw (out.0, out.1) (go_to false m (pushed false) refl (rw (other, neg)) stop)
          | inr pos ↦
              go_to false m (push_load x) refl (rw (other, pos)) (go false (again (ground arith)))
        ]
      ]

  -- Whatever `try_push` returns, the steps of one thread reach, with the same memory and result.
  pub try_push-Run :
      (spurious : List Bool) (m : Memory T) (x : T) (m' : Memory T) (r : Bool)
      → try_push size spurious m x ≡ some (m', r)
      → Run m' (pushed r) m (push_load x)
  unfolding try_push step
  try_push-Run spurious m x m' r e = go false (push_loop-Run spurious m x m.head m' r e)

  module _ (m : Memory T) (t : ℕ) where
    abbrev pop_diff : ℕ
    pop_diff = sub64 (m.sequences (slot size t)) (add64 t 1)

    pop_win :
        (pop_diff == 0) ≡ true
        → (m.tail == t) ≡ true
        → Run (popped_at size m t) (popped (some (m.buffer (slot size t)))) m (pop_seq t)
    unfolding step
    pop_win z same =
        let m₁ : Memory T = record m { tail = add64 t 1 } in
        go_to false m (pop_cas t) refl (rw z)
          (go_to false m₁ (pop_read t) (rw same) (rw same) (go false (go false stop)))

    pop_retry :
        (spurious : Bool) {m' : Memory T} {p' : Pc T}
        → (pop_diff == 0) ≡ true
        → (not spurious && m.tail == t) ≡ false
        → Run m' p' m (pop_seq m.tail)
        → Run m' p' m (pop_seq t)
    unfolding step
    pop_retry true z lost run = go_to false m (pop_cas t) refl (rw z) (go true run)
    pop_retry false z lost run =
        go_to false m (pop_cas t) refl (rw z)
          (go_to false m (pop_seq m.tail) (rw lost) (rw lost) run)

  pop_loop-Run :
      (spurious : List Bool) (m : Memory T) (t : ℕ) (m' : Memory T) (r : Option T)
      → pop_loop size spurious m t ≡ some (m', r)
      → Run m' (popped r) m (pop_seq t)
  unfolding pop_loop step
  pop_loop-Run [] m t m' r e = cc
  pop_loop-Run (b ∷ rest) m t m' r e =
      let d : ℕ = sub64 (m.sequences (slot size t)) (add64 t 1) in
      let again = pop_loop-Run rest m m.tail m' r in
      elim (Bool-cases (d == 0)) [
        | inl z ↦ elim (Bool-cases (not b && m.tail == t)) [
          | inl won ↦
              let same : (m.tail == t) ≡ true = ground arith in
              let out : (m' ≡ popped_at size m t) × (r ≡ some (m.buffer (slot size t))) =
                ground arith in
              rw (out.0, out.1) (pop_win m t z same)
          | inr lost ↦ pop_retry m t b z lost (again (ground arith))
        ]
        | inr other ↦ elim (Bool-cases (is_negative d)) [
          | inl neg ↦
              let out : (m' ≡ m) × (r ≡ none) = ground arith in
              rw (out.0, out.1) (go_to false m (popped none) refl (rw (other, neg)) stop)
          | inr pos ↦
              go_to false m pop_load refl (rw (other, pos)) (go false (again (ground arith)))
        ]
      ]

  -- Whatever `try_pop` returns, the steps of one thread reach, with the same memory and result.
  pub try_pop-Run :
      (spurious : List Bool) (m : Memory T) (m' : Memory T) (r : Option T)
      → try_pop size spurious m ≡ some (m', r)
      → Run m' (popped r) m pop_load
  unfolding try_pop step
  try_pop-Run spurious m m' r e = go false (pop_loop-Run spurious m m.tail m' r e)

  -- Whatever `try_push` and `try_pop` return when they run alone, the steps of one thread reach,
  -- with the same memory and result.
  calls-Run :
      (spurious : List Bool) (m m' m'' : Memory T) (x : T) (pushed_ok : Bool) (item : Option T)
      → try_push size spurious m x ≡ some (m', pushed_ok)
      → try_pop size spurious m ≡ some (m'', item)
      → Run m' (pushed pushed_ok) m (push_load x) × Run m'' (popped item) m pop_load
  calls-Run spurious m m' m'' x pushed_ok item e f =
      (try_push-Run spurious m x m' pushed_ok e, try_pop-Run spurious m m'' item f)
