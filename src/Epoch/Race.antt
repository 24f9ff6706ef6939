-- ===== src/Epoch/Race.antt =====
-- `try_advance` swaps the list of the epoch that it has just begun: what is retired in between is
-- deleted at once.
use lockless_concurrent_fram.Common.{
  ℕ, zero, suc, update, update_ne, ◌≡◌, ◌≢◌, ◌<◌, ◌∙◌, IsIn, ◌==◌, if◌then◌else◌, Bool, true, false,
  inl, inr, ap, sym, refl, [], ◌∷◌, arith,
}
use lockless_concurrent_fram.Epoch.{
  RetiredNode, idle, enter_load, retire_load, swap, step, take_slot, System, advance, start, Step,
  call_register, call_enter, call_retire, move, Reach, here, next, IsInside, is_behind,
}

-- Steps of threads other than `i`.
pub data Others (i : ℕ) (s : System) : System → Type 0 where
  none_yet : Others i s s
  one_more : {t u : System} (j : ℕ) → j ≢ i → Others i s t → Step j t u → Others i s u

-- `n` steps of thread `i`.
abbrev pub moves : ℕ → ℕ → System → System
moves zero i s = s
moves (suc n) i s = moves n i (advance i s)

pub moves-Reach : (n i : ℕ) (s : System) → Reach s → Reach (moves n i s)
moves-Reach zero i s r = r
moves-Reach (suc n) i s r = moves-Reach n i (advance i s) (next i r move)

moves-Others : (n i k : ℕ) (s t : System) → i ≢ k → Others k s t → Others k s (moves n i t)
moves-Others zero i k s t ne r = r
moves-Others (suc n) i k s t ne r = moves-Others n i k s (advance i t) ne (one_more i ne r move)

moves-pc : (n i j : ℕ) (s : System) → i ≢ j → (moves n i s).pc j ≡ s.pc j
unfolding advance
moves-pc zero i j s ne = refl
moves-pc (suc n) i j s ne = moves-pc n i j (advance i s) ne ∙ update_ne s.pc i j _ ne

-- Thread 0 takes a slot and enters; thread 1 retires `x` and wins the exchange; thread 2 is about to
-- retire `y`.
module _ (x y : ℕ) where
  abbrev registered : System
  registered = record start { mem = take_slot 0 start.mem }

  abbrev inside : System
  inside = moves 2 0 (record registered { pc = update registered.pc 0 enter_load })

  abbrev won : System
  won = moves 70 1 (record inside { pc = update inside.pc 1 (retire_load x) })

  abbrev pub retiring : System
  retiring = record won { pc = update won.pc 2 (retire_load y) }

  abbrev pub deleted_early : System
  deleted_early = moves 2 1 (moves 2 2 retiring)

  retiring-Reach : Reach retiring
  unfolding advance step start take_slot is_behind
  retiring-Reach =
      next 2
        (moves-Reach 70 1 _ (
          next 1
            (moves-Reach 2 0 _ (
              next 0 (next 0 here (call_register refl refl (omega arith)))
                (call_enter refl refl refl)))
            (call_retire x refl)))
        (call_retire y refl)

  retiring-idle : (j : ℕ) → 2 < j → retiring.pc j ≡ idle
  unfolding start
  retiring-idle j more =
      update_ne won.pc 2 j _ (omega (arith, more))
      ∙ moves-pc 70 1 j (record inside { pc = update inside.pc 1 (retire_load x) })
          (omega (arith, more))
      ∙ update_ne inside.pc 1 j _ (omega (arith, more))
      ∙ moves-pc 2 0 j (record registered { pc = update registered.pc 0 enter_load })
          (omega (arith, more))
      ∙ update_ne registered.pc 0 j _ (omega (arith, more))

  without :
      x ≢ y
      → (here : Bool) (node : RetiredNode)
      → IsIn node (if here then record { ptr = x; epoch = 0 } ∷ [] else [])
      → node.ptr ≢ y
  without ne true node (inl e) f = ne (sym (ap (λ n. n.ptr) e) ∙ f)
  without ne true node (inr out) f = out
  without ne false node h f = h

  -- Only `x` has been retired.
  retiring-without :
      x ≢ y → (k : ℕ) (node : RetiredNode) → IsIn node (retiring.mem.retire_lists k) → node.ptr ≢ y
  unfolding advance step start take_slot is_behind
  retiring-without ne k node h = without ne (0 == k) node h

  -- For any two different objects `x` and `y` there is a reachable state in epoch 1 in which
  -- thread 0 is inside a critical section since epoch 0, thread 1 is about to swap out the list of
  -- epoch 1, thread 2 is about to retire `y`, all others are out of their calls, no list holds
  -- `y`, and nothing was deleted; and from it steps of threads other than 0 alone lead to the
  -- deletion of `y`, with thread 0 still inside, and with `x`, which was retired before, still in
  -- its list.
  pub freed_too_early :
      x ≢ y
      → (s : System) × (t : System) × Reach s
        × (s.mem.global_epoch ≡ 1)
        × (s.mem.local_epoch 0 ≡ 0)
        × (s.pc 0 ≡ idle)
        × (s.pc 1 ≡ swap 1)
        × (s.pc 2 ≡ retire_load y)
        × ((j : ℕ) → 2 < j → s.pc j ≡ idle)
        × ((k : ℕ) (node : RetiredNode) → IsIn node (s.mem.retire_lists k) → node.ptr ≢ y)
        × (s.freed ≡ [])
        × Others 0 s t
        × IsInside t 0
        × (t.freed ≡ y ∷ [])
        × (t.mem.retire_lists 0 ≡ record { ptr = x; epoch = 0 } ∷ [])
  unfolding advance step start take_slot is_behind
  freed_too_early ne = (
    retiring,
    deleted_early,
    retiring-Reach,
    refl,
    refl,
    refl,
    refl,
    refl,
    retiring-idle,
    retiring-without ne,
    refl,
    moves-Others 2 1 0 retiring _ (λ e. omega (arith, e))
        (moves-Others 2 2 0 retiring retiring (λ e. omega (arith, e)) none_yet),
    λ e. omega (arith, e),
    refl,
    refl,
  )
