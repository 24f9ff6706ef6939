-- ===== src/Epoch/Grace.antt =====
-- What a thread in a critical section can rely on, under every interleaving.
use native.Mathlib.Decide.{dec_lt}
use lockless_concurrent_fram.Common.{
  ℕ, ◌+◌, ◌%◌, ◌≤◌, ◌<◌, ◌≡◌, ◌⊎◌, inl, inr, subst, true, List, [], ◌∷◌, arith,
}
use lockless_concurrent_fram.Common.Words.{max64}
use lockless_concurrent_fram.Epoch.{RetiredNode, swap, num_epochs, System, Reach, IsInside}
use lockless_concurrent_fram.Epoch.Invariant.{Binned, Local}
use lockless_concurrent_fram.Epoch.Reachable.{Reach-Inv}

-- What the deletion of `nodes` by the thread that advanced to epoch `n` means for those inside.
abbrev pub Gone : System → ℕ → List RetiredNode → Type 0
Gone s n [] = Unit
Gone s n (node ∷ nodes) =
    ((n ≤ node.epoch)
      ⊎ ((node.epoch + num_epochs ≤ n) × ((i : ℕ) → IsInside s i → node.epoch < s.entered i)))
    × Gone s n nodes

module _ {s : System} (r : Reach s) (room : s.epochs < max64) where
  -- In every state that threads reach from a new reclaimer, as long as the epoch has advanced
  -- fewer than 2 ^ 64 - 1 times: a thread inside a critical section has its slot, and the global
  -- epoch is the one at which it entered or the next.
  pub lags :
      (i : ℕ)
      → IsInside s i
      → (s.mem.in_use i ≡ true)
        × (s.entered i ≤ s.mem.global_epoch)
        × (s.mem.global_epoch ≤ s.entered i + 1)
  lags i h =
      let v = (Reach-Inv r room).inside i h in
      (ground (arith, (Reach-Inv r room).unused i, h), v.1, v.2)

  Gone-Binned :
      (n : ℕ) (nodes : List RetiredNode)
      → n ≤ s.mem.global_epoch
      → Binned s.mem.global_epoch (n % num_epochs) nodes
      → Gone s n nodes
  Gone-Binned n [] le b = tt
  Gone-Binned n (node ∷ nodes) le b = (
    elim (dec_lt node.epoch n) [
      | no ge ↦ inl (omega (arith, ge))
      | yes lt ↦
          let far : node.epoch + num_epochs ≤ n = omega (arith, b.0, lt) in
          inr (far, λ i h. omega (arith, far, le, (Reach-Inv r room).inside i h))
    ],
    Gone-Binned n nodes le b.2,
  )

  -- In every state that threads reach from a new reclaimer, as long as the epoch has advanced
  -- fewer than 2 ^ 64 - 1 times: when a thread that advanced to epoch `n` is about to swap out its
  -- list, each object in there was retired in epoch `n` or later, after the advance; or it was
  -- retired at least three epochs earlier, and every thread now inside entered in a later epoch
  -- than that.
  pub readers-Gone : (j n : ℕ) → s.pc j ≡ swap n → Gone s n (s.mem.retire_lists (n % num_epochs))
  readers-Gone j n e =
      let inv = Reach-Inv r room in
      Gone-Binned n (s.mem.retire_lists (n % num_epochs))
        (subst (Local s.mem s.entered) e (inv.locals j)) (inv.binned (n % num_epochs))
