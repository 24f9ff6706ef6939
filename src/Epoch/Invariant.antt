-- ===== src/Epoch/Invariant.antt =====
-- What holds of `EpochReclaimer` and its threads between any two shared accesses.
use native.Mathlib.Decide.{ℕ_discrete}
use lockless_concurrent_fram.Common.{
  ℕ, ◌+◌, ◌%◌, ◌≤◌, ◌<◌, ◌≡◌, ◌≢◌, ◌∙◌, subst, Bool, true, false, List, [], ◌∷◌, ◌++◌, update,
  update_self, update_ne, update_all, arith,
}
use lockless_concurrent_fram.Common.Words.{max64}
use lockless_concurrent_fram.Epoch.{
  RetiredNode, Memory, Pc, idle, enter_load, enter_store, retire_load, retire_push, advance_load,
  scan_use, scan_epoch, cas, swap, delete, max_threads, num_epochs,
}

-- A thread that advances from `c` has passed the slots below `k`: whoever is inside there entered at
-- epoch `c` or later.
abbrev pub Passed : Memory → (ℕ → ℕ) → ℕ → ℕ → Type 0
Passed m entered k c = (i : ℕ) → i < k → m.local_epoch i ≢ max64 → c ≤ entered i

abbrev pub Local : Memory → (ℕ → ℕ) → Pc → Type 0
Local m entered (enter_store epoch) = epoch ≤ m.global_epoch
Local m entered (retire_push ptr epoch) = epoch ≤ m.global_epoch
Local m entered (scan_use k c) = (c ≤ m.global_epoch) × Passed m entered k c
Local m entered (scan_epoch k c) = (c ≤ m.global_epoch) × Passed m entered k c
Local m entered (cas c) = (c ≤ m.global_epoch) × Passed m entered max_threads c
Local m entered (swap n) = n ≤ m.global_epoch
Local m entered _ = Unit

-- The objects of list `k` were retired in epochs that go there.
abbrev pub Binned : ℕ → ℕ → List RetiredNode → Type 0
Binned g k [] = Unit
Binned g k (node ∷ nodes) = (node.epoch % num_epochs ≡ k) × (node.epoch ≤ g) × Binned g k nodes

abbrev pub is_entering : Pc → Bool
is_entering enter_load = true
is_entering (enter_store _) = true
is_entering _ = false

pub record Inv (m : Memory) (pc : ℕ → Pc) (entered : ℕ → ℕ) (epochs : ℕ) : Type 0 where
  pub counted : m.global_epoch ≡ epochs
  pub room : epochs < max64
  pub unused : (i : ℕ) → m.in_use i ≡ false → m.local_epoch i ≡ max64
  pub few : (i : ℕ) → m.in_use i ≡ true → i < max_threads
  pub entering : (i : ℕ) → is_entering (pc i) ≡ true → m.in_use i ≡ true
  pub inside :
      (i : ℕ)
      → m.local_epoch i ≢ max64
      → (m.local_epoch i ≤ entered i)
        × (entered i ≤ m.global_epoch)
        × (m.global_epoch ≤ entered i + 1)
  pub binned : (k : ℕ) → Binned m.global_epoch k (m.retire_lists k)
  pub locals : (j : ℕ) → Local m entered (pc j)

-- What a step may do to what other threads rely on: the epoch grows, and whoever is inside was so
-- before, or has just entered.
pub record Onward (m : Memory) (entered : ℕ → ℕ) (m' : Memory) (entered' : ℕ → ℕ) : Type 0 where
  pub grows : m.global_epoch ≤ m'.global_epoch
  pub newer :
      (i c : ℕ)
      → c ≤ m.global_epoch
      → (m.local_epoch i ≢ max64 → c ≤ entered i)
      → m'.local_epoch i ≢ max64
      → c ≤ entered' i

Passed-Onward :
    {m m' : Memory} {entered entered' : ℕ → ℕ} (k c : ℕ)
    → Onward m entered m' entered'
    → c ≤ m.global_epoch
    → Passed m entered k c
    → Passed m' entered' k c
Passed-Onward k c o le p i lt = o.newer i c le (p i lt)

pub Local-Onward :
    {m m' : Memory} {entered entered' : ℕ → ℕ} (p : Pc)
    → Onward m entered m' entered'
    → Local m entered p
    → Local m' entered' p
Local-Onward (scan_use k c) o h = (omega (arith, o.grows, h.0), Passed-Onward k c o h.0 h.1)
Local-Onward (scan_epoch k c) o h = (omega (arith, o.grows, h.0), Passed-Onward k c o h.0 h.1)
Local-Onward (cas c) o h = (omega (arith, o.grows, h.0), Passed-Onward max_threads c o h.0 h.1)
Local-Onward (enter_store e) o h = omega (arith, o.grows, h)
Local-Onward (retire_push x e) o h = omega (arith, o.grows, h)
Local-Onward (swap n) o h = omega (arith, o.grows, h)
Local-Onward idle o h = tt
Local-Onward enter_load o h = tt
Local-Onward (retire_load x) o h = tt
Local-Onward advance_load o h = tt
Local-Onward (delete xs) o h = tt

pub locals-Onward :
    {m m' : Memory} {entered entered' : ℕ → ℕ} (pc : ℕ → Pc) (i : ℕ) (p : Pc)
    → Onward m entered m' entered'
    → ((j : ℕ) → Local m entered (pc j))
    → Local m' entered' p
    → (j : ℕ) → Local m' entered' (update pc i p j)
locals-Onward {m' = m'} {entered' = entered'} pc i p o h new =
    update_all (Local m' entered') pc i p new (λ j _. Local-Onward (pc j) o (h j))

-- The slots of threads that are about to enter stay theirs.
pub entering-update :
    (pc : ℕ → Pc) (used used' : ℕ → Bool) (i : ℕ) (p : Pc)
    → ((j : ℕ) → is_entering (pc j) ≡ true → used j ≡ true)
    → (is_entering p ≡ true → used' i ≡ true)
    → ((j : ℕ) → i ≢ j → used' j ≡ used j)
    → (j : ℕ) → is_entering (update pc i p j) ≡ true
    → used' j ≡ true
entering-update pc used used' i p h new same j e = elim (ℕ_discrete i j) [
  | yes eq ↦
      subst (λ j. used' j ≡ true) eq
        (new (
          subst (λ q. is_entering q ≡ true)
            (subst (λ j. update pc i p j ≡ p) eq (update_self pc i p)) e))
  | no ne ↦ same j ne ∙ h j (subst (λ q. is_entering q ≡ true) (update_ne pc i j p ne) e)
]

pub Binned-le :
    (g g' k : ℕ) (nodes : List RetiredNode) → g ≤ g' → Binned g k nodes → Binned g' k nodes
Binned-le g g' k [] le b = tt
Binned-le g g' k (node ∷ nodes) le b = (b.0, omega (arith, b.1), Binned-le g g' k nodes le b.2)

pub Binned-snoc :
    (g k : ℕ) (nodes : List RetiredNode) (node : RetiredNode)
    → Binned g k nodes
    → node.epoch % num_epochs ≡ k
    → node.epoch ≤ g
    → Binned g k (nodes ++ node ∷ [])
Binned-snoc g k [] node b e le = (e, le, tt)
Binned-snoc g k (x ∷ nodes) node b e le = (b.0, b.1, Binned-snoc g k nodes node b.2 e le)
