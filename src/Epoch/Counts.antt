-- ===== src/Epoch/Counts.antt =====
-- Where the objects given to `retire` are: how often each is in the lists, in a thread's hands, and in
-- the history of deletions, and how a step moves them.
use mathlib.Core.List.{map}
use lockless_concurrent_fram.Common.{
  ℕ, zero, suc, ◌+◌, ◌%◌, ◌<◌, ◌≡◌, refl, ap, List, [], ◌∷◌, ◌++◌, ◌==◌, if◌then◌else◌, update,
  update_self, update_ne, arith,
}
use lockless_concurrent_fram.Common.Sums.{total, total-change}
use lockless_concurrent_fram.Epoch.{
  RetiredNode, Memory, Pc, idle, enter_load, enter_store, retire_load, retire_push, advance_load,
  scan_use, scan_epoch, cas, swap, delete, num_epochs, step, freed_after,
}

abbrev pub times : ℕ → List ℕ → ℕ
times x [] = 0
times x (y ∷ ys) = (if y == x then 1 else 0) + times x ys

pub times-append : (x : ℕ) (xs ys : List ℕ) → times x (xs ++ ys) ≡ times x xs + times x ys
times-append x [] ys = omega arith
times-append x (y ∷ xs) ys = omega (arith, times-append x xs ys)

-- How often `x` is in a list, and in all three.
abbrev pub listed : ℕ → List RetiredNode → ℕ
listed x [] = 0
listed x (n ∷ nodes) = (if n.ptr == x then 1 else 0) + listed x nodes

abbrev pub pending : ℕ → Memory → ℕ
pending x m =
    listed x (m.retire_lists 0) + listed x (m.retire_lists 1) + listed x (m.retire_lists 2)

-- How often a thread has `x` in its hands.
abbrev pub carried : ℕ → Pc → ℕ
carried x (retire_load ptr) = if ptr == x then 1 else 0
carried x (retire_push ptr epoch) = if ptr == x then 1 else 0
carried x (delete to_free) = listed x to_free
carried x _ = 0

listed-snoc :
    (x : ℕ) (nodes : List RetiredNode) (n : RetiredNode)
    → listed x (nodes ++ n ∷ []) ≡ listed x nodes + (if n.ptr == x then 1 else 0)
listed-snoc x [] n = omega arith
listed-snoc x (m ∷ nodes) n = omega (arith, listed-snoc x nodes n)

pub times-map :
    (x : ℕ) (nodes : List RetiredNode) → times x (map (λ n. n.ptr) nodes) ≡ listed x nodes
times-map x [] = refl
times-map x (n ∷ nodes) = omega (arith, times-map x nodes)

-- A list of the three is exchanged for another.
pending-update :
    (x : ℕ) (lists : ℕ → List RetiredNode) (k : ℕ) (nodes : List RetiredNode)
    → let l = update lists (k % num_epochs) nodes in
      listed x (l 0) + listed x (l 1) + listed x (l 2) + listed x (lists (k % num_epochs))
      ≡ listed x (lists 0) + listed x (lists 1) + listed x (lists 2) + listed x nodes
pending-update x lists k nodes = by_idx (k % num_epochs) (omega arith)
  where
    by_idx :
        (j : ℕ)
        → j < 3
        → let l = update lists j nodes in
          listed x (l 0) + listed x (l 1) + listed x (l 2) + listed x (lists j)
          ≡ listed x (lists 0) + listed x (lists 1) + listed x (lists 2) + listed x nodes
    by_idx zero lt = omega arith
    by_idx (suc zero) lt = omega arith
    by_idx (suc (suc zero)) lt = omega arith
    by_idx (suc (suc (suc j))) lt = absurd (omega (arith, lt))

-- A step moves objects between the lists, the thread's hands and the history of deletions.
pub step-pending :
    (x i : ℕ) (m : Memory) (p : Pc) (freed : List ℕ)
    → let (m', p', e) = step i m p in
      pending x m' + carried x p' + times x (freed_after e freed)
      ≡ pending x m + carried x p + times x freed
unfolding step
step-pending x i m idle freed = refl
step-pending x i m enter_load freed = refl
step-pending x i m (enter_store epoch) freed = refl
step-pending x i m (retire_load ptr) freed = refl
step-pending x i m (retire_push ptr epoch) freed =
    let old = m.retire_lists (epoch % num_epochs) in
    let node : RetiredNode = record { ptr = ptr; epoch = epoch } in
    omega (arith, pending-update x m.retire_lists epoch (old ++ node ∷ []), listed-snoc x old node)
step-pending x i m advance_load freed = refl
step-pending x i m (scan_use slot current) freed = ground arith
step-pending x i m (scan_epoch slot current) freed = ground arith
step-pending x i m (cas current) freed = ground arith
step-pending x i m (swap new_epoch) freed =
    omega (arith, pending-update x m.retire_lists new_epoch [])
step-pending x i m (delete []) freed = refl
step-pending x i m (delete (node ∷ to_free)) freed =
    omega (arith, times-append x freed (node.ptr ∷ []))

-- Thread `i` goes on from one point of a call to another.
pub total-update :
    (x n i : ℕ) (pc : ℕ → Pc) (p : Pc)
    → i < n
    → total n (λ j. carried x (update pc i p j)) + carried x (pc i)
      ≡ total n (λ j. carried x (pc j)) + carried x p
total-update x n i pc p lt = omega (
  arith,
  total-change n i (λ j. carried x (update pc i p j)) (λ j. carried x (pc j)) lt
      (λ j ne. ap (carried x) (update_ne pc i j p ne)),
  ap (carried x) (update_self pc i p),
)
