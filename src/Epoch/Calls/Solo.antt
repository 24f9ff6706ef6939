-- ===== src/Epoch/Calls/Solo.antt =====
-- `retire` as a whole call is a run of the steps: one thread, with no other thread at work.
use mathlib.Core.List.{map}
use lockless_concurrent_fram.Common.{
  ℕ, zero, suc, ◌+◌, ◌%◌, ◌<◌, ◌≡◌, refl, true, false, inl, inr, List, [], ◌∷◌, ltb, ◌==◌,
  Bool-cases, update, arith,
}
use lockless_concurrent_fram.Common.Words.{add64}
use lockless_concurrent_fram.Epoch.{
  RetiredNode, Memory, Pc, idle, retire_load, advance_load, scan_use, cas, swap, delete, Event,
  silent, deleted, max_threads, num_epochs, is_behind, step,
}
use lockless_concurrent_fram.Epoch.Calls.{all_current, try_advance, push_retired, retire}

-- What was deleted, with a step put in front.
abbrev pub deleted_before : Event → List ℕ → List ℕ
deleted_before silent later = later
deleted_before (deleted ptr) later = ptr ∷ later

-- Thread `i` runs on from its place and memory to the end, and deletes `gone` on the way.
pub data Run (i : ℕ) (m' : Memory) (p' : Pc) : List ℕ → Memory → Pc → Type 0 where
  stop : Run i m' p' [] m' p'
  go :
      {m : Memory} {p : Pc} {later gone : List ℕ}
      → deleted_before (step i m p).2 later ≡ gone
      → Run i m' p' later (step i m p).0 (step i m p).1
      → Run i m' p' gone m p

module _ (i : ℕ) where
  delete-Run :
      (m : Memory) (xs : List RetiredNode) → Run i m idle (map (λ n. n.ptr) xs) m (delete xs)
  unfolding step
  delete-Run m [] = go refl stop
  delete-Run m (x ∷ xs) = go refl (delete-Run m xs)

  -- One more slot.
  scan_on :
      {m' : Memory} {p' : Pc} {gone : List ℕ} (m : Memory) (k c : ℕ)
      → k < max_threads
      → (m.in_use k ≡ true → is_behind (m.local_epoch k) c ≡ false)
      → Run i m' p' gone m (scan_use (suc k) c)
      → Run i m' p' gone m (scan_use k c)
  unfolding step
  scan_on {m'} {p'} {gone} m k c lt level run =
      let next : k + 1 ≡ suc k = omega arith in
      let inside : ltb k max_threads ≡ true = ground arith in
      elim (Bool-cases (m.in_use k)) [
        | inr free ↦ go refl (rw (inside, free, next) run)
        | inl used ↦ go refl (rw (inside, used) (go refl (rw (level used, next) run)))
      ]

  scan-Run :
      {m' : Memory} {p' : Pc} {gone : List ℕ} (n k : ℕ) (m : Memory) (c : ℕ)
      → k + n ≡ max_threads
      → all_current n k m c ≡ true
      → Run i m' p' gone m (cas c)
      → Run i m' p' gone m (scan_use k c)
  unfolding step all_current
  scan-Run zero k m c e all run =
      let outside : ltb k max_threads ≡ false = ground (arith, e) in go refl (rw outside run)
  scan-Run (suc n) k m c e all run =
      scan_on m k c (omega (arith, e)) (λ used. ground (arith, used, all))
        (scan-Run n (suc k) m c (omega (arith, e)) (ground arith) run)

  blocked-Run :
      (n k : ℕ) (m : Memory) (c : ℕ)
      → k + n ≡ max_threads
      → all_current n k m c ≡ false
      → Run i m idle [] m (scan_use k c)
  unfolding step all_current
  blocked-Run zero k m c e no_one = ground arith
  blocked-Run (suc n) k m c e some_one =
      let inside : ltb k max_threads ≡ true = ground (arith, e) in
      elim (Bool-cases (m.in_use k)) [
        | inr free ↦
            scan_on m k c (omega (arith, e)) (λ used. ground (arith, used, free))
              (blocked-Run n (suc k) m c (omega (arith, e)) (ground arith))
        | inl used ↦ elim (Bool-cases (is_behind (m.local_epoch k) c)) [
          | inl behind ↦ go refl (rw (inside, used) (go refl (rw behind stop)))
          | inr level ↦
              scan_on m k c (omega (arith, e)) (λ _. level)
                (blocked-Run n (suc k) m c (omega (arith, e)) (ground arith))
        ]
      ]

  -- The exchange finds the epoch that was read.
  win-Run :
      {m' : Memory} {p' : Pc} {gone : List ℕ} (m : Memory)
      → Run i m' p' gone
          (record m { global_epoch = add64 m.global_epoch 1 })
          (swap (add64 m.global_epoch 1))
      → Run i m' p' gone m (cas m.global_epoch)
  unfolding step
  win-Run {gone = gone} m run =
      let same : (m.global_epoch == m.global_epoch) ≡ true = ground arith in
      go {later = gone} (rw same refl) (rw same run)

  try_advance-Run :
      (m : Memory)
      → Run i (try_advance m).0 idle (map (λ n. n.ptr) (try_advance m).1) m advance_load
  unfolding step try_advance
  try_advance-Run m = elim (Bool-cases (all_current max_threads 0 m m.global_epoch)) [
    | inl all ↦
        let k : ℕ = add64 m.global_epoch 1 % num_epochs in
        let swapped : Memory = record m {
          global_epoch = add64 m.global_epoch 1;
          retire_lists = update m.retire_lists k [];
        } in
        let advanced : Memory = record m { global_epoch = add64 m.global_epoch 1 } in
        let swapping : Run i swapped idle (map (λ n. n.ptr) (m.retire_lists k)) advanced
            (swap (add64 m.global_epoch 1)) =
          go refl (delete-Run swapped (m.retire_lists k)) in
        rw all (go refl (scan-Run max_threads 0 m m.global_epoch refl all (win-Run m swapping)))
    | inr some_one ↦
        rw some_one (go refl (blocked-Run max_threads 0 m m.global_epoch refl some_one))
  ]

  -- The steps of one thread from the start of `retire` end in the memory that the whole call
  -- leaves, and delete on the way what it deletes, in the same order.
  retire-Run :
      (m : Memory) (ptr : ℕ)
      → Run i (retire m ptr).0 idle (map (λ n. n.ptr) (retire m ptr).1) m (retire_load ptr)
  unfolding step retire push_retired
  retire-Run m ptr = go refl (go refl (try_advance-Run (push_retired m ptr)))
