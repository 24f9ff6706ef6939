-- ===== src/Map/Shared/Race.antt =====
-- `insert` passes over a bucket that is claimed and not yet published, so two threads can put in
-- the same key.
use lockless_concurrent_fram.Common.{ℕ, zero, suc, ◌≡◌, refl, Bool, true, [], ◌∷◌, update}
use lockless_concurrent_fram.Map.{bucket, init}
use lockless_concurrent_fram.Map.Shared.{
  insert_load, inserted, step, System, advance, start, Reach, here, next, call_insert, move,
}

abbrev pub no_hash : {K : Type 0} → K → ℕ
no_hash _ = 0

module _ {K V : Type 0} (same : K → K → Bool) (blank : K × V) where
  -- `n` steps of thread `u`, in a table of two buckets whose keys have the hash 0.
  abbrev pub moves : ℕ → ℕ → System K V → System K V
  moves zero u s = s
  moves (suc n) u s = moves n u (advance 2 no_hash same u s)

  pub moves-Reach :
      (n u : ℕ) (s : System K V)
      → Reach 2 no_hash same blank s
      → Reach 2 no_hash same blank (moves n u s)
  moves-Reach zero u s r = r
  moves-Reach (suc n) u s r = moves-Reach n u (advance 2 no_hash same u s) (next r (move u))

  -- Both threads call; the first claims bucket 0; the second goes on to bucket 1, and is done before
  -- the first.
  abbrev called : K → V → V → System K V
  called k v w =
      let s = start blank.0 blank.1 in
      record s { pc = update (update s.pc 0 (insert_load k v 0)) 1 (insert_load k w 0) }

  abbrev twice : K → V → V → System K V
  twice k v w = moves 3 0 (moves 7 1 (moves 2 0 (called k v w)))

  -- For any key and two values there is a reachable state of a table of two buckets, whose keys
  -- have the hash 0, in which two calls of `insert` with that key have both returned true, and
  -- both pairs are published.
  pub inserted_twice :
      (k : K) (v w : V)
      → (s : System K V) × Reach 2 no_hash same blank s
        × (s.pc 0 ≡ inserted k v true)
        × (s.pc 1 ≡ inserted k w true)
        × (s.log ≡ (k, v) ∷ (k, w) ∷ [])
  unfolding advance step start init bucket
  inserted_twice k v w = (
    twice k v w,
    moves-Reach 3 0 _ (
        moves-Reach 7 1 _ (
          moves-Reach 2 0 (called k v w)
            (next (next here (call_insert 0 k v refl)) (call_insert 1 k w refl)))),
    refl,
    refl,
    refl,
  )
