-- ===== src/Map/Shared/Tests.antt =====
-- A run of three threads on a table of two buckets, and the theorems at states that it reaches.
use lockless_concurrent_fram.Common.{
  IsIn, ℕ, ◌≡◌, ◌≢◌, ◌⊎◌, refl, Bool, true, false, some, none, [], ◌∷◌, ◌==◌, ==_iff, update, arith,
}
use lockless_concurrent_fram.Map.{bucket, init, find}
use lockless_concurrent_fram.Map.Shared.{
  insert_load, write_key, inserted, find_load, find_value, step, System, advance, start, Reach,
  here, next, call_insert, call_find,
}
use lockless_concurrent_fram.Map.Shared.Invariant.{Taken, Placed}
use lockless_concurrent_fram.Map.Shared.Safety.{
  writes, reads, fields_exclusive, insert_result, find_result, IsAnswer,
}
use lockless_concurrent_fram.Map.Shared.Found.{IsMet}
use lockless_concurrent_fram.Map.Shared.Race.{no_hash, moves, moves-Reach, inserted_twice}

abbrev same : ℕ → ℕ → Bool
same a b = a == b

-- Thread 0 has put in 5 with 50. Thread 1 has claimed the second bucket for 7, and thread 2 looks
-- for 5.
abbrev one_in : System ℕ ℕ
one_in =
    let s = start 0 0 in
    moves same (0, 0) 5 0 (record s { pc = update s.pc 0 (insert_load 5 50 0) })

abbrev claiming : System ℕ ℕ
claiming = moves same (0, 0) 5 1 (record one_in { pc = update one_in.pc 1 (insert_load 7 70 0) })

abbrev looking : System ℕ ℕ
looking = moves same (0, 0) 3 2 (record claiming { pc = update claiming.pc 2 (find_load 5 0) })

claiming-Reach : Reach 2 no_hash same (0, 0) claiming
unfolding advance step start init bucket
claiming-Reach =
    moves-Reach same (0, 0) 5 1 _
      (next (moves-Reach same (0, 0) 5 0 _ (next here (call_insert 0 5 50 refl)))
        (call_insert 1 7 70 refl))

looking-Reach : Reach 2 no_hash same (0, 0) looking
unfolding advance step start init bucket
looking-Reach = moves-Reach same (0, 0) 3 2 _ (next claiming-Reach (call_find 2 5 refl))

looking_lem : (looking.pc 1 ≡ write_key 7 70 1) × (looking.pc 2 ≡ find_value 5 0)
unfolding advance step start init bucket
looking_lem = (refl, refl)

fields_exclusive_example :
    (writes 2 no_hash (looking.pc 2) ≢ some 1) × (reads 2 no_hash (looking.pc 2) ≢ some 1)
unfolding advance step start init bucket
fields_exclusive_example =
    fields_exclusive 2 no_hash same ==_iff looking-Reach 1 2 1 (λ e. omega (arith, e)) refl

insert_result_example :
    ((true ≡ true)
      × IsIn (5, 50) looking.log
      × Placed 2 no_hash looking.mem (5, 50)
      × IsMet 2 no_hash same looking.mem looking.log 5 (find 2 no_hash same looking.mem 5))
    ⊎ ((true ≡ false)
        × (((w : ℕ) × IsIn (5, w) looking.log
              × Placed 2 no_hash looking.mem (5, w)
              × IsMet 2 no_hash same looking.mem looking.log 5 (find 2 no_hash same looking.mem 5))
            ⊎ Taken 2 no_hash looking.mem 5 2))
unfolding advance step start init bucket
insert_result_example = insert_result 2 no_hash same ==_iff looking-Reach 0 5 50 true refl

find_result_example : IsAnswer looking.log 5 (some 50)
unfolding advance step start init bucket
find_result_example = find_result 2 no_hash same ==_iff looking-Reach 2 5 (some 50) refl refl

find_result_none : IsAnswer looking.log 9 none
unfolding advance step start init bucket
find_result_none = λ v h. ground (arith, h)

inserted_twice_example :
    (s : System ℕ ℕ) × Reach 2 no_hash same (0, 0) s
    × (s.pc 0 ≡ inserted 5 50 true)
    × (s.pc 1 ≡ inserted 5 60 true)
    × (s.log ≡ (5, 50) ∷ (5, 60) ∷ [])
inserted_twice_example = inserted_twice same (0, 0) 5 50 60
