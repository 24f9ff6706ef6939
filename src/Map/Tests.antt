-- ===== src/Map/Tests.antt =====
-- A table of two buckets whose keys all have the hash 3.
use lockless_concurrent_fram.Common.{
  Option, none, some, ==_iff, if◌then◌else◌, arith, zero, suc, ℕ, ◌<◌, ◌≡◌, ◌⊎◌, refl, Bool, true,
  false, ◌==◌,
}
use lockless_concurrent_fram.Map.{Node, found, bucket, insert_probe, insert, find_probe, find}
use lockless_concurrent_fram.Map.Refine.{Stands, with_key, insert-refines}

abbrev crowd : ℕ → ℕ
crowd _ = 3

abbrev same : ℕ → ℕ → Bool
same a b = a == b

-- Bucket 1 holds the key 5, and bucket 0 is free.
abbrev table : ℕ → Node ℕ ℕ
table i = record { key = 5; value = 50; occupied = i == 1; ready = i == 1 }

second_key : find 2 crowd same (insert 2 crowd same table 7 70).0 7 ≡ found 70
unfolding find insert find_probe insert_probe bucket
second_key = refl

first_key : find 2 crowd same (insert 2 crowd same table 7 70).0 5 ≡ found 50
unfolding find insert find_probe insert_probe bucket
first_key = refl

abbrev one_key : ℕ → Option ℕ
one_key k = if 5 == k then some 50 else none

first_taken : (k j : ℕ) → j < 1 → (table (bucket 2 crowd k j)).occupied ≡ true
unfolding bucket
first_taken k zero lt = refl
first_taken k (suc j) lt = absurd (omega (arith, lt))

table-Stands : Stands 2 crowd same table one_key
unfolding find find_probe bucket
table-Stands = record {
  settled = λ j o. o;
  closed = λ k r j lt taken holds less. first_taken k j (omega (arith, lt, less));
  lookup = λ k. ground arith;
}

insert-refines_example :
    let (t', done) = insert 2 crowd same table 7 70 in
    ((v : ℕ) × (one_key 7 ≡ some v) × (done ≡ false) × (t' ≡ table))
    ⊎ (((one_key 7 ≡ none)
          × (done ≡ false)
          × (t' ≡ table)
          × ((j : ℕ) → j < 2 → (table (bucket 2 crowd 7 j)).occupied ≡ true))
        ⊎ ((one_key 7 ≡ none)
            × (done ≡ true)
            × Stands 2 crowd same t' (with_key 2 crowd same one_key 7 70)))
insert-refines_example =
    insert-refines 2 crowd same table one_key 7 70 ==_iff (omega arith) table-Stands
