-- ===== src/Validator/Tests.antt =====
-- Small histories, and the theorems on them.
use lockless_concurrent_fram.Common.{ℕ, ◌≤◌, ◌≡◌, ◌↔◌, refl, true, List, [], ◌∷◌, ◌++◌, arith}
use lockless_concurrent_fram.Validator.{
  push, pop, is_push, is_pop, Operation, Validator, operation, draw_id, append,
  record_operation_start, record_operation_end, well_timed, collect, push_counts, all_pushed,
  check_sequential_consistency,
}
use lockless_concurrent_fram.Validator.Recording.{IsNumbered, finished, start_then_end}
use lockless_concurrent_fram.Validator.Check.{occurrences, IsTimed, check_lem}

abbrev same_order : List Operation → List Operation
same_order ops = ops

-- A push of 5 and a pop of 5, both done.
abbrev history : Validator
history = record {
  recording = true;
  operations =
      finished true 5 20 (operation push 1 5 10) ∷ finished true 5 40 (operation pop 2 0 30) ∷ [];
  operation_counter = 2;
}

good_history : check_sequential_consistency same_order history ≡ true
unfolding check_sequential_consistency well_timed collect push_counts all_pushed operation
good_history = refl

start_then_end_example :
    IsNumbered (record_operation_start history push 1 6 50).0
    × (record_operation_end
          (record_operation_start history push 1 6 50).0
          (record_operation_start history push 1 6 50).1
          true
          6
          60
        ≡ record (record_operation_start history push 1 6 50).0 {
          operations = history.operations ++ finished true 6 60 (operation push 1 6 50) ∷ [];
        })
unfolding record_operation_start draw_id append
start_then_end_example =
    start_then_end history (record_operation_start history push 1 6 50).0 push 1 6 50 [] true 6 60
      refl refl refl refl (omega arith)

check_lem_example : (check_sequential_consistency same_order history ≡ true) ↔ (
    IsTimed history.operations
    × ((x : ℕ)
        → occurrences is_pop x history.operations ≤ occurrences is_push x history.operations))
unfolding operation
check_lem_example = check_lem same_order history (λ v. ground arith)
