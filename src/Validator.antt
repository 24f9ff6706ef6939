-- ===== src/Validator.antt =====
-- include/lockless/ordering_validator.hpp: OrderingValidator, which records operations and checks them.
-- What the clock says is an argument of each call that reads it, and so is std::sort. The description
-- of an operation is a string that nothing sets.
pub mod Recording
pub mod Check
pub mod Totals
pub mod Race
mod Tests
use mathlib.Core.List.{map}
use lockless_concurrent_fram.Common.{
  ℕ, zero, suc, ◌+◌, ◌-◌, ◌/◌, Bool, true, false, not, ◌&&◌, ◌||◌, Option, none, some, List, [],
  ◌∷◌, ◌++◌, length, ltb, leb, ◌==◌, if◌then◌else◌,
}
use lockless_concurrent_fram.Common.Words.{add32, sub32, add64, sub64, max64}

pub data OperationType : Type 0 where
  push : OperationType
  pop : OperationType
  insert : OperationType
  find : OperationType
  custom : OperationType

abbrev pub is_push : OperationType → Bool
is_push push = true
is_push _ = false

abbrev pub is_pop : OperationType → Bool
is_pop pop = true
is_pop _ = false

-- A value is an int64_t by its pattern of bits.
pub record Operation : Type 0 where
  pub type : OperationType
  pub thread_id : ℕ
  pub start_time_ns : ℕ
  pub end_time_ns : ℕ
  pub value : ℕ
  pub success : Bool

-- The members of `OrderingValidator`.
pub record Validator : Type 0 where
  pub recording : Bool
  pub operations : List Operation
  pub operation_counter : ℕ

abbrev pub init : Validator
init = record { recording = false; operations = []; operation_counter = 0 }

unfoldable pub start_recording : Validator → Validator
start_recording v = record { recording = true; operations = []; operation_counter = 0 }

unfoldable pub stop_recording : Validator → Validator
stop_recording v = record v { recording = false }

-- The constructor of `Operation`, and its start time.
unfoldable pub operation : OperationType → ℕ → ℕ → ℕ → Operation
operation type thread_id value now = record {
  type = type;
  thread_id = thread_id;
  start_time_ns = now;
  end_time_ns = 0;
  value = value;
  success = false;
}

-- `operation_counter_.fetch_add`, and `operations_.push_back` under the mutex.
unfoldable pub draw_id : Validator → Validator × ℕ
draw_id v = (record v { operation_counter = add64 v.operation_counter 1 }, v.operation_counter)

unfoldable pub append : Validator → Operation → Validator
append v op = record v { operations = v.operations ++ op ∷ [] }

unfoldable pub record_operation_start : Validator → OperationType → ℕ → ℕ → ℕ → Validator × ℕ
unfolding draw_id append operation
record_operation_start v type thread_id value now =
    let (w, op_id) = draw_id v in
    if not v.recording then (v, max64) else (append w (operation type thread_id value now), op_id)

-- The operation at a position of the list is changed.
pub change : ℕ → (Operation → Operation) → List Operation → List Operation
change n f [] = []
change zero f (op ∷ ops) = f op ∷ ops
change (suc n) f (op ∷ ops) = op ∷ change n f ops

unfoldable pub record_operation_end : Validator → ℕ → Bool → ℕ → ℕ → Validator
unfolding change
record_operation_end v op_id success result_value now =
    if op_id == max64 || not v.recording
    then v
    else (if ltb op_id (length v.operations)
        then record v {
          operations =
              change op_id
                (λ op. record op { end_time_ns = now; success = success; value = result_value })
                v.operations;
        }
        else v)

-- The loop over the times.
unfoldable pub well_timed : List Operation → Bool
well_timed [] = true
well_timed (op ∷ ops) =
    let rest = well_timed ops in if ltb op.end_time_ns op.start_time_ns then false else rest

-- The loop that collects `pushed` and `popped`.
unfoldable pub collect : List Operation → List ℕ × List ℕ
collect [] = ([], [])
collect (op ∷ ops) =
    let (pushed, popped) = collect ops in
    if not op.success
    then (pushed, popped)
    else (if is_push op.type
        then (op.value ∷ pushed, popped)
        else (if is_pop op.type then (pushed, op.value ∷ popped) else (pushed, popped)))

-- `push_counts`, where a key that is missing counts 0. A count is an `int`, here as its pattern of
-- 32 bits; C++ leaves open what an overflow does, here it wraps.
unfoldable pub push_counts : List ℕ → ℕ → ℕ
push_counts [] v = 0
push_counts (x ∷ pushed) v =
    let count = push_counts pushed v in if x == v then add32 count 1 else count

-- `it->second <= 0`.
abbrev pub none_left : ℕ → Bool
none_left count = count == 0 || leb 0x8000_0000 count

-- The loop over the popped values: each takes one off its count.
unfoldable pub all_pushed : (ℕ → ℕ) → List ℕ → Bool
all_pushed counts [] = true
all_pushed counts (x ∷ popped) =
    let rest = all_pushed (λ v. if x == v then sub32 (counts v) 1 else counts v) popped in
    if none_left (counts x) then false else rest

-- The operations that `sequential` holds, before it is sorted.
unfoldable pub completed : List Operation → List Operation
completed [] = []
completed (op ∷ ops) =
    let rest = completed ops in
    if op.success && (is_push op.type || is_pop op.type) then op ∷ rest else rest

-- The run on `sim`, whose top is first.
unfoldable pub simulate : List Operation → List ℕ → List ℕ
simulate [] sim = sim
simulate (op ∷ ops) sim =
    simulate ops
      (if is_push op.type then op.value ∷ sim else (elim sim [ [] ↦ [] | _ ∷ rest ↦ rest ]))

-- `check_sequential_consistency`: the simulation ends in nothing.
unfoldable pub check_sequential_consistency : (List Operation → List Operation) → Validator → Bool
unfolding well_timed collect push_counts all_pushed completed simulate
check_sequential_consistency sort v =
    let (pushed, popped) = collect v.operations in
    let sim = simulate (sort (completed v.operations)) [] in
    if not (well_timed v.operations)
    then false
    else (if not (all_pushed (push_counts pushed) popped) then false else true)

-- `successful` and `total_duration` in print_statistics, which wrap.
unfoldable pub sum_up : List Operation → ℕ × ℕ
sum_up [] = (0, 0)
sum_up (op ∷ ops) =
    let (successful, total) = sum_up ops in
    (
      (if op.success then 1 else 0) + successful,
      add64 (sub64 op.end_time_ns op.start_time_ns) total,
    )

-- What print_statistics prints: the operations, those that succeeded, those that failed, and the
-- average duration; `none` where there are no operations.
pub record Statistics : Type 0 where
  pub total : ℕ
  pub successful : ℕ
  pub failed : ℕ
  pub average_duration : ℕ

unfoldable pub print_statistics : Validator → Option Statistics
unfolding sum_up
print_statistics v =
    let (successful, total_duration) = sum_up v.operations in
    elim v.operations [
      | [] ↦ none
      | _ ∷ _ ↦ some (record {
        total = length v.operations;
        successful = successful;
        failed = sub64 (length v.operations) successful;
        average_duration = total_duration / length v.operations;
      })
    ]

-- What print_history prints: how many operations there are, and a line for each.
record HistoryLine : Type 0 where
  thread_id : ℕ
  type : ℕ
  value : ℕ
  success : Bool
  duration : ℕ

-- `static_cast<int>(op.type)`.
type_code : OperationType → ℕ
type_code push = 0
type_code pop = 1
type_code insert = 2
type_code find = 3
type_code custom = 4

history_line : Operation → HistoryLine
history_line op = record {
  thread_id = op.thread_id;
  type = type_code op.type;
  value = op.value;
  success = op.success;
  duration = sub64 op.end_time_ns op.start_time_ns;
}

print_history : Validator → ℕ × List HistoryLine
print_history v = (length v.operations, map history_line v.operations)

-- `ScopedOperation`: its members, constructor, setters and destructor. No validator is the null
-- pointer.
pub record ScopedOperation : Type 0 where
  pub op_id : ℕ
  pub success : Bool
  pub result : ℕ

unfoldable pub scope_begin :
    Option Validator → OperationType → ℕ → ℕ → ℕ → Option Validator × ScopedOperation
unfolding record_operation_start
scope_begin none type thread_id value now =
    (none, record { op_id = max64; success = false; result = 0 })
scope_begin (some v) type thread_id value now =
    let (w, op_id) = record_operation_start v type thread_id value now in
    (some w, record { op_id = op_id; success = false; result = 0 })

set_success : ScopedOperation → Bool → ScopedOperation
set_success scope s = record scope { success = s }

set_result : ScopedOperation → ℕ → ScopedOperation
set_result scope r = record scope { result = r }

unfoldable pub scope_end : Option Validator → ScopedOperation → ℕ → Option Validator
unfolding record_operation_end
scope_end none scope now = none
scope_end (some v) scope now =
    if scope.op_id == max64
    then some v
    else some (record_operation_end v scope.op_id scope.success scope.result now)
