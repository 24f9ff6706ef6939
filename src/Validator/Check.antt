-- ===== src/Validator/Check.antt =====
-- What `check_sequential_consistency` checks.
use lockless_concurrent_fram.Common.{
  ℕ, ◌+◌, ◌≤◌, ◌<◌, ◌≡◌, ◌↔◌, refl, subst, inl, inr, Bool-cases, Bool, true, false, ◌&&◌, List, [],
  ◌∷◌, ◌++◌, ◌==◌, if◌then◌else◌, arith,
}
use lockless_concurrent_fram.Common.Words.{sub32}
use lockless_concurrent_fram.Validator.{
  OperationType, push, pop, insert, find, custom, is_push, is_pop, Operation, Validator, operation,
  append, draw_id, record_operation_start, well_timed, collect, push_counts, none_left, all_pushed,
  check_sequential_consistency,
}

-- How many operations of a kind succeeded with the value `v`.
abbrev pub occurrences : (OperationType → Bool) → ℕ → List Operation → ℕ
occurrences kind v [] = 0
occurrences kind v (op ∷ ops) =
    (if op.success && (kind op.type && op.value == v) then 1 else 0) + occurrences kind v ops

abbrev pub IsTimed : List Operation → Type 0
IsTimed [] = Unit
IsTimed (op ∷ ops) = (op.start_time_ns ≤ op.end_time_ns) × IsTimed ops

abbrev times : ℕ → List ℕ → ℕ
times v [] = 0
times v (x ∷ xs) = (if x == v then 1 else 0) + times v xs

well_timed→IsTimed : (ops : List Operation) → well_timed ops ≡ true → IsTimed ops
unfolding well_timed
well_timed→IsTimed [] e = tt
well_timed→IsTimed (op ∷ ops) e = (ground (arith, e), well_timed→IsTimed ops (ground (arith, e)))

IsTimed→well_timed : (ops : List Operation) → IsTimed ops → well_timed ops ≡ true
unfolding well_timed
IsTimed→well_timed [] h = refl
IsTimed→well_timed (op ∷ ops) h = ground (arith, h.0, IsTimed→well_timed ops h.1)

-- No count of `push_counts` overflows.
abbrev pub IsCounted : List Operation → Type 0
IsCounted ops = (v : ℕ) → occurrences is_push v ops < 0x8000_0000

IsCounted-tail : (op : Operation) (ops : List Operation) → IsCounted (op ∷ ops) → IsCounted ops
IsCounted-tail op ops few v = omega (arith, few v)

collect-pushed :
    (v : ℕ) (ops : List Operation)
    → IsCounted ops
    → push_counts (collect ops).0 v ≡ occurrences is_push v ops
unfolding collect push_counts
collect-pushed v [] few = refl
collect-pushed v (op ∷ ops) few =
    ground (arith, few v, collect-pushed v ops (IsCounted-tail op ops few))

not_both : (t : OperationType) → is_push t ≡ true → is_pop t ≡ false
not_both push e = refl
not_both pop e = cc
not_both insert e = cc
not_both find e = cc
not_both custom e = cc

collect-popped : (v : ℕ) (ops : List Operation) → times v (collect ops).1 ≡ occurrences is_pop v ops
unfolding collect
collect-popped v [] = refl
collect-popped v (op ∷ ops) = ground (arith, collect-popped v ops, not_both op.type)

-- The counts are not negative.
abbrev IsRanged : (ℕ → ℕ) → Type 0
IsRanged counts = (v : ℕ) → counts v < 0x8000_0000

abbrev one_off : ℕ → (ℕ → ℕ) → ℕ → ℕ
one_off x counts v = if x == v then sub32 (counts v) 1 else counts v

one_off-IsRanged :
    (x : ℕ) (counts : ℕ → ℕ) → IsRanged counts → 0 < counts x → IsRanged (one_off x counts)
one_off-IsRanged x counts few pos v = ground (arith, few v, pos)

all_pushed→times :
    (counts : ℕ → ℕ) (xs : List ℕ)
    → IsRanged counts
    → all_pushed counts xs ≡ true
    → (v : ℕ) → times v xs ≤ counts v
unfolding all_pushed
all_pushed→times counts [] few e v = omega arith
all_pushed→times counts (x ∷ xs) few e v =
    let pos : 0 < counts x = ground (arith, e) in
    let rest =
      all_pushed→times (one_off x counts) xs (one_off-IsRanged x counts few pos) (ground (arith, e))
        v in
    ground (arith, few v, pos, rest)

times→all_pushed :
    (counts : ℕ → ℕ) (xs : List ℕ)
    → IsRanged counts
    → ((v : ℕ) → times v xs ≤ counts v)
    → all_pushed counts xs ≡ true
unfolding all_pushed
times→all_pushed counts [] few h = refl
times→all_pushed counts (x ∷ xs) few h =
    let pos : 0 < counts x = ground (arith, h x) in
    let some_left : none_left (counts x) ≡ false = ground (arith, pos, few x) in
    rw some_left (
      times→all_pushed (one_off x counts) xs (one_off-IsRanged x counts few pos)
        (λ v. ground (arith, h v, few v)))

-- When no value was pushed successfully 2 ^ 31 times or more, so that no count overflows: however
-- the completed operations are sorted, `check_sequential_consistency` is true exactly when no
-- operation ended before it started and each value was popped at most as often as it was pushed,
-- among the operations that succeeded. The order of the pushes and pops plays no part.
pub check_lem :
    (sort : List Operation → List Operation) (v : Validator)
    → IsCounted v.operations
    → (check_sequential_consistency sort v ≡ true) ↔ (
        IsTimed v.operations
        × ((x : ℕ) → occurrences is_pop x v.operations ≤ occurrences is_push x v.operations))
unfolding check_sequential_consistency
check_lem sort v few =
    let ops = v.operations in
    let counts : ℕ → ℕ = push_counts (collect ops).0 in
    let ranged : IsRanged counts = λ x. omega (arith, few x, collect-pushed x ops few) in
    (
      (λ e.
          let timed : well_timed ops ≡ true = ground (arith, e) in
          let pushed : all_pushed counts (collect ops).1 ≡ true = ground (arith, e) in
          (
            well_timed→IsTimed ops timed,
            λ x. omega (
              arith,
              all_pushed→times counts (collect ops).1 ranged pushed x,
              collect-pushed x ops few,
              collect-popped x ops,
            ),
          )),
      (λ (timed, fewer).
          let pushed : all_pushed counts (collect ops).1 ≡ true =
            times→all_pushed counts (collect ops).1 ranged
              (λ x. omega (arith, fewer x, collect-pushed x ops few, collect-popped x ops)) in
          ground (arith, IsTimed→well_timed ops timed, pushed)),
    )

IsTimed-append : (before after : List Operation) → IsTimed (before ++ after) → IsTimed after
IsTimed-append [] after h = h
IsTimed-append (x ∷ before) after h = IsTimed-append before after h.1

check-well_timed :
    (sort : List Operation → List Operation) (v : Validator)
    → check_sequential_consistency sort v ≡ true
    → well_timed v.operations ≡ true
unfolding check_sequential_consistency
check-well_timed sort v e = ground (arith, e)

-- In a validator that records, right after an operation has started at a time later than 0,
-- `check_sequential_consistency` is false.
unfinished_fails :
    (sort : List Operation → List Operation) (v : Validator) (type : OperationType)
    (thread_id value now : ℕ)
    → v.recording ≡ true
    → 0 < now
    → check_sequential_consistency sort (record_operation_start v type thread_id value now).0
      ≡ false
unfolding record_operation_start draw_id append operation
unfinished_fails sort v type thread_id value now on pos =
    let w : Validator = (record_operation_start v type thread_id value now).0 in
    let op : Operation = operation type thread_id value now in
    let ops : w.operations ≡ v.operations ++ op ∷ [] = rw (on, record_operation_start) refl in
    elim (Bool-cases (check_sequential_consistency sort w)) [
      | inr no_good ↦ no_good
      | inl good ↦
          let timed : IsTimed (op ∷ []) =
            IsTimed-append v.operations (op ∷ []) (
              subst IsTimed ops (well_timed→IsTimed w.operations (check-well_timed sort w good))) in
          absurd (omega (arith, timed.0, pos))
    ]
