-- ===== src/Validator/Recording.antt =====
-- What is recorded between `start_recording` and `stop_recording`.
use lockless_concurrent_fram.Common.{
  ℕ, ◌+◌, ◌<◌, ◌≡◌, refl, sym, ap, ◌∙◌, inl, inr, Bool-cases, Bool, true, false, some, List, [],
  ◌∷◌, ◌++◌, append_assoc, length, length-append, length-snoc, ltb, ◌==◌, if◌then◌else◌, arith,
}
use lockless_concurrent_fram.Common.Words.{add64, max64}
use lockless_concurrent_fram.Validator.{
  OperationType, Operation, Validator, operation, draw_id, append, record_operation_start, change,
  record_operation_end, scope_begin, scope_end,
}

-- The next id is the next position.
abbrev pub IsNumbered : Validator → Type 0
IsNumbered v = v.operation_counter ≡ length v.operations

-- What `record_operation_end` writes.
abbrev pub finished : Bool → ℕ → ℕ → Operation → Operation
finished success result_value now op = record op {
  end_time_ns = now;
  success = success;
  value = result_value;
}

pub change-middle :
    (f : Operation → Operation) (before : List Operation) (op : Operation) (after : List Operation)
    → change (length before) f (before ++ op ∷ after) ≡ before ++ f op ∷ after
unfolding change
change-middle f [] op after = refl
change-middle f (x ∷ before) op after = ap (◌∷◌ x) (change-middle f before op after)

-- An end with the position of an operation as the id.
pub end_at :
    (v : Validator) (before : List Operation) (op : Operation) (after : List Operation)
    (success : Bool) (result_value now : ℕ)
    → v.recording ≡ true
    → v.operations ≡ before ++ op ∷ after
    → length v.operations < max64
    → record_operation_end v (length before) success result_value now
      ≡ record v { operations = before ++ finished success result_value now op ∷ after }
unfolding record_operation_end
end_at v before op after success result_value now on e small =
    let len : length v.operations ≡ length before + length (op ∷ after) =
      ap length e ∙ length-append before (op ∷ after) in
    let known : (length before == max64) ≡ false = ground (arith, len, small) in
    let inside : ltb (length before) (length v.operations) ≡ true = ground (arith, len) in
    let changed : change (length before) (finished success result_value now) v.operations
        ≡ before ++ finished success result_value now op ∷ after =
      ap (change (length before) (finished success result_value now)) e
      ∙ change-middle (finished success result_value now) before op after in
    let ended : record_operation_end v (length before) success result_value now ≡ record v {
      operations = change (length before) (finished success result_value now) v.operations;
    } =
      ground (arith, known, on, inside) in
    ended ∙ ap (λ ops. record v { operations = ops }) changed

-- In a validator that records and whose counter is the number of its operations,
-- `record_operation_start` keeps the counter so; and whatever else is appended after it, while
-- there are fewer than 2 ^ 64 - 1 operations and recording is on, `record_operation_end` with its
-- id completes just that operation.
pub start_then_end :
    (v w : Validator) (type : OperationType) (thread_id value now : ℕ) (more : List Operation)
    (success : Bool) (result_value later : ℕ)
    → v.recording ≡ true
    → IsNumbered v
    → w.recording ≡ true
    → w.operations ≡ (record_operation_start v type thread_id value now).0.operations ++ more
    → length w.operations < max64
    → IsNumbered (record_operation_start v type thread_id value now).0
      × (record_operation_end w
            (record_operation_start v type thread_id value now).1
            success
            result_value
            later
          ≡ record w {
            operations =
                v.operations
                ++ finished success result_value later (operation type thread_id value now) ∷ more;
          })
unfolding record_operation_start draw_id append
start_then_end v w type thread_id value now more success result_value later on numbered on' e
      small =
    let op : Operation = operation type thread_id value now in
    let started : record_operation_start v type thread_id value now
        ≡ (append (draw_id v).0 op, v.operation_counter) =
      rw (on, record_operation_start) refl in
    let e' : w.operations ≡ v.operations ++ op ∷ more =
      e ∙ (ap (λ r. r.0.operations ++ more) started ∙ append_assoc v.operations (op ∷ []) more) in
    let len : length w.operations ≡ length v.operations + length (op ∷ more) =
      ap length e' ∙ length-append v.operations (op ∷ more) in
    (
      rw started (omega (arith, numbered, len, small, length-snoc v.operations op)),
      ap (λ r. record_operation_end w r.1 success result_value later) started
          ∙ (ap (λ n. record_operation_end w n success result_value later) numbered
              ∙ end_at w v.operations op more success result_value later on' e' small),
    )

-- In a validator whose counter is the number of its operations, fewer than 2 ^ 64 - 2 of them: a
-- scope that runs alone leaves one more operation, completed with what was set, if recording is on,
-- and changes nothing otherwise.
pub scoped_lem :
    (v : Validator) (type : OperationType) (thread_id value now : ℕ) (success : Bool)
    (result later : ℕ)
    → IsNumbered v
    → length v.operations + 1 < max64
    → let (w, scope) = scope_begin (some v) type thread_id value now in
      scope_end w (record scope { success = success; result = result }) later
      ≡ some (
          if v.recording
          then record v {
            operations =
                v.operations
                ++ finished success result later (operation type thread_id value now) ∷ [];
            operation_counter = v.operation_counter + 1;
          }
          else v)
unfolding scope_begin scope_end record_operation_start draw_id append
scoped_lem v type thread_id value now success result later numbered small =
    let op : Operation = operation type thread_id value now in
    elim (Bool-cases v.recording) [
      | inr off ↦ ground (arith, off)
      | inl on ↦
          let w : Validator = append (draw_id v).0 op in
          let begun : scope_begin (some v) type thread_id value now
              ≡ (some w, record { op_id = v.operation_counter; success = false; result = 0 }) =
            ground (arith, on) in
          let id : (v.operation_counter == max64) ≡ false = ground (arith, numbered, small) in
          let ended : scope_end (some w)
                (record { op_id = v.operation_counter; success = success; result = result }) later
              ≡ some (record_operation_end w v.operation_counter success result later) =
            rw (id, scope_end) refl in
          let fits : length w.operations < max64 =
            omega (arith, small, length-snoc v.operations op) in
          let next : add64 v.operation_counter 1 ≡ v.operation_counter + 1 =
            omega (arith, numbered, small) in
          let done : Validator = record v {
            operations = v.operations ++ finished success result later op ∷ [];
            operation_counter = v.operation_counter + 1;
          } in
          let as_done : record w {
            operations = v.operations ++ finished success result later op ∷ [];
          }
              ≡ done =
            ap
              (λ n. record v {
                operations = v.operations ++ finished success result later op ∷ [];
                operation_counter = n;
              })
              next in
          ap (λ r. scope_end r.0 (record r.1 { success = success; result = result }) later) begun
          ∙ (ended
              ∙ (ap some (
                    ap (λ n. record_operation_end w n success result later) numbered
                    ∙ (end_at w v.operations op [] success result later on refl fits ∙ as_done))
                  ∙ ap (λ b. some (if b then done else v)) (sym on)))
    ]
