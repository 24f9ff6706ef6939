-- ===== src/Validator/Race.antt =====
-- An id is drawn before the operation is put into the list: two threads may come in the other order.
use lockless_concurrent_fram.Common.{
  ℕ, ◌+◌, ◌<◌, ◌≡◌, ap, ◌∙◌, true, Bool, [], ◌∷◌, ◌++◌, append_assoc, length, length-append, arith,
}
use lockless_concurrent_fram.Common.Words.{max64}
use lockless_concurrent_fram.Validator.{Operation, Validator, draw_id, append, record_operation_end}
use lockless_concurrent_fram.Validator.Recording.{IsNumbered, finished, end_at}

-- Thread 1 draws its id, then thread 2 draws one and puts its operation in, then thread 1 puts its own in.
abbrev pub crossed : Validator → Operation → Operation → Validator
crossed v first second = append (append (draw_id (draw_id v).0).0 second) first

-- When a thread draws its id in a validator that records and whose counter is the number of its
-- operations, and a second thread draws one and appends its operation before the first does, the
-- end of the first thread's operation completes that of the second, and leaves its own as it was.
end_of_another :
    (v : Validator) (first second : Operation) (success : Bool) (result_value now : ℕ)
    → v.recording ≡ true
    → IsNumbered v
    → length v.operations + 2 < max64
    → (record_operation_end
        (crossed v first second)
        (draw_id v).1
        success
        result_value
        now).operations
      ≡ v.operations ++ finished success result_value now second ∷ first ∷ []
unfolding draw_id append
end_of_another v first second success result_value now on numbered room =
    let w : Validator = crossed v first second in
    let e : w.operations ≡ v.operations ++ second ∷ first ∷ [] =
      append_assoc v.operations (second ∷ []) (first ∷ []) in
    let len : length w.operations ≡ length v.operations + length (second ∷ first ∷ []) =
      ap length e ∙ length-append v.operations (second ∷ first ∷ []) in
    ap (λ n. (record_operation_end w n success result_value now).operations) numbered
    ∙ ap (λ u. u.operations)
        (end_at w v.operations second (first ∷ []) success result_value now on e
          (omega (arith, len, room)))
