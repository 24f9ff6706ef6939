-- ===== src/Validator/Totals.antt =====
-- What print_statistics computes.
use native.Mathlib.Nat.{suc-mul, add_comm, div-le_of_le-mul}
use lockless_concurrent_fram.Common.{
  ℕ, suc, ◌+◌, ◌*◌, ◌/◌, ◌≤◌, ◌<◌, ◌≡◌, ◌≢◌, refl, ◌∙◌, some, List, [], ◌∷◌, length, arith,
}
use lockless_concurrent_fram.Common.Words.{word64, sub64}
use lockless_concurrent_fram.Validator.{Operation, Validator, sum_up, Statistics, print_statistics}

-- No operation took longer than `d`, or ended before it started.
abbrev pub Lasts : ℕ → List Operation → Type 0
Lasts d [] = Unit
Lasts d (op ∷ ops) =
    (op.start_time_ns ≤ op.end_time_ns)
    × (op.end_time_ns ≤ op.start_time_ns + d)
    × (op.end_time_ns < word64)
    × Lasts d ops

successful-le : (ops : List Operation) → (sum_up ops).0 ≤ length ops
unfolding sum_up
successful-le [] = omega arith
successful-le (op ∷ ops) = ground (arith, successful-le ops)

duration-le :
    (d : ℕ) (ops : List Operation)
    → length ops * d < word64
    → Lasts d ops
    → (sum_up ops).1 ≤ length ops * d
unfolding sum_up
duration-le d [] room h = omega arith
duration-le d (op ∷ ops) room h =
    let more : suc (length ops) * d ≡ d + length ops * d =
      suc-mul (length ops) d ∙ add_comm (length ops * d) d in
    omega (arith, room, more, h.0, h.1, h.2, duration-le d ops (omega (arith, room, more)) h.3)

-- For at least one operation, when none ended before it started or took longer than `d`, and
-- neither the operations nor `d` for each reach 2 ^ 64, print_statistics prints the number of
-- operations, counts of successes and failures that add up to it, and an average of at most `d`.
pub print_statistics_lem :
    (v : Validator) (d : ℕ)
    → v.operations ≢ []
    → length v.operations < word64
    → length v.operations * d < word64
    → Lasts d v.operations
    → (st : Statistics) × (print_statistics v ≡ some st)
      × (st.total ≡ length v.operations)
      × (st.successful + st.failed ≡ st.total)
      × (st.average_duration ≤ d)
unfolding print_statistics
print_statistics_lem v d some_ops small room h = by_list v.operations refl
  where
    by_list :
        (ops : List Operation)
        → v.operations ≡ ops
        → (st : Statistics) × (print_statistics v ≡ some st)
          × (st.total ≡ length v.operations)
          × (st.successful + st.failed ≡ st.total)
          × (st.average_duration ≤ d)
    by_list [] e = absurd (some_ops e)
    by_list (op ∷ rest) e = (
      record {
        total = length v.operations;
        successful = (sum_up v.operations).0;
        failed = sub64 (length v.operations) (sum_up v.operations).0;
        average_duration = (sum_up v.operations).1 / length v.operations;
      },
      ground (arith, e),
      refl,
      omega (arith, successful-le v.operations, small),
      div-le_of_le-mul (length v.operations) (duration-le d v.operations room h),
    )
