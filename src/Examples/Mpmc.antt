-- ===== src/Examples/Mpmc.antt =====
-- examples/ring_buffer_example.cpp: mpmc_example, two producers and two consumers on one ring.
use mathlib.Core.List.{map}
use lockless_concurrent_fram.Common.{
  ℕ, zero, suc, ◌+◌, ◌*◌, ◌≤◌, ◌<◌, ◌≡◌, refl, ap, ◌∙◌, subst, List, [], ◌∷◌, length, take, drop,
  ltb, ◌==◌, if◌then◌else◌, arith,
}
use lockless_concurrent_fram.Common.Sums.{weight, total}
use lockless_concurrent_fram.Ring.Alone.{Holds}
use lockless_concurrent_fram.Ring.Invariant.Slots.{IsSize}
use lockless_concurrent_fram.Examples.Upto.{upto, weight-upto, total_range, length-map-upto}
use lockless_concurrent_fram.Examples.Fleet.{joined, System, Reach}
use lockless_concurrent_fram.Examples.Fleet.Over.{
  over-sent, over-taken, over-consumed, over-length, over-Holds, over-got, weight_one,
}

-- What thread `i` pushes, and how many items it consumes: threads 0 and 1 are the producers, threads 2
-- and 3 the consumers. ITEMS_PER_PRODUCER, which is 1000 in the program, is an argument.
unfoldable pub mpmc_items : ℕ → ℕ → List ℕ
mpmc_items per_producer i =
    if ltb i 2 then map (λ j. i * per_producer + j) (upto per_producer) else []

unfoldable pub mpmc_quota : ℕ → ℕ → ℕ
mpmc_quota per_producer i = if ltb i 2 then 0 else per_producer

slots_1024 : IsSize 1024
slots_1024 = record { pow = record { exponent = 10; is_pow = refl }; two = omega arith }

items_length : (m : ℕ) → total 4 (λ i. length (mpmc_items m i)) ≡ 2 * m
unfolding mpmc_items
items_length m =
    omega (arith, length-map-upto (λ j. 1 * m + j) m, length-map-upto (λ j. 0 * m + j) m)

-- How often `x` is `y`.
abbrev pub occurs : ℕ → ℕ → ℕ
occurs x y = if y == x then 1 else 0

-- Of two ranges of `m` numbers, one after the other, each number is met once.
ranges_once :
    (m x : ℕ)
    → weight (occurs x) (map (λ j. 1 * m + j) (upto m))
        + weight (occurs x) (map (λ j. 0 * m + j) (upto m))
      ≡ (if ltb x (2 * m) then 1 else 0)
ranges_once m x = ground (
  arith,
  weight-upto (occurs x) (λ j. 1 * m + j) m,
  weight-upto (occurs x) (λ j. 0 * m + j) m,
  total_range (0 * m) m x,
  total_range (1 * m) m x,
)

items_once :
    (m x : ℕ) → total 4 (λ i. weight (occurs x) (mpmc_items m i)) ≡ (if ltb x (2 * m) then 1 else 0)
unfolding mpmc_items
items_once m x = omega (arith, ranges_once m x)

take-all :
    {T : Type 0} (k : ℕ) (xs : List T)
    → length (take k xs) ≡ length xs
    → (take k xs ≡ xs) × (drop k xs ≡ [])
take-all zero [] e = (refl, refl)
take-all (suc k) [] e = (refl, refl)
take-all zero (x ∷ xs) e = absurd (omega (arith, e))
take-all (suc k) (x ∷ xs) e =
    let (f, g) = take-all k xs (omega (arith, e)) in (ap (λ l. x ∷ l) f, g)

-- In mpmc_example, for any number `m` up to 1000 of items per producer (the program has 1000), on
-- its ring of 1024 slots: whatever the interleaving of the two producers and the two consumers,
-- when all four have come to their ends, total_consumed is the number of all items, the ring is
-- empty, and each number below it was consumed exactly once, and no other.
pub all_consumed :
    (m : ℕ) {blank : ℕ} {s : System ℕ}
    → m ≤ 1000
    → Reach 1024 4 (mpmc_items m) (mpmc_quota m) blank s
    → ((i : ℕ) → i < 4 → (s.threads i).call ≡ joined)
    → (s.total_consumed ≡ 2 * m)
      × Holds 1024 s.ring.mem []
      × ((x : ℕ) → weight (occurs x) (map (λ e. e.1) s.ring.out) ≡ (if ltb x (2 * m) then 1 else 0))
unfolding mpmc_quota
all_consumed m {s = s} small r over =
    let room : total 4 (λ i. length (mpmc_items m i)) + 1024 < 0x8000_0000_0000_0000 =
      omega (arith, small, items_length m) in
    let got = over-got r over slots_1024 room in
    let taken = over-taken r over in
    let pushed = over-length r over slots_1024 room ∙ items_length m in
    let all : length (take s.ring.mem.tail s.ring.log) ≡ length s.ring.log =
      omega (arith, got (λ _. 1), weight_one (take s.ring.mem.tail s.ring.log), taken, pushed) in
    let (whole, none_left) = take-all s.ring.mem.tail s.ring.log all in
    (
      omega (arith, over-consumed r over),
      subst (Holds 1024 s.ring.mem) none_left (over-Holds r over slots_1024 room),
      λ x. let w = occurs x in got w ∙ ap (weight w) whole ∙ over-sent r over w ∙ items_once m x,
    )
