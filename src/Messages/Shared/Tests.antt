-- ===== src/Messages/Shared/Tests.antt =====
-- Two producers and a consumer, over a queue of two slots and an arena of eight bytes.
use lockless_concurrent_fram.Common.{ℕ, zero, suc, ◌≡◌, ◌⊎◌, refl, false, arith}
use lockless_concurrent_fram.Ring
use lockless_concurrent_fram.Ring.Invariant.Slots.{IsSize}
use lockless_concurrent_fram.Arena
use lockless_concurrent_fram.Arena.{get_offset}
use lockless_concurrent_fram.Messages.{MessageHandle}
use lockless_concurrent_fram.Messages.Shared.{
  System, start, call_prepare, call_push, call_pop, move_arena, move_ring, Reach, here, next,
}
use lockless_concurrent_fram.Messages.Shared.Delivered.{Apart, Message, delivered}

two_slots : IsSize 2
two_slots = record { pow = record { exponent = 1; is_pow = refl }; two = omega arith }

abbrev no_handle : MessageHandle
no_handle = record { offset = 0; size = 0 }

record Played : Type 0 where
  last : System
  reach : Reach 4 2 100 8 no_handle last

-- `n` steps of thread `i` in a call of the arena, or of the ring.
abbrev in_arena : ℕ → ℕ → Played → Played
in_arena zero i s = s
in_arena (suc n) i s = in_arena n i (record { last = _; reach = next i s.reach (move_arena false) })

abbrev in_ring : ℕ → ℕ → Played → Played
in_ring zero i s = s
in_ring (suc n) i s = in_ring n i (record { last = _; reach = next i s.reach (move_ring false) })

-- Both producers have their blocks.
both_prepared : Played
unfolding start Arena.start Arena.init Arena.advance Arena.step Ring.start Ring.init
both_prepared =
    let a : Played = record {
      last = _;
      reach =
          next 1 (next 0 here (call_prepare 3 refl refl (omega arith)))
            (call_prepare 2 refl refl (omega arith));
    } in
    in_arena 2 1 (in_arena 2 0 a)

-- Thread 1 has pushed its message, and then thread 0.
both_pushed : Played
unfolding both_prepared start Arena.start Arena.init Arena.advance Arena.step Ring.start Ring.init
    Ring.advance Ring.step Ring.slot get_offset
both_pushed =
    let a = in_ring 5 1 (record {
      last = _;
      reach = next 1 both_prepared.reach (call_push 2 3 refl refl (λ e. omega (arith, e)));
    }) in
    in_ring 5 0 (record {
      last = _;
      reach = next 0 a.reach (call_push 3 0 refl refl (λ e. omega (arith, e)));
    })

-- Thread 2 has taken both out.
both_taken : Played
unfolding both_pushed both_prepared start Arena.start Arena.init Arena.advance Arena.step Ring.start
    Ring.init Ring.advance Ring.step Ring.slot get_offset
both_taken =
    let a =
      in_ring 5 2 (record { last = _; reach = next 2 both_pushed.reach (call_pop refl refl) }) in
    in_ring 5 2 (record { last = _; reach = next 2 a.reach (call_pop refl refl) })

delivered_example :
    Message 100 8 both_taken.last 0 (record { offset = 3; size = 2 })
    × Message 100 8 both_taken.last 1 (record { offset = 0; size = 3 })
    × (◌≡◌ {A = MessageHandle} (record { offset = 3; size = 2 }) (record { offset = 0; size = 3 })
        ⊎ Apart 3 2 0 3)
unfolding both_taken both_pushed both_prepared start Arena.start Arena.init Arena.advance Arena.step
    Ring.start Ring.init Ring.advance Ring.step Ring.slot get_offset
delivered_example =
    delivered two_slots (omega arith) both_taken.reach (omega arith) 0 1 0 1
      (record { offset = 3; size = 2 }) (record { offset = 0; size = 3 }) refl refl
