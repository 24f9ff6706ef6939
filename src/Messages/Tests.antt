-- ===== src/Messages/Tests.antt =====
-- A message queue of two slots over an arena of eight bytes.
use lockless_concurrent_fram.Common.{◌≡◌, refl, true, false, some, [], ◌∷◌, arith}
use lockless_concurrent_fram.Ring
use lockless_concurrent_fram.Ring.Invariant.Slots.{IsSize}
use lockless_concurrent_fram.Ring.Alone.{Holds, init-Holds}
use lockless_concurrent_fram.Messages.{MessageHandle, ZeroCopyQueue, push_message, get_message_data}
use lockless_concurrent_fram.Messages.Delivery.{push_message-refines, handle_of}

two_slots : IsSize 2
two_slots = record { pow = record { exponent = 1; is_pow = refl }; two = omega arith }

abbrev no_handle : MessageHandle
no_handle = record { offset = 0; size = 0 }

abbrev fresh : ZeroCopyQueue
fresh = record {
  queue = record { sequences = λ i. i; buffer = λ _. no_handle; head = 0; tail = 0 };
  arena = record { base = 100; write_offset = 4; size = 8 };
}

fresh-Holds : Holds 2 fresh.queue []
fresh-Holds = init-Holds 2 two_slots no_handle (omega arith)

push_message-refines_example :
    (queue : Ring.Memory MessageHandle) × (push_message 2 (false ∷ []) fresh 102 2
      ≡ some (record fresh { queue = queue }, true))
    × Holds 2 queue (handle_of fresh.arena 102 2 ∷ [])
    × (get_message_data fresh (handle_of fresh.arena 102 2) ≡ some 102)
push_message-refines_example =
    push_message-refines 2 two_slots fresh (false ∷ []) 102 2 fresh-Holds (omega arith) refl
      (omega arith)
