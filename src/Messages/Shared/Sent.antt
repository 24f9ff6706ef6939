-- ===== src/Messages/Shared/Sent.antt =====
-- The handles on their way through the queue, and the blocks of the arena.
use lockless_concurrent_fram.Common.{ℕ, ◌+◌, ◌<◌, ◌≡◌, ◌≢◌, sym, subst, List, update_all, arith}
use lockless_concurrent_fram.Common.Words.{max64}
use lockless_concurrent_fram.Ring
use lockless_concurrent_fram.Ring.Carried.{AllOf, Carries, advance-Carries, AllOf-map, Carries-map}
use lockless_concurrent_fram.Arena
use lockless_concurrent_fram.Arena.{allocated, load, try, get_offset}
use lockless_concurrent_fram.Arena.Owned.{Among, Owns, Reach-Owned, advance-Among}
use lockless_concurrent_fram.Messages.{MessageHandle}
use lockless_concurrent_fram.Messages.Shared.{
  System, start, Step, call_prepare, call_push, call_push_foreign, call_pop, move_arena, move_ring,
  Reach, here, next, handle_at,
}

-- The handle of a block that was allocated, whose first byte is in the arena.
abbrev pub IsBlock : ℕ → List (ℕ × ℕ) → MessageHandle → Type 0
IsBlock size blocks h = Among (h.offset, h.size) blocks × (h.offset < size)

get_offset-inside :
    (a : Arena.Arena) (offset : ℕ)
    → get_offset a (a.base + offset) ≢ max64
    → (get_offset a (a.base + offset) ≡ offset) × (offset < a.size)
unfolding get_offset
get_offset-inside a offset ne = ground (arith, ne)

pub record Sent (limit queue_size base size : ℕ) (blank : MessageHandle) (s : System) : Type 0 where
  pub arena : Arena.Reach limit base size s.arena
  pub ring : Ring.Reach queue_size blank s.ring
  pub carried : (i : ℕ) → Carries (IsBlock size s.arena.blocks) (s.ring.pc i)
  pub logged : AllOf (IsBlock size s.arena.blocks) s.ring.log

module _ {limit queue_size base size : ℕ} {blank : MessageHandle} where
  Step-Sent :
      (i : ℕ) {s t : System}
      → Step limit queue_size i s t
      → Sent limit queue_size base size blank s
      → Sent limit queue_size base size blank t
  Step-Sent i {s} (call_prepare bytes e f le) inv = record {
    arena = Arena.next inv.arena (Arena.call i bytes e le);
    ring = inv.ring;
    carried = inv.carried;
    logged = inv.logged;
  }
  Step-Sent i {s} (call_push bytes offset e f ne) inv =
      let owned = Reach-Owned inv.arena in
      let (same, inside) = get_offset-inside s.arena.mem offset ne in
      let h = handle_at s.arena.mem offset bytes in
      let block : IsBlock size s.arena.blocks h = (
        subst (λ o. Among (o, bytes) s.arena.blocks) (sym same)
            (subst (Owns s.arena.blocks) e (owned.owns i)),
        omega (arith, same, inside, owned.sized),
      ) in
      record {
        arena = inv.arena;
        ring = Ring.next inv.ring (Ring.call_push i h f);
        carried =
            update_all (Carries (IsBlock size s.arena.blocks)) s.ring.pc i (Ring.push_load h) block
              (λ j _. inv.carried j);
        logged = inv.logged;
      }
  Step-Sent i (call_push_foreign bytes offset e f g) inv = inv
  Step-Sent i {s} (call_pop e f) inv = record {
    arena = inv.arena;
    ring = Ring.next inv.ring (Ring.call_pop i f);
    carried =
        update_all (Carries (IsBlock size s.arena.blocks)) s.ring.pc i Ring.pop_load tt
          (λ j _. inv.carried j);
    logged = inv.logged;
  }
  Step-Sent i {s} (move_arena b) inv =
      let blocks = (Arena.advance i b s.arena).blocks in
      let more : (h : MessageHandle) → IsBlock size s.arena.blocks h → IsBlock size blocks h =
        λ h (m, lt). (advance-Among inv.arena i b (h.offset, h.size) m, lt) in
      record {
        arena = Arena.next inv.arena (Arena.move i b);
        ring = inv.ring;
        carried = λ j.
            Carries-map (IsBlock size s.arena.blocks) (IsBlock size blocks) more (s.ring.pc j)
              (inv.carried j);
        logged =
            AllOf-map (IsBlock size s.arena.blocks) (IsBlock size blocks) more s.ring.log
              inv.logged;
      }
  Step-Sent i {s} (move_ring b) inv =
      let (carried, logged) =
        advance-Carries (IsBlock size s.arena.blocks) queue_size i b s.ring inv.carried
          inv.logged in
      record {
        arena = inv.arena;
        ring = Ring.next inv.ring (Ring.move i b);
        carried = carried;
        logged = logged;
      }

  pub Reach-Sent :
      {s : System}
      → Reach limit queue_size base size blank s
      → Sent limit queue_size base size blank s
  unfolding start Ring.start
  Reach-Sent here = record { arena = Arena.here; ring = Ring.here; carried = λ i. tt; logged = tt }
  Reach-Sent (next i r st) = Step-Sent i st (Reach-Sent r)
