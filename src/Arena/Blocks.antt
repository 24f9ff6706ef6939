-- ===== src/Arena/Blocks.antt =====
-- Blocks that threads allocate from one arena at the same time never overlap.
use lockless_concurrent_fram.Common.{
  ℕ, ◌+◌, ◌≤◌, ◌<◌, ◌≡◌, refl, Bool, List, [], ◌∷◌, update_all, arith,
}
use lockless_concurrent_fram.Common.Words.{word64}
use lockless_concurrent_fram.Arena.{
  Arena, Pc, idle, load, try, init, step, System, blocks_after, advance, Step, call, move, start,
  Reach, here, next,
}

-- The blocks lie below `top`, and each lies beyond the end of all older ones.
abbrev pub Stacked : ℕ → List (ℕ × ℕ) → Type 0
Stacked top [] = Unit
Stacked top ((offset, bytes) ∷ older) = (offset + bytes ≤ top) × Stacked offset older

-- What callers asked for, and how far a thread may have seen the offset move.
abbrev Local : ℕ → Arena → Pc → Type 0
Local limit a (load bytes) = bytes ≤ limit
Local limit a (try bytes current) = (bytes ≤ limit) × (current ≤ a.write_offset)
Local limit a _ = Unit

record Inv (limit size : ℕ) (s : System) : Type 0 where
  sized : s.mem.size ≡ size
  fits : s.mem.write_offset ≤ size
  stacked : Stacked s.mem.write_offset s.blocks
  locals : (i : ℕ) → Local limit s.mem (s.pc i)

module _ (limit size : ℕ) (room : size + limit < word64) where
  Stacked-le :
      (top more : ℕ) (blocks : List (ℕ × ℕ)) → top ≤ more → Stacked top blocks → Stacked more blocks
  Stacked-le top more [] le h = tt
  Stacked-le top more ((o, b) ∷ older) le h = (omega arith, h.1)

  Local-le :
      (a b : Arena) (p : Pc) → a.write_offset ≤ b.write_offset → Local limit a p → Local limit b p
  Local-le a b idle le h = tt
  Local-le a b p le h = ground arith

  -- What one step does to the arena and to the history.
  record Stepped (a : Arena) (p : Pc) (blocks : List (ℕ × ℕ)) (a' : Arena) (p' : Pc) : Type 0 where
    same_size : a'.size ≡ a.size
    grows : a.write_offset ≤ a'.write_offset
    within : a'.write_offset ≤ a.size
    above : Stacked a'.write_offset (blocks_after p p' blocks)
    local : Local limit a' p'

  step-Stepped :
      (spurious : Bool) (a : Arena) (p : Pc) (blocks : List (ℕ × ℕ))
      → a.size ≡ size
      → a.write_offset ≤ a.size
      → Stacked a.write_offset blocks
      → Local limit a p
      → Stepped a p blocks (step spurious a p).0 (step spurious a p).1
  unfolding step
  step-Stepped b a idle blocks e le st loc = ground arith
  step-Stepped b a p blocks e le st loc = ground arith

  Step-Inv : {s t : System} → Step limit s t → Inv limit size s → Inv limit size t
  unfolding advance
  Step-Inv {s} (call i bytes e le) inv = record {
    sized = inv.sized;
    fits = inv.fits;
    stacked = inv.stacked;
    locals = update_all (Local limit s.mem) s.pc i (load bytes) le (λ j _. inv.locals j);
  }
  Step-Inv {s} (move i b) inv =
      let d =
        step-Stepped b s.mem (s.pc i) s.blocks inv.sized (omega (arith, inv.sized, inv.fits))
          inv.stacked (inv.locals i) in
      let a' = (step b s.mem (s.pc i)).0 in
      record {
        sized = omega (arith, d.same_size, inv.sized);
        fits = omega (arith, d.within, inv.sized);
        stacked = d.above;
        locals =
            update_all (Local limit a') s.pc i (step b s.mem (s.pc i)).1 d.local
              (λ j _. Local-le s.mem a' (s.pc j) d.grows (inv.locals j));
      }

  Reach-Inv : {base : ℕ} {s : System} → Reach limit base size s → Inv limit size s
  unfolding start init
  Reach-Inv here = record { sized = refl; fits = omega arith; stacked = tt; locals = λ i. tt }
  Reach-Inv (next r st) = Step-Inv st (Reach-Inv r)

  -- If the arena's size plus the largest request stays below 2 ^ 64, then in every state that
  -- threads reach, the blocks allocated lie below the offset, each beyond the end of all older
  -- ones, and the offset is at most the size.
  pub blocks_apart :
      {base : ℕ} {s : System}
      → Reach limit base size s
      → Stacked s.mem.write_offset s.blocks × (s.mem.write_offset ≤ size)
  blocks_apart r = ((Reach-Inv r).stacked, (Reach-Inv r).fits)
