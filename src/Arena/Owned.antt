-- ===== src/Arena/Owned.antt =====
-- The blocks of the history, and what threads got from `allocate`.
use lockless_concurrent_fram.Common.{
  ℕ, ◌≡◌, ◌⊎◌, inl, inr, refl, ◌∙◌, Bool, true, false, List, [], ◌∷◌, update_all, ◌||◌,
  if◌then◌else◌, ◌==◌, ltb, Bool-cases,
}
use lockless_concurrent_fram.Common.Words.{add64}
use lockless_concurrent_fram.Arena.{
  Arena, Pc, idle, load, try, allocated, threw, step, advance, System, call, move, start, init,
  Reach, here, next, blocks_after,
}

abbrev pub Among : ℕ × ℕ → List (ℕ × ℕ) → Type 0
Among b [] = ⊥
Among b (c ∷ blocks) = (b ≡ c) ⊎ Among b blocks

abbrev pub Owns : List (ℕ × ℕ) → Pc → Type 0
Owns blocks (allocated bytes offset) = Among (offset, bytes) blocks
Owns blocks _ = Unit

record Kept (a a' : Arena) (blocks blocks' : List (ℕ × ℕ)) (p : Pc) : Type 0 where
  base : a'.base ≡ a.base
  size : a'.size ≡ a.size
  owned : Owns blocks' p
  grows : (b : ℕ × ℕ) → Among b blocks → Among b blocks'

step-Kept :
    (spurious : Bool) (a : Arena) (p : Pc) (blocks : List (ℕ × ℕ))
    → Owns blocks p
    → let (a', p') = step spurious a p in Kept a a' blocks (blocks_after p p' blocks) p'
unfolding step
step-Kept b a (try bytes current) blocks h = elim (Bool-cases (ltb a.size (add64 current bytes))) [
  | inl full ↦ rw full (record { base = refl; size = refl; owned = tt; grows = λ b m. m })
  | inr fits ↦ elim (Bool-cases (b || (if a.write_offset == current then false else true))) [
    | inl lost ↦ rw (fits, lost) (record { base = refl; size = refl; owned = tt; grows = λ b m. m })
    | inr won ↦
        rw (fits, won) (record { base = refl; size = refl; owned = inl refl; grows = λ b m. inr m })
  ]
]
step-Kept b a idle blocks h = record { base = refl; size = refl; owned = tt; grows = λ b m. m }
step-Kept b a (load bytes) blocks h = record {
  base = refl;
  size = refl;
  owned = tt;
  grows = λ b m. m;
}
step-Kept b a (allocated bytes offset) blocks h = record {
  base = refl;
  size = refl;
  owned = h;
  grows = λ b m. m;
}
step-Kept b a threw blocks h = record { base = refl; size = refl; owned = tt; grows = λ b m. m }

Owns-grows :
    (p : Pc) (blocks blocks' : List (ℕ × ℕ))
    → ((b : ℕ × ℕ) → Among b blocks → Among b blocks')
    → Owns blocks p
    → Owns blocks' p
Owns-grows (allocated bytes offset) blocks blocks' more h = more (offset, bytes) h
Owns-grows idle blocks blocks' more h = tt
Owns-grows (load bytes) blocks blocks' more h = tt
Owns-grows (try bytes current) blocks blocks' more h = tt
Owns-grows threw blocks blocks' more h = tt

-- The arena stays where it is, and each thread that has a pointer has that of a block.
pub record Owned (base size : ℕ) (s : System) : Type 0 where
  pub placed : s.mem.base ≡ base
  pub sized : s.mem.size ≡ size
  pub owns : (i : ℕ) → Owns s.blocks (s.pc i)

advance-Owned :
    {base size : ℕ} (i : ℕ) (spurious : Bool) (s : System)
    → Owned base size s
    → Owned base size (advance i spurious s)
      × ((b : ℕ × ℕ) → Among b s.blocks → Among b (advance i spurious s).blocks)
unfolding advance
advance-Owned i b s inv =
    let kept = step-Kept b s.mem (s.pc i) s.blocks (inv.owns i) in
    let p = (step b s.mem (s.pc i)).1 in
    (
      record {
        placed = kept.base ∙ inv.placed;
        sized = kept.size ∙ inv.sized;
        owns =
            update_all (Owns (blocks_after (s.pc i) p s.blocks)) s.pc i p kept.owned
              (λ j _. Owns-grows (s.pc j) s.blocks _ kept.grows (inv.owns j));
      },
      kept.grows,
    )

module _ {limit base size : ℕ} where
  pub Reach-Owned : {s : System} → Reach limit base size s → Owned base size s
  unfolding start init
  Reach-Owned here = record { placed = refl; sized = refl; owns = λ i. tt }
  Reach-Owned (next {s} r (call i bytes e le)) =
      let inv = Reach-Owned r in
      record {
        placed = inv.placed;
        sized = inv.sized;
        owns = update_all (Owns s.blocks) s.pc i (load bytes) tt (λ j _. inv.owns j);
      }
  Reach-Owned (next {s} r (move i b)) = (advance-Owned i b s (Reach-Owned r)).0

  -- A block stays a block.
  pub advance-Among :
      {s : System}
      → Reach limit base size s
      → (i : ℕ) (spurious : Bool) (b : ℕ × ℕ) → Among b s.blocks
      → Among b (advance i spurious s).blocks
  advance-Among {s} r i spurious = (advance-Owned i spurious s (Reach-Owned r)).1
