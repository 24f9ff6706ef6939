-- ===== src/Messages/Shared/Delivered.antt =====
-- What consumers get from the queue.
use lockless_concurrent_fram.Common.{
  ℕ, zero, suc, ◌+◌, ◌≤◌, ◌<◌, ◌≡◌, ◌⊎◌, inl, inr, sym, ap, ◌∙◌, some, List, [], ◌∷◌, length, arith,
  get_elem?,
}
use lockless_concurrent_fram.Common.Words.{word64}
use lockless_concurrent_fram.Ring.Carried.{AllOf-get}
use lockless_concurrent_fram.Ring.History.{Genuine}
use lockless_concurrent_fram.Ring.Safety.{in_order}
use lockless_concurrent_fram.Ring.Invariant.Slots.{IsSize}
use lockless_concurrent_fram.Arena.{get}
use lockless_concurrent_fram.Arena.Blocks.{Stacked, blocks_apart}
use lockless_concurrent_fram.Arena.Owned.{Among, Reach-Owned}
use lockless_concurrent_fram.Messages.{MessageHandle, get_message_data}
use lockless_concurrent_fram.Messages.Shared.{System, Reach, queue_of}
use lockless_concurrent_fram.Messages.Shared.Sent.{IsBlock, Reach-Sent}

-- Two ranges of bytes share none.
abbrev pub Apart : (o b o' b' : ℕ) → Type 0
Apart o b o' b' = (o + b ≤ o') ⊎ (o' + b' ≤ o)

Stacked-below :
    (top : ℕ) (blocks : List (ℕ × ℕ)) (o b : ℕ)
    → Stacked top blocks
    → Among (o, b) blocks
    → o + b ≤ top
Stacked-below top [] o b st m = elim m [ ]
Stacked-below top ((o', b') ∷ blocks) o b (le, st) (inl e) =
    omega (arith, le, ap (λ c. c.0) e, ap (λ c. c.1) e)
Stacked-below top ((o', b') ∷ blocks) o b (le, st) (inr m) =
    omega (arith, le, Stacked-below o' blocks o b st m)

-- Of two blocks, either both are the same or they share no byte.
Stacked-Apart :
    (top : ℕ) (blocks : List (ℕ × ℕ)) (o b o' b' : ℕ)
    → Stacked top blocks
    → Among (o, b) blocks
    → Among (o', b') blocks
    → ((o ≡ o') × (b ≡ b')) ⊎ Apart o b o' b'
Stacked-Apart top [] o b o' b' st m n = elim m [ ]
Stacked-Apart top ((p, c) ∷ blocks) o b o' b' (le, st) (inl e) (inl f) =
    inl (ap (λ c. c.0) e ∙ sym (ap (λ c. c.0) f), ap (λ c. c.1) e ∙ sym (ap (λ c. c.1) f))
Stacked-Apart top ((p, c) ∷ blocks) o b o' b' (le, st) (inl e) (inr n) =
    inr (inr (omega (arith, ap (λ c. c.0) e, Stacked-below p blocks o' b' st n)))
Stacked-Apart top ((p, c) ∷ blocks) o b o' b' (le, st) (inr m) (inl f) =
    inr (inl (omega (arith, ap (λ c. c.0) f, Stacked-below p blocks o b st m)))
Stacked-Apart top ((p, c) ∷ blocks) o b o' b' (le, st) (inr m) (inr n) =
    Stacked-Apart p blocks o b o' b' st m n

Genuine-get :
    (log : List MessageHandle) (out : List (ℕ × MessageHandle)) (m t : ℕ) (h : MessageHandle)
    → Genuine log out
    → get_elem? out m ≡ some (t, h)
    → get_elem? log t ≡ some h
Genuine-get log [] m t h g e = cc
Genuine-get log ((u, k) ∷ out) zero t h g e =
    let same : ◌≡◌ {A = ℕ × MessageHandle} (u, k) (t, h) = cc in
    ap (get_elem? log) (sym (ap (λ c. c.0) same)) ∙ g.0 ∙ ap some (ap (λ c. c.1) same)
Genuine-get log ((u, k) ∷ out) (suc m) t h g e = Genuine-get log out m t h g.1 e

-- What is known of a message that a consumer has taken out: it was pushed under its ticket, it has the
-- length of a block, and get_message_data leads to the first byte of that block, all of it in the arena.
pub record Message (base size : ℕ) (s : System) (t : ℕ) (h : MessageHandle) : Type 0 where
  pub pushed : get_elem? s.ring.log t ≡ some h
  pub block : Among (h.offset, h.size) s.arena.blocks
  pub within : h.offset + h.size ≤ size
  pub at : get_message_data (queue_of s) h ≡ some (base + h.offset)

module _ {limit queue_size base size : ℕ} {blank : MessageHandle} (ok : IsSize queue_size)
    (bytes_room : size + limit < word64) {s : System} (r : Reach limit queue_size base size blank s)
    (room : length s.ring.log + queue_size < 0x8000_0000_0000_0000) where
  taken-Message :
      (m t : ℕ) (h : MessageHandle) → get_elem? s.ring.out m ≡ some (t, h) → Message base size s t h
  unfolding get_message_data get
  taken-Message m t h e =
      let inv = Reach-Sent r in
      let owned = Reach-Owned inv.arena in
      let (stacked, top) = blocks_apart limit size bytes_room inv.arena in
      let genuine = (in_order queue_size ok inv.ring room).genuine in
      let pushed = Genuine-get s.ring.log s.ring.out m t h genuine e in
      let (block, inside) =
        AllOf-get (IsBlock size s.arena.blocks) s.ring.log t inv.logged pushed in
      record {
        pushed = pushed;
        block = block;
        within = omega (
          arith,
          top,
          Stacked-below s.arena.mem.write_offset s.arena.blocks h.offset h.size stacked block,
        );
        at = ground (arith, inside, owned.placed, owned.sized);
      }

  -- In every state that threads reach from a new queue by calls of `prepare_message`, of
  -- `push_message` with what it returned and its size, and of `pop_message`, which interleave step
  -- by step, as long as the arena's size plus the largest request stays below 2 ^ 64 and the
  -- number of handles pushed so far plus the ring's size, a power of two from 2 on, below 2 ^ 63:
  -- of any two handles that were taken out, each was pushed under its ticket and has the offset
  -- and the length of a block that was allocated, which lies inside the arena, and
  -- `get_message_data` leads to its first byte; and the two are equal or share no byte.
  pub delivered :
      (m n t u : ℕ) (h k : MessageHandle)
      → get_elem? s.ring.out m ≡ some (t, h)
      → get_elem? s.ring.out n ≡ some (u, k)
      → Message base size s t h
        × Message base size s u k
        × ((h ≡ k) ⊎ Apart h.offset h.size k.offset k.size)
  delivered m n t u h k e f =
      let x = taken-Message m t h e in
      let y = taken-Message n u k f in
      let (stacked, top) = blocks_apart limit size bytes_room (Reach-Sent r).arena in
      (
        x,
        y,
        elim (Stacked-Apart s.arena.mem.write_offset s.arena.blocks h.offset h.size k.offset k.size
            stacked x.block y.block) [ inl (same, same') ↦ inl (cc) | inr apart ↦ inr apart ],
      )
