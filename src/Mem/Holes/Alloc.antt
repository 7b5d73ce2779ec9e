-- ===== src/Mem/Holes/Alloc.antt =====
-- `Kmem_alloc` of ker/mem.c.
use mathlib.Core.Path.{subst}
use myos_ia.Prelude.{
  ℕ, ◌+◌, ◌-◌, ◌^◌, ◌<◌, ◌≡◌, ◌⊎◌, refl, sym, ◌∙◌, true, false, ◌&&◌, none, some, List, [], ◌∷◌,
  arith, ltb, leb, ◌==◌, Bool-cases, inl, inr,
}
use myos_ia.Mem.Holes.{
  Hole, Mem, busy, free, is_free, Search, found, no_slot, no_fit, split, behind, search_hole,
  finish, kmem_alloc,
}
use myos_ia.Mem.Holes.Valid.{
  Tiles, Coalesced, head_free, times, uses, has_block, has_room, fits, IsValid, Tiles-le,
}

-- What a successful search from `lo` to `hi` makes of the holes and the unused entries.
record Taken (lo hi size : ℕ) (hs : List Hole) (slots : List ℕ) (hs' : List Hole) (slots' : List ℕ)
    (base : ℕ) : Type 0 where
  tiles : Tiles lo hi hs'
  coalesced : Coalesced hs'
  first : head_free hs ≡ false → head_free hs' ≡ false
  entries : (a : ℕ) → uses a hs' + times a slots' ≡ uses a hs + times a slots
  block : has_block base size hs' ≡ true
  room : has_room base size hs ≡ true

-- Where a search ends, by its outcome.
abbrev Outcome : ℕ → ℕ → ℕ → List Hole → List ℕ → Search → Type 0
Outcome lo hi size hs slots (found hs' slots' base) = Taken lo hi size hs slots hs' slots' base
Outcome lo hi size hs slots no_slot = (slots ≡ []) × (fits size hs ≡ true)
Outcome lo hi size hs slots no_fit = fits size hs ≡ false

behind-Outcome :
    (lo hi size : ℕ) (h : Hole) (hs : List Hole) (slots : List ℕ) (r : Search)
    → h.base ≡ lo
    → 0 < h.size
    → ((is_free h.status && head_free hs) ≡ false)
    → (leb size h.size && is_free h.status) ≡ false
    → Outcome (lo + h.size) hi size hs slots r
    → Outcome lo hi size (h ∷ hs) slots (behind h r)
unfolding behind
behind-Outcome lo hi size h hs slots (found hs' slots' base) b pos nb miss o = record {
  tiles = (b, pos, o.tiles);
  coalesced = (ground (arith, o.first), o.coalesced);
  first = λ e. e;
  entries = λ a. ground (arith, o.entries a);
  block = ground (arith, o.block);
  room = ground (arith, o.room);
}
behind-Outcome lo hi size h hs slots no_slot b pos nb miss o = ground arith
behind-Outcome lo hi size h hs slots no_fit b pos nb miss o = ground arith

split-Outcome :
    (lo hi size : ℕ) (h : Hole) (hs : List Hole) (slots : List ℕ)
    → 0 < size
    → hi < 2 ^ 32
    → Tiles lo hi (h ∷ hs)
    → Coalesced (h ∷ hs)
    → h.status ≡ free
    → size < h.size
    → Outcome lo hi size (h ∷ hs) slots (split size h hs slots)
unfolding split
split-Outcome lo hi size h hs [] pos r t c f lt = (refl, ground arith)
split-Outcome lo hi size h hs (s ∷ slots) pos r t c f lt =
    let end : lo + h.size ≡ lo + size + (h.size - size) = omega arith in
    record {
      tiles = (
        t.0,
        pos,
        (
          omega (arith, Tiles-le (lo + h.size) hi hs t.2),
          omega arith,
          subst (λ b. Tiles b hi hs) end t.2,
        ),
      );
      coalesced = (refl, (ground arith, c.1));
      first = λ e. refl;
      entries = λ a. ground arith;
      block = ground arith;
      room = ground arith;
    }

equal-Taken :
    (lo hi size : ℕ) (h : Hole) (hs : List Hole) (slots : List ℕ)
    → Tiles lo hi (h ∷ hs)
    → Coalesced (h ∷ hs)
    → h.status ≡ free
    → h.size ≡ size
    → Taken lo hi size (h ∷ hs) slots (record h { status = busy } ∷ hs) slots h.base
equal-Taken lo hi size h hs slots t c f e = record {
  tiles = t;
  coalesced = (refl, c.1);
  first = λ e. refl;
  entries = λ a. refl;
  block = ground arith;
  room = ground arith;
}

search_hole-Outcome :
    (size lo hi : ℕ) (hs : List Hole) (slots : List ℕ)
    → 0 < size
    → hi < 2 ^ 32
    → Tiles lo hi hs
    → Coalesced hs
    → Outcome lo hi size hs slots (search_hole size hs slots)
unfolding search_hole
search_hole-Outcome size lo hi [] slots pos r t c = refl
search_hole-Outcome size lo hi (h ∷ hs) slots pos r t c =
    let later = behind-Outcome lo hi size h hs slots (search_hole size hs slots) t.0 t.1 c.0 in
    let rest = search_hole-Outcome size (lo + h.size) hi hs slots pos r t.2 c.1 in
    elim (Bool-cases (is_free h.status)) [
      | inr taken ↦ rw taken (later (ground arith) rest)
      | inl is_open ↦ elim (Bool-cases (ltb size h.size)) [
        | inl larger ↦
            rw (is_open, larger)
              (split-Outcome lo hi size h hs slots pos r t c (ground arith) (ground arith))
        | inr not_larger ↦ elim (Bool-cases (h.size == size)) [
          | inl equal ↦
              rw (is_open, not_larger, equal)
                (equal-Taken lo hi size h hs slots t c (ground arith) (ground arith))
          | inr smaller ↦ rw (is_open, not_larger, smaller) (later (ground arith) rest)
        ]
      ]
    ]

-- A block of `size` bytes is taken from the holes of `m` at `base`, and the holes become those of
-- `m'`: they still tile the memory with no two free neighbours, no entry of `mem_hole` is lost or
-- doubled, and the interrupt flag is restored.
pub record Allocated (lo hi size base : ℕ) (m m' : Mem) : Type 0 where
  pub valid : IsValid lo hi m'
  pub entries : (a : ℕ) → uses a m'.holes + times a m'.slots ≡ uses a m.holes + times a m.slots
  pub block : has_block base size m'.holes ≡ true
  pub room : has_room base size m.holes ≡ true
  pub same_irq : m'.irq ≡ m.irq

finish-Allocated :
    (lo hi size : ℕ) (m : Mem) (r : Search) (base : ℕ) (m' : Mem)
    → IsValid lo hi m
    → Outcome lo hi size m.holes m.slots r
    → finish m r ≡ (some base, m')
    → Allocated lo hi size base m m'
unfolding finish
finish-Allocated lo hi size m (found hs slots b) base m' v o e =
    let same_base : b ≡ base = cc in
    let same : record m { holes = hs; slots = slots } ≡ m' = cc in
    rw (← same, ← same_base)
      (record {
        valid = record { tiles = o.tiles; coalesced = o.coalesced; in_range = v.in_range };
        entries = o.entries;
        block = o.block;
        room = o.room;
        same_irq = refl;
      })
finish-Allocated lo hi size m no_slot base m' v o e = cc
finish-Allocated lo hi size m no_fit base m' v o e = cc

finish-none :
    (lo hi size : ℕ) (m : Mem) (r : Search) (m' : Mem)
    → Outcome lo hi size m.holes m.slots r
    → finish m r ≡ (none, m')
    → ((fits size m.holes ≡ false) × (m' ≡ m))
      ⊎ ((m.slots ≡ []) × (fits size m.holes ≡ true) × (m' ≡ record m { irq = false }))
unfolding finish
finish-none lo hi size m (found hs slots b) m' o e = cc
finish-none lo hi size m no_slot m' o e = ground arith
finish-none lo hi size m no_fit m' o e = ground arith

pub kmem_alloc-pos :
    (size : ℕ) (m : Mem)
    → 0 < size
    → kmem_alloc size m ≡ finish m (search_hole size m.holes m.slots)
unfolding kmem_alloc
kmem_alloc-pos size m pos = ground arith

pub size-pos :
    (size : ℕ) (m : Mem) (base : ℕ) (m' : Mem) → kmem_alloc size m ≡ (some base, m') → 0 < size
unfolding kmem_alloc
size-pos size m base m' e = ground arith

-- When `Kmem_alloc` returns an address, a block of the requested size begins there, cut from a free
-- hole with room for it, and the hole list keeps its invariant, its entries and the interrupt flag.
pub kmem_alloc-Allocated :
    (lo hi size : ℕ) (m : Mem) (base : ℕ) (m' : Mem)
    → IsValid lo hi m
    → kmem_alloc size m ≡ (some base, m')
    → Allocated lo hi size base m m'
kmem_alloc-Allocated lo hi size m base m' v e =
    let pos = size-pos size m base m' e in
    finish-Allocated lo hi size m (search_hole size m.holes m.slots) base m' v
      (search_hole-Outcome size lo hi m.holes m.slots pos v.in_range v.tiles v.coalesced)
      (sym (kmem_alloc-pos size m pos) ∙ e)

-- When `Kmem_alloc` returns NULL for a size that is not 0, either no free hole has room and nothing
-- has changed, or there is room but no unused entry of `mem_hole`, and then it returns with the
-- interrupts disabled.
pub kmem_alloc-none :
    (lo hi size : ℕ) (m m' : Mem)
    → IsValid lo hi m
    → 0 < size
    → kmem_alloc size m ≡ (none, m')
    → ((fits size m.holes ≡ false) × (m' ≡ m))
      ⊎ ((m.slots ≡ []) × (fits size m.holes ≡ true) × (m' ≡ record m { irq = false }))
kmem_alloc-none lo hi size m m' v pos e =
    finish-none lo hi size m (search_hole size m.holes m.slots) m'
      (search_hole-Outcome size lo hi m.holes m.slots pos v.in_range v.tiles v.coalesced)
      (sym (kmem_alloc-pos size m pos) ∙ e)
