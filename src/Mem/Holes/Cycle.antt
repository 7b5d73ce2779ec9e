-- ===== src/Mem/Holes/Cycle.antt =====
-- `Kmem_free` undoes `Kmem_alloc`.
use myos_ia.Prelude.{
  ℕ, ◌+◌, ◌-◌, ◌^◌, ◌<◌, ◌≡◌, sym, ◌∙◌, false, some, List, [], ◌∷◌, arith, ltb, ◌==◌, Bool-cases,
  inl, inr, u32,
}
use myos_ia.Mem.Holes.{
  Hole, Mem, busy, free, is_free, Search, found, no_slot, no_fit, split, behind, search_hole,
  release, merge_back, free_behind, free_from, kmem_alloc, kmem_free, finish,
}
use myos_ia.Mem.Holes.Valid.{Tiles, Coalesced, head_free, IsValid, Tiles-le}
use myos_ia.Mem.Holes.Alloc.{kmem_alloc-pos, size-pos}

-- Freeing the block that the search took restores the holes and the unused entries.
abbrev Restores : List Hole → List ℕ → Search → Type 0
Restores hs slots (found hs' slots' base) = free_from base hs' slots' ≡ (hs, slots)
Restores hs slots no_slot = Unit
Restores hs slots no_fit = Unit

-- The same behind a hole `pre` that the search passed over.
abbrev RestoresBehind : Hole → List Hole → List ℕ → Search → Type 0
RestoresBehind pre hs slots (found hs' slots' base) =
    (free_behind base pre hs' slots' ≡ (pre ∷ hs, slots)) × (pre.base < base)
RestoresBehind pre hs slots no_slot = Unit
RestoresBehind pre hs slots no_fit = Unit

-- Releasing a block that was split off its hole joins the two again.
release-split :
    (h : Hole) (rest : List Hole) (slots : List ℕ) (t size : ℕ)
    → h.status ≡ free
    → size < h.size
    → h.base + h.size < 2 ^ 32
    → release
        (record h { size = size; status = busy })
        (record { slot = t; base = u32 (h.base + size); size = h.size - size; status = free }
          ∷ rest)
        slots
      ≡ (h, rest, t ∷ slots)
unfolding release
release-split h rest slots t size f lt r = ground arith

-- Releasing a block that filled its hole gives the hole back.
release-equal :
    (h : Hole) (rest : List Hole) (slots : List ℕ)
    → h.status ≡ free
    → head_free rest ≡ false
    → release (record h { status = busy }) rest slots ≡ (h, rest, slots)
unfolding release
release-equal h [] slots f n = ground arith
release-equal h (i ∷ rest) slots f n = ground arith

-- A free hole joins no hole before it that is not free.
merge_back-shut :
    (pre h : Hole) (rest : List Hole) (slots : List ℕ)
    → is_free pre.status ≡ false
    → merge_back pre (h, rest, slots) ≡ (pre ∷ h ∷ rest, slots)
unfolding merge_back
merge_back-shut pre h rest slots n = ground arith

behind-RestoresBehind :
    (pre h : Hole) (hs : List Hole) (slots : List ℕ) (r : Search)
    → pre.base < h.base
    → RestoresBehind h hs slots r
    → RestoresBehind pre (h ∷ hs) slots (behind h r)
unfolding behind free_behind
behind-RestoresBehind pre h hs slots (found hs' slots' base) lt o = (ground arith, ground arith)
behind-RestoresBehind pre h hs slots no_slot lt o = tt
behind-RestoresBehind pre h hs slots no_fit lt o = tt

split-RestoresBehind :
    (pre h : Hole) (hs : List Hole) (slots : List ℕ) (size : ℕ)
    → h.status ≡ free
    → size < h.size
    → h.base + h.size < 2 ^ 32
    → pre.base < h.base
    → is_free pre.status ≡ false
    → RestoresBehind pre (h ∷ hs) slots (split size h hs slots)
unfolding split free_behind
split-RestoresBehind pre h hs [] size f lt r p n = tt
split-RestoresBehind pre h hs (t ∷ slots) size f lt r p n =
    (ground (arith, release-split h hs slots t size, merge_back-shut pre h hs (t ∷ slots)), p)

search_hole-RestoresBehind :
    (size lo hi : ℕ) (pre : Hole) (hs : List Hole) (slots : List ℕ)
    → 0 < size
    → hi < 2 ^ 32
    → Tiles lo hi (pre ∷ hs)
    → Coalesced (pre ∷ hs)
    → RestoresBehind pre hs slots (search_hole size hs slots)
unfolding search_hole free_behind
search_hole-RestoresBehind size lo hi pre [] slots pos r t c = tt
search_hole-RestoresBehind size lo hi pre (h ∷ hs) slots pos r t c =
    let rest = search_hole-RestoresBehind size (lo + pre.size) hi h hs slots pos r t.2 c.1 in
    let before : pre.base < h.base = omega arith in
    let bound : h.base + h.size < 2 ^ 32 =
      omega (arith, Tiles-le (lo + pre.size + h.size) hi hs t.2.2) in
    let later = behind-RestoresBehind pre h hs slots (search_hole size hs slots) before rest in
    elim (Bool-cases (is_free h.status)) [
      | inr taken ↦ rw taken later
      | inl is_open ↦ elim (Bool-cases (ltb size h.size)) [
        | inl larger ↦
            rw (is_open, larger)
              (split-RestoresBehind pre h hs slots size (ground arith) (ground arith) bound before
                (ground arith))
        | inr not_larger ↦ elim (Bool-cases (h.size == size)) [
          | inr smaller ↦ rw (is_open, not_larger, smaller) later
          | inl equal ↦
              rw (is_open, not_larger, equal)
                (ground (arith, release-equal h hs slots, merge_back-shut pre h hs slots), before)
        ]
      ]
    ]

split-Restores :
    (h : Hole) (hs : List Hole) (slots : List ℕ) (size : ℕ)
    → h.status ≡ free
    → size < h.size
    → h.base + h.size < 2 ^ 32
    → Restores (h ∷ hs) slots (split size h hs slots)
unfolding split free_from
split-Restores h hs [] size f lt r = tt
split-Restores h hs (t ∷ slots) size f lt r = ground (arith, release-split h hs slots t size)

behind-Restores :
    (h : Hole) (hs : List Hole) (slots : List ℕ) (r : Search)
    → RestoresBehind h hs slots r
    → Restores (h ∷ hs) slots (behind h r)
unfolding behind free_from
behind-Restores h hs slots (found hs' slots' base) o = ground arith
behind-Restores h hs slots no_slot o = tt
behind-Restores h hs slots no_fit o = tt

search_hole-Restores :
    (size lo hi : ℕ) (hs : List Hole) (slots : List ℕ)
    → 0 < size
    → hi < 2 ^ 32
    → Tiles lo hi hs
    → Coalesced hs
    → Restores hs slots (search_hole size hs slots)
unfolding search_hole free_from
search_hole-Restores size lo hi [] slots pos r t c = tt
search_hole-Restores size lo hi (h ∷ hs) slots pos r t c =
    let bound : h.base + h.size < 2 ^ 32 = omega (arith, Tiles-le (lo + h.size) hi hs t.2) in
    let later =
      behind-Restores h hs slots (search_hole size hs slots)
        (search_hole-RestoresBehind size lo hi h hs slots pos r t c) in
    elim (Bool-cases (is_free h.status)) [
      | inr taken ↦ rw taken later
      | inl is_open ↦ elim (Bool-cases (ltb size h.size)) [
        | inl larger ↦
            rw (is_open, larger)
              (split-Restores h hs slots size (ground arith) (ground arith) bound)
        | inr not_larger ↦ elim (Bool-cases (h.size == size)) [
          | inr smaller ↦ rw (is_open, not_larger, smaller) later
          | inl equal ↦ rw (is_open, not_larger, equal) (ground (arith, release-equal h hs slots))
        ]
      ]
    ]

finish-free :
    (m : Mem) (r : Search) (base : ℕ) (m' : Mem)
    → Restores m.holes m.slots r
    → finish m r ≡ (some base, m')
    → kmem_free base m' ≡ m
unfolding finish kmem_free
finish-free m (found hs slots b) base m' o e = ground arith
finish-free m no_slot base m' o e = cc
finish-free m no_fit base m' o e = cc

-- From a hole list that keeps its invariant, an allocation that succeeds followed by the release of
-- the address that it returned gives back the very same hole list.
pub kmem_free-kmem_alloc :
    (lo hi size base : ℕ) (m m' : Mem)
    → IsValid lo hi m
    → kmem_alloc size m ≡ (some base, m')
    → kmem_free base m' ≡ m
kmem_free-kmem_alloc lo hi size base m m' v e =
    let pos = size-pos size m base m' e in
    finish-free m (search_hole size m.holes m.slots) base m'
      (search_hole-Restores size lo hi m.holes m.slots pos v.in_range v.tiles v.coalesced)
      (sym (kmem_alloc-pos size m pos) ∙ e)
