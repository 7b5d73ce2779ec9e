-- ===== src/Mem/Holes/Free.antt =====
-- `Kmem_free` of ker/mem.c.
use mathlib.Core.Path.{subst}
use native.Mathlib.Nat.{add_assoc}
use myos_ia.Prelude.{
  ℕ, ◌+◌, ◌^◌, ◌<◌, ◌≡◌, refl, false, ◌&&◌, List, [], ◌∷◌, arith, Bool-cases, inl, inr, u32,
}
use myos_ia.Mem.Holes.{
  Hole, Mem, free, is_free, is_block, release, merge_back, free_behind, free_from, kmem_free,
}
use myos_ia.Mem.Holes.Valid.{Tiles, Coalesced, head_free, times, uses, IsValid, Tiles-le}

-- Holes and unused entries that replace `hs` and `slots` from `lo` to `hi`.
record Kept (lo hi : ℕ) (hs : List Hole) (slots : List ℕ) (out : List Hole × List ℕ) : Type 0 where
  tiles : Tiles lo hi out.0
  coalesced : Coalesced out.0
  entries : (a : ℕ) → uses a out.0 + times a out.1 ≡ uses a hs + times a slots

-- The hole that `release` returns, in front of the others.
abbrev as_list : Hole × List Hole × List ℕ → List Hole × List ℕ
as_list (i, rest, slots) = (i ∷ rest, slots)

record Released (lo hi : ℕ) (i : Hole) (rest : List Hole) (slots : List ℕ)
    (out : Hole × List Hole × List ℕ) : Type 0 where
  kept : Kept lo hi (i ∷ rest) slots (as_list out)
  now_free : out.0.status ≡ free
  same_slot : out.0.slot ≡ i.slot
  next_busy : head_free out.1 ≡ false

release-Released :
    (lo hi : ℕ) (i : Hole) (rest : List Hole) (slots : List ℕ)
    → hi < 2 ^ 32
    → Tiles lo hi (i ∷ rest)
    → Coalesced (i ∷ rest)
    → Released lo hi i rest slots (release i rest slots)
unfolding release
release-Released lo hi i [] slots r t c = record {
  kept = record { tiles = t; coalesced = (refl, tt); entries = λ a. refl };
  now_free = refl;
  same_slot = refl;
  next_busy = refl;
}
release-Released lo hi i (n ∷ rest) slots r t c = elim (Bool-cases (is_free n.status)) [
  | inl is_open ↦
      let fits : u32 (i.size + n.size) ≡ i.size + n.size =
        omega (arith, Tiles-le (lo + i.size + n.size) hi rest t.2.2) in
      rw (is_open, fits)
        (record {
          kept = record {
            tiles =
                (t.0, omega arith, subst (λ b. Tiles b hi rest) (add_assoc lo i.size n.size) t.2.2);
            coalesced = (ground arith, c.1.1);
            entries = λ a. ground arith;
          };
          now_free = refl;
          same_slot = refl;
          next_busy = ground arith;
        })
  | inr shut ↦ rw shut (record {
    kept = record { tiles = t; coalesced = (ground arith, c.1); entries = λ a. refl };
    now_free = refl;
    same_slot = refl;
    next_busy = shut;
  })
]

merge_back-Kept :
    (lo hi : ℕ) (pre i : Hole) (rest : List Hole) (slots : List ℕ) (out : Hole × List Hole × List ℕ)
    → hi < 2 ^ 32
    → Tiles lo hi (pre ∷ i ∷ rest)
    → Coalesced (pre ∷ i ∷ rest)
    → Released (lo + pre.size) hi i rest slots out
    → Kept lo hi (pre ∷ i ∷ rest) slots (merge_back pre out)
unfolding merge_back
merge_back-Kept lo hi pre i rest slots (j, rest', slots') r t c d =
    let k = d.kept in
    elim (Bool-cases (is_free pre.status)) [
      | inl is_open ↦
          let fits : u32 (pre.size + j.size) ≡ pre.size + j.size =
            omega (arith, Tiles-le (lo + pre.size + j.size) hi rest' k.tiles.2) in
          rw (is_open, fits)
            (record {
              tiles = (
                t.0,
                omega arith,
                subst (λ b. Tiles b hi rest') (add_assoc lo pre.size j.size) k.tiles.2,
              );
              coalesced = (ground (arith, d.next_busy), k.coalesced.1);
              entries = λ a. ground (arith, k.entries a, d.same_slot);
            })
      | inr shut ↦ rw shut (record {
        tiles = (t.0, t.1, k.tiles);
        coalesced = (ground arith, k.coalesced);
        entries = λ a. ground (arith, k.entries a);
      })
    ]

-- The holes behind one that stays.
pass-Kept :
    (lo hi : ℕ) (pre i : Hole) (rest : List Hole) (slots : List ℕ) (out : List Hole × List ℕ)
    → Tiles lo hi (pre ∷ i ∷ rest)
    → (is_free pre.status && head_free out.0) ≡ false
    → Kept (lo + pre.size) hi (i ∷ rest) slots out
    → Kept lo hi (pre ∷ i ∷ rest) slots (pre ∷ out.0, out.1)
pass-Kept lo hi pre i rest slots out t h k = record {
  tiles = (t.0, t.1, k.tiles);
  coalesced = (h, k.coalesced);
  entries = λ a. ground (arith, k.entries a);
}

-- The first hole of the result is free only if the one it replaces was.
abbrev Guarded : List Hole → List Hole × List ℕ → Type 0
Guarded hs out = head_free hs ≡ false → head_free out.0 ≡ false

merge_back-Guarded :
    (pre : Hole) (hs : List Hole) (out : Hole × List Hole × List ℕ)
    → Guarded (pre ∷ hs) (merge_back pre out)
unfolding merge_back
merge_back-Guarded pre hs (i, rest, slots) h = ground arith

free_behind-Kept :
    (base lo hi : ℕ) (pre : Hole) (hs : List Hole) (slots : List ℕ)
    → hi < 2 ^ 32
    → Tiles lo hi (pre ∷ hs)
    → Coalesced (pre ∷ hs)
    → Kept lo hi (pre ∷ hs) slots (free_behind base pre hs slots)
      × Guarded (pre ∷ hs) (free_behind base pre hs slots)
unfolding free_behind
free_behind-Kept base lo hi pre [] slots r t c =
    (record { tiles = t; coalesced = c; entries = λ a. refl }, λ h. h)
free_behind-Kept base lo hi pre (i ∷ rest) slots r t c =
    let (kept, guarded) = free_behind-Kept base (lo + pre.size) hi i rest slots r t.2 c.1 in
    elim (Bool-cases (is_block base i)) [
      | inl hit ↦ rw hit (
        merge_back-Kept lo hi pre i rest slots (release i rest slots) r t c
            (release-Released (lo + pre.size) hi i rest slots r t.2 c.1),
        merge_back-Guarded pre (i ∷ rest) (release i rest slots),
      )
      | inr miss ↦ rw miss (
        pass-Kept lo hi pre i rest slots (free_behind base i rest slots) t (ground (arith, guarded))
            kept,
        λ h. h,
      )
    ]

free_from-Kept :
    (base lo hi : ℕ) (hs : List Hole) (slots : List ℕ)
    → hi < 2 ^ 32
    → Tiles lo hi hs
    → Coalesced hs
    → Kept lo hi hs slots (free_from base hs slots)
unfolding free_from
free_from-Kept base lo hi [] slots r t c = record { tiles = t; coalesced = c; entries = λ a. refl }
free_from-Kept base lo hi (i ∷ rest) slots r t c = elim (Bool-cases (is_block base i)) [
  | inl hit ↦ rw hit ((release-Released lo hi i rest slots r t c).kept)
  | inr miss ↦ rw miss ((free_behind-Kept base lo hi i rest slots r t c).0)
]

-- `Kmem_free`, of any address, keeps the holes tiling the memory with no two free neighbours, loses
-- and doubles no entry of `mem_hole`, and restores the interrupt flag.
pub kmem_free-IsValid :
    (lo hi base : ℕ) (m : Mem)
    → IsValid lo hi m
    → IsValid lo hi (kmem_free base m)
      × ((a : ℕ)
          → uses a (kmem_free base m).holes + times a (kmem_free base m).slots
            ≡ uses a m.holes + times a m.slots)
      × ((kmem_free base m).irq ≡ m.irq)
unfolding kmem_free
kmem_free-IsValid lo hi base m v =
    let k = free_from-Kept base lo hi m.holes m.slots v.in_range v.tiles v.coalesced in
    (record { tiles = k.tiles; coalesced = k.coalesced; in_range = v.in_range }, k.entries, refl)
