-- ===== src/Mem/Holes/Valid.antt =====
-- What a hole list of ker/mem.c keeps true.
use myos_ia.Prelude.{
  ℕ, suc, ◌+◌, ◌^◌, ◌<◌, ◌≤◌, ◌≡◌, Bool, false, ◌&&◌, ◌||◌, not, List, [], ◌∷◌, arith, leb, ◌==◌,
  if◌then◌else◌,
}
use myos_ia.Mem.Holes.{Hole, Mem, is_free}

-- The holes lie one behind the other from `lo` to `hi`, and none is empty.
abbrev pub Tiles : ℕ → ℕ → List Hole → Type 0
Tiles lo hi [] = lo ≡ hi
Tiles lo hi (h ∷ hs) = (h.base ≡ lo) × (0 < h.size) × Tiles (lo + h.size) hi hs

abbrev pub head_free : List Hole → Bool
head_free [] = false
head_free (h ∷ hs) = is_free h.status

-- No two neighbours are free.
abbrev pub Coalesced : List Hole → Type 0
Coalesced [] = Unit
Coalesced (h ∷ hs) = ((is_free h.status && head_free hs) ≡ false) × Coalesced hs

-- How often an entry of `mem_hole` is in use or unused.
abbrev pub times : ℕ → List ℕ → ℕ
times a [] = 0
times a (x ∷ xs) = if x == a then suc (times a xs) else times a xs

abbrev pub uses : ℕ → List Hole → ℕ
uses a [] = 0
uses a (h ∷ hs) = if h.slot == a then suc (uses a hs) else uses a hs

-- A busy hole of this size begins at this address.
abbrev pub has_block : ℕ → ℕ → List Hole → Bool
has_block base size [] = false
has_block base size (h ∷ hs) =
    (h.base == base && (h.size == size && not (is_free h.status))) || has_block base size hs

-- A free hole begins at this address and has room for this size.
abbrev pub has_room : ℕ → ℕ → List Hole → Bool
has_room base size [] = false
has_room base size (h ∷ hs) =
    (h.base == base && (leb size h.size && is_free h.status)) || has_room base size hs

-- Some free hole has room for this size.
abbrev pub fits : ℕ → List Hole → Bool
fits size [] = false
fits size (h ∷ hs) = (leb size h.size && is_free h.status) || fits size hs

pub record IsValid (lo hi : ℕ) (m : Mem) : Type 0 where
  pub tiles : Tiles lo hi m.holes
  pub coalesced : Coalesced m.holes
  pub in_range : hi < 2 ^ 32

pub Tiles-le : (lo hi : ℕ) (hs : List Hole) → Tiles lo hi hs → lo ≤ hi
Tiles-le lo hi [] t = omega arith
Tiles-le lo hi (h ∷ hs) t = omega (arith, Tiles-le (lo + h.size) hi hs t.2)
