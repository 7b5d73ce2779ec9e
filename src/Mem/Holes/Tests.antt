-- ===== src/Mem/Holes/Tests.antt =====
-- Runs of the hole allocator on a machine with 1 MB of extended memory, and its theorems there.
use myos_ia.Prelude.{ℕ, ◌+◌, ◌≡◌, ◌⊎◌, refl, true, false, none, some, [], ◌∷◌, arith}
use myos_ia.Mem.Holes.{Hole, Mem, Status, busy, free, kmem_alloc, kmem_free}
use myos_ia.Mem.Holes.Valid.{IsValid, uses, times, fits}
use myos_ia.Mem.Holes.Alloc.{Allocated, kmem_alloc-Allocated, kmem_alloc-none}
use myos_ia.Mem.Holes.Free.{kmem_free-IsValid}
use myos_ia.Mem.Holes.Cycle.{kmem_free-kmem_alloc}

abbrev hole : ℕ → ℕ → ℕ → Status → Hole
hole slot base size status = record { slot = slot; base = base; size = size; status = status }

-- 100 bytes in use and 200 free, from address 1000.
abbrev small : Mem
small = record {
  holes = hole 0 1000 100 busy ∷ hole 1 1100 200 free ∷ [];
  slots = 2 ∷ [];
  irq = true;
}

abbrev small_taken : Mem
small_taken = record {
  holes = hole 0 1000 100 busy ∷ hole 1 1100 50 busy ∷ hole 2 1150 150 free ∷ [];
  slots = [];
  irq = true;
}

small-IsValid : IsValid 1000 1300 small
small-IsValid = ground arith

small_taken-IsValid : IsValid 1000 1300 small_taken
small_taken-IsValid = ground arith

takes_50 : kmem_alloc 50 small ≡ (some 1100, small_taken)
unfolding kmem_alloc
takes_50 = refl

out_of_entries : kmem_alloc 60 small_taken ≡ (none, record small_taken { irq = false })
unfolding kmem_alloc
out_of_entries = refl

frees_both : (kmem_free 1000 (kmem_free 1100 small_taken)).holes ≡ hole 0 1000 300 free ∷ []
unfolding kmem_free
frees_both = refl

kmem_alloc-Allocated_example : Allocated 1000 1300 50 1100 small small_taken
kmem_alloc-Allocated_example =
    kmem_alloc-Allocated 1000 1300 50 small 1100 small_taken small-IsValid takes_50

kmem_alloc-none_example :
    ((fits 60 small_taken.holes ≡ false) × (record small_taken { irq = false } ≡ small_taken))
    ⊎ ((small_taken.slots ≡ [])
        × (fits 60 small_taken.holes ≡ true)
        × (record small_taken { irq = false } ≡ record small_taken { irq = false }))
kmem_alloc-none_example =
    kmem_alloc-none 1000 1300 60 small_taken (record small_taken { irq = false })
      small_taken-IsValid (omega arith) out_of_entries

kmem_free-IsValid_example :
    IsValid 1000 1300 (kmem_free 1100 small_taken)
    × ((a : ℕ)
        → uses a (kmem_free 1100 small_taken).holes + times a (kmem_free 1100 small_taken).slots
          ≡ uses a small_taken.holes + times a small_taken.slots)
    × ((kmem_free 1100 small_taken).irq ≡ true)
kmem_free-IsValid_example = kmem_free-IsValid 1000 1300 1100 small_taken small_taken-IsValid

kmem_free-kmem_alloc_example : kmem_free 1100 small_taken ≡ small
kmem_free-kmem_alloc_example =
    kmem_free-kmem_alloc 1000 1300 50 1100 small small_taken small-IsValid takes_50
