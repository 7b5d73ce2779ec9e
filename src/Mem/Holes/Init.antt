-- ===== src/Mem/Holes/Init.antt =====
-- The hole list that `mem_init` of ker/mem.c sets up.
use myos_ia.Prelude.{
  ℕ, ◌+◌, ◌*◌, ◌^◌, ◌<◌, ◌≤◌, ◌≡◌, refl, sym, ◌∙◌, u32, sub32, Bool, true, some, arith, ltb,
}
use myos_ia.Mem.Holes.{Mem, kmem_alloc, first_hole, mem_init, memory_start, memory_end}
use myos_ia.Mem.Holes.Valid.{IsValid}
use myos_ia.Mem.Holes.Alloc.{Allocated, kmem_alloc-Allocated}

first_hole-IsValid :
    (ext : ℕ) (irq : Bool)
    → 2 ^ 20 + 1024 * ext + 1 < 2 ^ 32
    → IsValid memory_start (2 ^ 20 + 1024 * ext + 1) (first_hole ext irq)
unfolding first_hole
first_hole-IsValid ext irq h = record {
  tiles = (refl, omega arith, omega arith);
  coalesced = (refl, tt);
  in_range = h;
}

mem_init_lem :
    (ext : ℕ) (irq : Bool) → mem_init ext irq ≡ kmem_alloc (128 * 1024) (first_hole ext irq)
unfolding mem_init
mem_init_lem ext irq = refl

mem_init-base :
    (ext : ℕ) (irq : Bool)
    → 128 ≤ ext
    → 2 ^ 20 + 1024 * ext + 1 < 2 ^ 32
    → mem_init ext irq ≡ (some memory_start, (mem_init ext irq).1)
unfolding mem_init
mem_init-base ext irq h r =
    let larger : ltb 131072 (u32 (sub32 (memory_end ext) memory_start + 1)) ≡ true = ground arith in
    rw larger refl

-- With at least 128 KB of extended memory, and all memory below 4 GB, `mem_init` finds room for the
-- pages of `kmalloc` at 1 MB, and the holes tile the memory from there to one byte past the last KB
-- that the boot code reported.
pub mem_init-region :
    (ext : ℕ) (irq : Bool)
    → 128 ≤ ext
    → 2 ^ 20 + 1024 * ext + 1 < 2 ^ 32
    → (m : Mem) × (mem_init ext irq ≡ (some memory_start, m))
      × Allocated memory_start (memory_end ext + 1) (128 * 1024) memory_start (first_hole ext irq) m
mem_init-region ext irq h r =
    let end : memory_end ext + 1 ≡ 2 ^ 20 + 1024 * ext + 1 = omega arith in
    let base = mem_init-base ext irq h r in
    (
      (mem_init ext irq).1,
      base,
      rw end (
          kmem_alloc-Allocated memory_start (2 ^ 20 + 1024 * ext + 1) (128 * 1024)
            (first_hole ext irq) memory_start (mem_init ext irq).1 (first_hole-IsValid ext irq r)
            (sym (mem_init_lem ext irq) ∙ base)),
    )
