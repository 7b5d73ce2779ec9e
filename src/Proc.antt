-- ===== src/Proc.antt =====
-- The memory map of a process: `struct memmap` of include/proc.h and `umap` of ker/proc.c.
use myos_ia.Prelude.{ℕ, ◌+◌, leb, if◌then◌else◌, u32}

pub record MemMap : Type 0 where
  pub vir : ℕ
  pub phys : ℕ
  pub size : ℕ

-- `umap`, of the data segment: an address behind it gives NULL, which is 0.
unfoldable pub umap : MemMap → ℕ → ℕ
umap d offset = if leb (u32 (d.vir + d.size)) offset then 0 else u32 (d.phys + offset)
