-- ===== src/Mem.antt =====
-- ker/mem.c: the hole list behind `Kmem_alloc` and `Kmem_free`, and the page table behind `kmalloc`
-- and `kfree`, which divides one block of the former.
pub mod Holes
pub mod Pages
