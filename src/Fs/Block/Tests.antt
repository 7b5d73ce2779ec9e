-- ===== src/Fs/Block/Tests.antt =====
-- A buffer of one sector on a page table with one used page and five free ones.
use myos_ia.Prelude.{
  ℕ, ◌+◌, ◌-◌, ◌*◌, ◌≡◌, refl, true, false, ◌&&◌, some, [], ◌∷◌, arith, leb, ltb, if◌then◌else◌,
  ◌>>>◌, get_or,
}
use myos_ia.Mem.Pages.{page_cont, page_free, calc_count}
use myos_ia.Mem.Pages.Bump.{layout}
use myos_ia.Fs.{Disk}
use myos_ia.Fs.Block.{Heap, ok, ptr_bytes, get_block, put_block}
use myos_ia.Fs.Block.Cycle.{put_block-get_block}

abbrev disk : Disk
disk a = a

abbrev heap : Heap
heap = record {
  pages = record { words = layout (300 ∷ []) page_free 0 page_cont 4 []; irq = true };
  bytes = λ a. 0;
}

put_block-get_block_example :
    (g : Heap) × (get_block 0x100000 disk 7 512 heap ≡ ok 0x100400 g)
    × ((a : ℕ)
        → g.bytes a ≡ (
            if leb 0x100800 a && ltb a (0x100800 + (512 >>> 9) * 512)
            then disk (7 * 512 + (a - 0x100800))
            else if leb 0x100400 a && ltb a (0x100400 + 4)
            then get_or (ptr_bytes 0x100800) (a - 0x100400) 0
            else heap.bytes a))
    × (put_block 0x100000 0x100400 g
        ≡ some (record g { pages = record { words = heap.pages.words; irq = false } }))
unfolding calc_count
put_block-get_block_example =
    put_block-get_block 0x100000 512 7 0 3 disk (300 ∷ []) [] heap refl (ground arith)
      (ground arith) (omega arith) (omega arith) refl
