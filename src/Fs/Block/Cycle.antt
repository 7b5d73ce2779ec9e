-- ===== src/Fs/Block/Cycle.antt =====
-- `get_block` followed by `put_block` of fs/block.c.
use myos_ia.Prelude.{
  ℕ, suc, ◌+◌, ◌-◌, ◌*◌, ◌^◌, ◌≤◌, ◌<◌, ◌≡◌, ◌≢◌, refl, ap, sym, ◌∙◌, false, ◌&&◌, some, List, [],
  ◌∷◌, ◌++◌, arith, leb, ltb, if◌then◌else◌, length, length-append, replicate, u32, ◌>>>◌, true,
  get_or, ◌%◌, ◌/◌, ◌==◌,
}
use mathlib.Core.List.{append_assoc}
use myos_ia.Mem.Pages.{page_cont, page_free, page_size, nr_pages, Pages, calc_count, kmalloc, kfree}
use myos_ia.Mem.Pages.Scan.{NoneFree}
use myos_ia.Mem.Pages.Bump.{layout, one_run, Headed, kmalloc-layout, kfree-layout}
use myos_ia.Fs.{Disk}
use myos_ia.Fs.Block.{
  Heap, ok, sizeof_buf, ptr_bytes, store_data, load_data, read_sectors, read_into, read_with,
  get_block, put_block,
}

-- The table between the two calls of `kmalloc`, seen from the first block and from the second.
two_blocks :
    (us : List ℕ) (w c d : ℕ) (rest : List ℕ)
    → layout us w 0 page_free (c + suc d) rest
      ≡ layout (us ++ (w ∷ [])) page_free c page_cont d rest
two_blocks us w c d rest =
    ap (λ t. us ++ (w ∷ (page_free ∷ t))) (sym (one_run c d rest))
    ∙ sym (
        append_assoc us (w ∷ [])
          (page_free ∷ (replicate c page_cont ++ (page_cont ∷ (replicate d page_cont ++ rest)))))

NoneFree-snoc : (us : List ℕ) (w : ℕ) → NoneFree us → w ≢ page_free → NoneFree (us ++ (w ∷ []))
NoneFree-snoc [] w n h = (h, tt)
NoneFree-snoc (u ∷ us) w n h = (n.0, NoneFree-snoc us w n.1 h)

Headed-snoc : (us : List ℕ) (w : ℕ) → Headed us → w ≢ page_cont → Headed (us ++ (w ∷ []))
Headed-snoc [] w n h = h
Headed-snoc (u ∷ us) w n h = n

-- The pointer that is stored in a `struct buf` is read back from it, whatever sectors are read in
-- behind it.
load_data-store_data :
    (bp buf size block : ℕ) (disk : Disk) (bytes : ℕ → ℕ)
    → bp + sizeof_buf ≤ buf
    → buf < 2 ^ 32
    → load_data bp (read_sectors disk buf size block (store_data bp (some buf) bytes)) ≡ buf
load_data-store_data bp buf size block disk bytes apart small =
    let g : ℕ → ℕ = read_sectors disk buf size block (store_data bp (some buf) bytes) in
    let at : (k a : ℕ) → a ≡ bp + k → k < 4 → g a ≡ get_or (ptr_bytes buf) k 0 = λ k a e h.
      let before : leb buf a ≡ false = ground arith in
      let from : leb bp a ≡ true = ground arith in
      let to : ltb a (bp + sizeof_buf) ≡ true = ground arith in
      let index : a - bp ≡ k = omega arith in rw (before, from, to, index) refl in
    let b0 : g bp ≡ buf % 256 = at 0 bp (omega arith) (omega arith) in
    let b1 : g (bp + 1) ≡ buf / 2 ^ 8 % 256 = at 1 (bp + 1) refl (omega arith) in
    let b2 : g (bp + 2) ≡ buf / 2 ^ 16 % 256 = at 2 (bp + 2) refl (omega arith) in
    let b3 : g (bp + 3) ≡ buf / 2 ^ 24 % 256 = at 3 (bp + 3) refl (omega arith) in
    omega (arith, b0, b1, b2, b3, small)

-- The page table begins with the head of a block and has no free page up to a free run in it, which
-- has at least a page more than the `struct buf` and the data need; the pool lies below 2^32. Then `get_block` returns
-- a buffer on the first page of the run: the `struct buf` has the address of the next page, where the
-- sectors of the disk from `block` on stand, and no other byte of the memory changes. `put_block` of it
-- leaves the page table as it was.
pub put_block-get_block :
    (base size block c d : ℕ) (disk : Disk) (us rest : List ℕ) (h : Heap)
    → h.pages.words ≡ layout us page_free 0 page_cont (c + suc d) rest
    → NoneFree us
    → Headed us
    → length us + c + d + 3 ≤ nr_pages
    → base + nr_pages * page_size < 2 ^ 32
    → calc_count size ≡ suc c
    → let bp : ℕ = base + length us * page_size in
      let buf : ℕ = bp + page_size in
      (g : Heap) × (get_block base disk block size h ≡ ok bp g)
      × ((a : ℕ)
          → g.bytes a ≡ (
              if leb buf a && ltb a (buf + (size >>> 9) * 512)
              then disk (block * 512 + (a - buf))
              else if leb bp a && ltb a (bp + 4)
              then get_or (ptr_bytes buf) (a - bp) 0
              else h.bytes a))
      × (put_block base bp g
          ≡ some (record g { pages = record { words = h.pages.words; irq = false } }))
unfolding get_block put_block calc_count
put_block-get_block base size block c d disk us rest h words none_free headed fits range count =
    let bp : ℕ = base + length us * page_size in
    let buf : ℕ = bp + page_size in
    let one : calc_count 4 ≡ 1 = refl in
    let first =
      kmalloc-layout base 4 0 (c + suc d) us rest h.pages.irq none_free (omega arith) one in
    let both = two_blocks us 4 c d rest in
    let longer : length (us ++ (4 ∷ [])) ≡ length us + 1 = length-append us (4 ∷ []) in
    let after = NoneFree-snoc us 4 none_free (ground arith) in
    let head = Headed-snoc us 4 headed (ground arith) in
    let second =
      kmalloc-layout base size c d (us ++ (4 ∷ [])) rest false after (omega (arith, longer))
        count in
    let third =
      kfree-layout base size c d (us ++ (4 ∷ [])) rest false after head (omega (arith, longer))
        range count in
    let fourth =
      kfree-layout base 4 0 (c + suc d) us rest false none_free headed (omega arith) range one in
    let at_bp : u32 (base + length us * page_size) ≡ bp = omega arith in
    let at_buf : u32 (base + length (us ++ (4 ∷ [])) * page_size) ≡ buf = omega (arith, longer) in
    let pages : List ℕ → Pages = λ w. record { words = w; irq = false } in
    let p1 : Pages = pages (layout us 4 0 page_free (c + suc d) rest) in
    let p2 : Pages = pages (layout (us ++ (4 ∷ [])) size c page_free d rest) in
    let m1 : kmalloc base 4 h.pages ≡ (some bp, p1) =
      ap (λ w. kmalloc base 4 (record { words = w; irq = h.pages.irq })) words
      ∙ first
      ∙ ap (λ a. (some a, p1)) at_bp in
    let m2 : kmalloc base size p1 ≡ (some buf, p2) =
      ap (λ w. kmalloc base size (pages w)) both ∙ second ∙ ap (λ a. (some a, p2)) at_buf in
    let f1 : kfree base buf p2 ≡ some p1 =
      ap (λ a. kfree base a p2) (sym at_buf) ∙ third ∙ ap (λ w. some (pages w)) (sym both) in
    let f2 : kfree base bp p1 ≡ some (pages h.pages.words) =
      ap (λ a. kfree base a p1) (sym at_bp) ∙ fourth ∙ ap (λ w. some (pages w)) (sym words) in
    let g : Heap = record {
      pages = p2;
      bytes = read_sectors disk buf size block (store_data bp (some buf) h.bytes);
    } in
    let held : load_data bp g.bytes ≡ buf =
      load_data-store_data bp buf size block disk h.bytes (omega arith) (omega arith) in
    let real : (buf == 0) ≡ false = ground arith in
    (
      g,
      ap (read_with base disk block size h) m1 ∙ ap (read_into disk block size bp h) m2,
      λ a. refl,
      rw (held, real, f1, f2) refl,
    )
