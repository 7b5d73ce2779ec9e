-- ===== src/Mem/Pages/Faults.antt =====
-- What `kmalloc` and `kfree` of ker/mem.c do outside the orderly case.
use myos_ia.Prelude.{
  ℕ, suc, ◌+◌, ◌*◌, ◌^◌, ◌<◌, ◌≡◌, ◌≢◌, refl, sym, ap, Bool, true, false, Option, none, some, List,
  ◌∷◌, arith, ◌==◌, Bool-cases, inl, inr, ◌∙◌, length, get_or, get_or-set_ne, take, u32,
}
use myos_ia.Mem.Pages.{
  page_cont, page_free, page_size, nr_pages, Pages, visit, scan, start_vars, calc_count, kmalloc,
  kfree, take_block, open_next,
}
use myos_ia.Mem.Pages.Scan.{NoneFree}
use myos_ia.Mem.Pages.Bump.{layout, Headed, kfree-layout, get_or-second, kmalloc_lem}

take_block-irq :
    (kmem_base size : ℕ) (s : Pages) (o : Option (ℕ × ℕ)) (a : ℕ) (s' : Pages)
    → take_block kmem_base size s o ≡ (some a, s')
    → s'.irq ≡ false
unfolding take_block
take_block-irq kmem_base size s none a s' e = cc
take_block-irq kmem_base size s (some (f, p)) a s' e = ground arith

-- Whenever `kmalloc` returns an address it returns with the interrupts disabled, whatever they were.
pub kmalloc-irq :
    (kmem_base size : ℕ) (s : Pages) (a : ℕ) (s' : Pages)
    → kmalloc kmem_base size s ≡ (some a, s')
    → s'.irq ≡ false
kmalloc-irq kmem_base size s a s' e =
    take_block-irq kmem_base size s (scan (calc_count size) (take 129 s.words) 0 start_vars) a s'
      (sym (kmalloc_lem kmem_base size s) ∙ e)

open_next-before :
    (ws : List ℕ) (i j d : ℕ) → (i == j) ≡ false → get_or (open_next ws i) j d ≡ get_or ws j d
unfolding open_next
open_next-before ws i j d ne = elim (Bool-cases (get_or ws i page_free == page_cont)) [
  | inl opens ↦ rw opens (get_or-set_ne ws i j page_free d (ground arith))
  | inr stays ↦ rw stays refl
]

scan-overlap :
    (b : ℕ) (rest : List ℕ)
    → b ≢ page_free
    → b ≢ page_cont
    → scan 2 (take 129 (page_free ∷ b ∷ page_cont ∷ rest)) 0 start_vars ≡ some (0, 2)
unfolding scan
scan-overlap b rest used head =
    let same : visit b 1 (record { tmp_c = 1; a_flag = true; free_h = 0 })
        ≡ record { tmp_c = 1; a_flag = true; free_h = 0 } =
      ground arith in
    rw same refl

scan-zero :
    (b : ℕ) (rest : List ℕ)
    → b ≢ page_free
    → scan 0 (take 129 (b ∷ rest)) 0 start_vars ≡ some (0, 0)
unfolding scan
scan-zero b rest used = let same : visit b 0 start_vars ≡ start_vars = ground arith in rw same refl

calc_count-0 : calc_count 0 ≡ 0
unfolding calc_count
calc_count-0 = refl

-- A free page in front of a used block of at least two pages: `kmalloc` counts the pages that
-- continue the used block as if they continued the free one. It returns the free page as a block of
-- two pages, the second of which still begins the used block.
pub kmalloc-overlap :
    (kmem_base size b : ℕ) (rest : List ℕ) (irq : Bool)
    → calc_count size ≡ 2
    → b ≢ page_free
    → b ≢ page_cont
    → ((kmalloc kmem_base size (record { words = page_free ∷ b ∷ page_cont ∷ rest; irq = irq })).0
        ≡ some (u32 kmem_base))
      × (get_or
            (kmalloc kmem_base size
              (record { words = page_free ∷ b ∷ page_cont ∷ rest; irq = irq })).1.words
            0
            page_free
          ≡ size)
      × (get_or
            (kmalloc kmem_base size
              (record { words = page_free ∷ b ∷ page_cont ∷ rest; irq = irq })).1.words
            1
            page_free
          ≡ b)
unfolding take_block
kmalloc-overlap kmem_base size b rest irq count used head =
    let s : Pages = record { words = page_free ∷ b ∷ page_cont ∷ rest; irq = irq } in
    let done : kmalloc kmem_base size s ≡ take_block kmem_base size s (some (0, 2)) =
      kmalloc_lem kmem_base size s ∙ rw (count, scan-overlap b rest used head) refl in
    rw done (
      ap (λ a. some (u32 a)) {x = kmem_base + 0 * page_size} {y = kmem_base} (omega arith),
      open_next-before (size ∷ b ∷ page_cont ∷ rest) 3 0 page_free refl,
      open_next-before (size ∷ b ∷ page_cont ∷ rest) 3 1 page_free refl,
    )

-- A request for no bytes, with the first page in use: `kmalloc` returns that page, which is in use,
-- and marks it as free.
pub kmalloc-zero :
    (kmem_base b : ℕ) (rest : List ℕ) (irq : Bool)
    → b ≢ page_free
    → ((kmalloc kmem_base 0 (record { words = b ∷ rest; irq = irq })).0 ≡ some (u32 kmem_base))
      × (get_or (kmalloc kmem_base 0 (record { words = b ∷ rest; irq = irq })).1.words 0 page_cont
          ≡ page_free)
unfolding take_block
kmalloc-zero kmem_base b rest irq used =
    let s : Pages = record { words = b ∷ rest; irq = irq } in
    let done : kmalloc kmem_base 0 s ≡ take_block kmem_base 0 s (some (0, 0)) =
      kmalloc_lem kmem_base 0 s ∙ rw (calc_count-0, scan-zero b rest used) refl in
    rw done (
      ap (λ a. some (u32 a)) {x = kmem_base + 0 * page_size} {y = kmem_base} (omega arith),
      open_next-before (0 ∷ rest) 1 0 page_cont refl,
    )

-- Releasing the block that ends with the last page writes the word behind the table, where that
-- word is 0.
pub kfree-overrun :
    (kmem_base size c : ℕ) (us after : List ℕ) (irq : Bool)
    → NoneFree us
    → Headed us
    → length us + suc c ≡ nr_pages
    → kmem_base + nr_pages * page_size < 2 ^ 32
    → calc_count size ≡ suc c
    → (s : Pages) × (kfree kmem_base
          (u32 (kmem_base + length us * page_size))
          (record { words = layout us size c page_free 0 after; irq = irq })
        ≡ some s)
      × (get_or (layout us size c page_free 0 after) nr_pages page_cont ≡ page_free)
      × (get_or s.words nr_pages page_free ≡ page_cont)
kfree-overrun kmem_base size c us after irq n h last range count = (
  record { words = layout us page_free c page_cont 0 after; irq = irq },
  kfree-layout kmem_base size c 0 us after irq n h (omega arith) range count,
  rw (← last) (get_or-second us size c page_free 0 page_cont after),
  rw (← last) (get_or-second us page_free c page_cont 0 page_free after),
)
