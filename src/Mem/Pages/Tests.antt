-- ===== src/Mem/Pages/Tests.antt =====
-- Runs of the page allocator with its pool at 1 MB, and its theorems there.
use myos_ia.Prelude.{ℕ, zero, suc, ◌+◌, ◌≡◌, ◌≢◌, refl, true, false, some, List, [], ◌∷◌, replicate}
use myos_ia.Mem.Pages.{page_cont, page_free, Pages, kmem_page_init, calc_count, kmalloc}
use myos_ia.Mem.Pages.Scan.{NoneFree}
use myos_ia.Mem.Pages.Bump.{layout}

abbrev pool : ℕ
pool = 1048576

-- A used block of two pages, then a free run of five.
abbrev used_two : List ℕ
used_two = 2000 ∷ 300 ∷ []

two_pages : calc_count 1500 ≡ 2
unfolding calc_count
two_pages = refl

init_takes : (kmalloc pool 1500 (record { words = kmem_page_init []; irq = true })).0 ≡ some pool
unfolding kmalloc
init_takes = refl

abbrev five_free : Pages
five_free = record { words = layout used_two page_free 1 page_cont 3 []; irq = true }

takes :
    kmalloc pool 1500 five_free
    ≡ (some (pool + 2048), record { words = layout used_two 1500 1 page_free 3 []; irq = false })
unfolding kmalloc
takes = refl

all_used : (k w : ℕ) → w ≢ page_free → NoneFree (replicate k w)
all_used zero w used = tt
all_used (suc k) w used = (used, all_used k w used)

abbrev busy_pages : List ℕ
busy_pages = replicate 126 100
