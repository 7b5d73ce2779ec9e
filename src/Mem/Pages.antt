-- ===== src/Mem/Pages.antt =====
-- The page table of ker/mem.c: `calc_count`, `kmem_page_init`, `kmalloc` and `kfree`. The state is
-- the memory from `kmem_page` on: its first 128 words are the table, and the words behind them are
-- whatever the linker puts there, since both functions can reach past the end.
pub mod Scan
pub mod Bump
pub mod Faults
mod Tests
use myos_ia.Prelude.{
  ℕ, zero, suc, ◌+◌, ◌-◌, ◌*◌, ◌/◌, ◌%◌, ◌^◌, Bool, true, false, Option, none, some, List, [], ◌∷◌,
  ◌++◌, ltb, ◌==◌, if◌then◌else◌, get_or, set, take, replicate, u32, sub32,
}

abbrev pub page_size : ℕ
page_size = 1024

abbrev pub nr_pages : ℕ
nr_pages = 128

-- `PAGE_S_CONT`, that is `~0`, and `PAGE_S_FREE`.
abbrev pub page_cont : ℕ
page_cont = 2 ^ 32 - 1

abbrev pub page_free : ℕ
page_free = 0

pub record Pages : Type 0 where
  pub words : List ℕ
  pub irq : Bool

-- `kmem_page_init`, in front of what follows the table.
abbrev pub kmem_page_init : List ℕ → List ℕ
kmem_page_init after = page_free ∷ (replicate 127 page_cont ++ after)

-- `calc_count`: a size in pages, rounded up.
unfoldable pub calc_count : ℕ → ℕ
calc_count size = if ltb 0 (size % page_size) then size / page_size + 1 else size / page_size

-- The local variables of `kmalloc`: `free_h` is an index into the table.
pub record Vars : Type 0 where
  pub tmp_c : ℕ
  pub a_flag : Bool
  pub free_h : ℕ

-- The tests on `*pptr`, at the index `p`.
unfoldable pub visit : ℕ → ℕ → Vars → Vars
visit w p v =
    if w == page_free
    then record { tmp_c = 1; a_flag = true; free_h = p }
    else if w == page_cont
    then (if v.a_flag then record v { tmp_c = v.tmp_c + 1 } else v)
    else v

-- The loop of `kmalloc` over the words from the index `p` on: `free_h` and `pptr` where `tmp_c`
-- reaches the count.
unfoldable pub scan : ℕ → List ℕ → ℕ → Vars → Option (ℕ × ℕ)
unfolding visit
scan count [] p v = none
scan count (w ∷ ws) p v =
    let v' = visit w p v in
    let rest = scan count ws (p + 1) v' in if v'.tmp_c == count then some (v'.free_h, p) else rest

abbrev pub start_vars : Vars
start_vars = record { tmp_c = 0; a_flag = false; free_h = 0 }

-- `if (*(pptr+1)==PAGE_S_CONT) *(pptr+1)=PAGE_S_FREE;`
open_next : List ℕ → ℕ → List ℕ
open_next ws i = if get_or ws i page_free == page_cont then set ws i page_free else ws

-- What `kmalloc` does with the block that the loop found: its return from inside the loop leaves the
-- interrupts off.
pub take_block : ℕ → ℕ → Pages → Option (ℕ × ℕ) → Option ℕ × Pages
unfolding open_next
take_block kmem_base size s none = (none, s)
take_block kmem_base size s (some (free_h, p)) = (
  some (u32 (kmem_base + free_h * page_size)),
  record { words = open_next (set s.words free_h size) (p + 1); irq = false },
)

-- `kmalloc`. The condition `pptr<=(kmem_page+NR_PAGES)` lets the loop visit 129 words.
unfoldable pub kmalloc : ℕ → ℕ → Pages → Option ℕ × Pages
unfolding calc_count scan take_block
kmalloc kmem_base size s =
    take_block kmem_base size s (scan (calc_count size) (take 129 s.words) 0 start_vars)

-- `while(*tmp==PAGE_S_CONT)tmp--;` from the index `i` down: the word where it stops, `none` where it
-- leaves the table at the front.
unfoldable pub walk_back : List ℕ → ℕ → Option ℕ
walk_back ws zero =
    if get_or ws 0 page_free == page_cont then none else some (get_or ws 0 page_free)
walk_back ws (suc i) =
    let before = walk_back ws i in
    if get_or ws (suc i) page_free == page_cont then before else some (get_or ws (suc i) page_free)

-- `*start`, set to begin a free run of its own or to continue the one before.
free_start : List ℕ → ℕ → Option (List ℕ)
free_start ws zero = some (set ws 0 page_free)
free_start ws (suc i) = elim (walk_back ws i) [
  | none ↦ none
  | some w ↦ some (set ws (suc i) (if w == page_free then page_cont else page_free))
]

-- `if(*(end+1)==PAGE_S_FREE) *(end+1)=PAGE_S_CONT;`, unless `end` is `kmem_page+NR_PAGES`.
join_next : List ℕ → ℕ → List ℕ
join_next ws next =
    if next == nr_pages + 1
    then ws
    else if get_or ws next page_cont == page_free
    then set ws next page_cont
    else ws

pub free_block : ℕ → ℕ → Pages → Option Pages
free_block start next s = elim (free_start s.words start) [
  | none ↦ none
  | some ws ↦ some (record s { words = join_next ws next })
]

-- `kfree`: `none` where it reads in front of the table. `end+1` is computed from the size in the
-- first page, before that page is changed.
unfoldable pub kfree : ℕ → ℕ → Pages → Option Pages
unfolding calc_count free_block free_start walk_back join_next
kfree kmem_base base s =
    let start : ℕ = sub32 base kmem_base / page_size in
    free_block start (start + calc_count (get_or s.words start page_free)) s
