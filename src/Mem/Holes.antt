-- ===== src/Mem/Holes.antt =====
-- The hole list of ker/mem.c: `init_slot`, `alloc_slot`, `free_slot`, `Kmem_alloc`, `Kmem_free`.
-- The list that starts at `h_head` is the list of its holes in `next` order, each with the index of
-- its `mem_hole` entry; the list at `slot_free` is the list of the indices of unused entries.
pub mod Valid
pub mod Alloc
pub mod Free
pub mod Cycle
pub mod Init
mod Tests
use myos_ia.Prelude.{
  ℕ, zero, suc, ◌+◌, ◌-◌, ◌*◌, ◌^◌, Bool, true, false, ◌&&◌, not, Option, none, some, List, [], ◌∷◌,
  ◌++◌, ltb, ◌==◌, if◌then◌else◌, u32, sub32, ◌<<<◌,
}

-- `STAT_BUSY` and `STAT_FREE`
pub data Status : Type 0 where
  busy free : Status

abbrev pub is_free : Status → Bool
is_free busy = false
is_free free = true

pub record Hole : Type 0 where
  pub slot : ℕ
  pub base : ℕ
  pub size : ℕ
  pub status : Status

-- `irq` is the interrupt flag, which `lock_irq_save` clears and `unlock_irq_restore` puts back.
pub record Mem : Type 0 where
  pub holes : List Hole
  pub slots : List ℕ
  pub irq : Bool

abbrev pub nr_hole : ℕ
nr_hole = 30

-- The indices from `i` on, `n` of them.
abbrev pub indices : ℕ → ℕ → List ℕ
indices i zero = []
indices i (suc n) = i ∷ indices (i + 1) n

-- `init_slot`: every entry of `mem_hole` is unused.
abbrev pub init_slot : List ℕ
init_slot = indices 0 nr_hole

-- What the loop of `Kmem_alloc` comes to.
pub data Search : Type 0 where
  found : List Hole → List ℕ → ℕ → Search
  no_slot : Search
  no_fit : Search

-- The hole `i` is larger than `size`: its low part is taken, and a new hole holds the rest.
split : ℕ → Hole → List Hole → List ℕ → Search
split size i rest [] = no_slot
split size i rest (t ∷ slots) =
    let high : Hole = record {
      slot = t;
      base = u32 (i.base + size);
      size = i.size - size;
      status = free;
    } in
    found (record i { size = size; status = busy } ∷ high ∷ rest) slots i.base

-- The holes before the chosen one stay in front.
behind : Hole → Search → Search
behind h (found hs slots base) = found (h ∷ hs) slots base
behind h no_slot = no_slot
behind h no_fit = no_fit

pub search_hole : ℕ → List Hole → List ℕ → Search
unfolding split behind
search_hole size [] slots = no_fit
search_hole size (i ∷ rest) slots =
    let later = behind i (search_hole size rest slots) in
    if is_free i.status
    then (if ltb size i.size
        then split size i rest slots
        else if i.size == size
        then found (record i { status = busy } ∷ rest) slots i.base
        else later)
    else later

-- `if((t=alloc_slot())==NULL)return NULL;` leaves the function with the interrupts still off.
pub finish : Mem → Search → Option ℕ × Mem
finish m (found hs slots base) = (some base, record m { holes = hs; slots = slots })
finish m no_slot = (none, record m { irq = false })
finish m no_fit = (none, m)

-- `Kmem_alloc`: the address of the block, or `none` for NULL.
unfoldable pub kmem_alloc : ℕ → Mem → Option ℕ × Mem
unfolding search_hole finish
kmem_alloc size m = if size == 0 then (none, m) else finish m (search_hole size m.holes m.slots)

-- The hole that `Kmem_free` looks for.
abbrev pub is_block : ℕ → Hole → Bool
is_block base i = i.base == base && not (is_free i.status)

-- `i->status=STAT_FREE` and the merge with the next hole: the hole, the holes behind it, and the
-- unused entries.
release : Hole → List Hole → List ℕ → Hole × List Hole × List ℕ
release i [] slots = (record i { status = free }, [], slots)
release i (t ∷ rest) slots =
    if is_free t.status
    then (record i { status = free; size = u32 (i.size + t.size) }, rest, t.slot ∷ slots)
    else (record i { status = free }, t ∷ rest, slots)

-- The merge with the hole before.
merge_back : Hole → Hole × List Hole × List ℕ → List Hole × List ℕ
merge_back pre (i, rest, slots) =
    if is_free pre.status
    then (record pre { size = u32 (pre.size + i.size) } ∷ rest, i.slot ∷ slots)
    else (pre ∷ i ∷ rest, slots)

-- The loop of `Kmem_free` at the holes behind `pre`.
free_behind : ℕ → Hole → List Hole → List ℕ → List Hole × List ℕ
unfolding release merge_back
free_behind base pre [] slots = (pre ∷ [], slots)
free_behind base pre (i ∷ rest) slots =
    let (later, slots') = free_behind base i rest slots in
    if is_block base i then merge_back pre (release i rest slots) else (pre ∷ later, slots')

free_from : ℕ → List Hole → List ℕ → List Hole × List ℕ
unfolding free_behind
free_from base [] slots = ([], slots)
free_from base (i ∷ rest) slots =
    if is_block base i
    then (let (i', rest', slots') = release i rest slots in (i' ∷ rest', slots'))
    else free_behind base i rest slots

-- `Kmem_free`: an address that no busy hole begins at is ignored.
unfoldable pub kmem_free : ℕ → Mem → Mem
unfolding free_from
kmem_free base m =
    let (hs, slots) = free_from base m.holes m.slots in record m { holes = hs; slots = slots }

abbrev pub page_size : ℕ
page_size = 1024

abbrev pub nr_pages : ℕ
nr_pages = 128

-- `memory_end`, from the number of KB of extended memory that the boot code left at 0x9000.
abbrev pub memory_end : ℕ → ℕ
memory_end ext = u32 (2 ^ 20 + u32 (ext <<< 10))

abbrev pub memory_start : ℕ
memory_start = 1024 * 1024

-- The hole list that `mem_init` sets up, in the first entry of `mem_hole`.
unfoldable pub first_hole : ℕ → Bool → Mem
first_hole ext irq = record {
  holes =
      record {
        slot = 0;
        base = memory_start;
        size = u32 (sub32 (memory_end ext) memory_start + 1);
        status = free;
      }
      ∷ [];
  slots = indices 1 29;
  irq = irq;
}

-- `mem_init`: `kmem_base`, `none` for the panic, and the hole list.
unfoldable pub mem_init : ℕ → Bool → Option ℕ × Mem
unfolding first_hole kmem_alloc
mem_init ext irq = kmem_alloc (page_size * nr_pages) (first_hole ext irq)
