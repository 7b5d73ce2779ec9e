-- ===== src/Fs/Block.antt =====
-- fs/block.c: buffers for the sectors of the disk, over the page allocator of ker/mem.c, with `bread`
-- of ker/hd.c by what it does where the ring of requests has room. `bytes` is the memory, in which a
-- `struct buf` is the four bytes of its pointer, the lowest first. NULL is 0 there.
pub mod Cycle
mod Tests
use myos_ia.Prelude.{
  ℕ, ◌+◌, ◌-◌, ◌*◌, ◌^◌, Bool, true, false, ◌&&◌, Option, none, some, List, [], ◌∷◌, get_or, ◌/◌,
  ◌%◌, leb, ltb, ◌==◌, if◌then◌else◌, ◌>>>◌,
}
use myos_ia.Sched.{Ptr}
use myos_ia.Mem.Pages.{Pages, kmalloc, kfree}
use myos_ia.Fs.{Disk}

pub record Heap : Type 0 where
  pub pages : Pages
  pub bytes : ℕ → ℕ

-- `null` stands for NULL as the answer, `panics` for a panic, and `faults` for a write through NULL.
pub data Result : Type 0 where
  ok : ℕ → Heap → Result
  null : Heap → Result
  panics : Result
  faults : Result

abbrev pub sizeof_buf : ℕ
sizeof_buf = 4

-- The memory after `do_read` returns: `size>>9` sectors stand at `buf`.
abbrev pub read_sectors : Disk → ℕ → ℕ → ℕ → (ℕ → ℕ) → ℕ → ℕ
read_sectors disk buf size block bytes a =
    if leb buf a && ltb a (buf + (size >>> 9) * 512)
    then disk (block * 512 + (a - buf))
    else bytes a

-- `bread`; `none` for -1.
abbrev pub bread : Disk → Ptr → ℕ → ℕ → (ℕ → ℕ) → Option (ℕ → ℕ)
bread disk none size block bytes = none
bread disk (some buf) size block bytes = some (read_sectors disk buf size block bytes)

abbrev pub ptr_bytes : ℕ → List ℕ
ptr_bytes p = p % 256 ∷ p / 2 ^ 8 % 256 ∷ p / 2 ^ 16 % 256 ∷ p / 2 ^ 24 % 256 ∷ []

-- `bp->data=buf` and `bp->data`, with the field at the address `bp`.
abbrev pub store_data : ℕ → Ptr → (ℕ → ℕ) → ℕ → ℕ
store_data bp buf bytes a =
    let address : ℕ = elim buf [ none ↦ 0 | some p ↦ p ] in
    if leb bp a && ltb a (bp + sizeof_buf) then get_or (ptr_bytes address) (a - bp) 0 else bytes a

abbrev pub load_data : ℕ → (ℕ → ℕ) → ℕ
load_data bp bytes =
    bytes bp + bytes (bp + 1) * 2 ^ 8 + bytes (bp + 2) * 2 ^ 16 + bytes (bp + 3) * 2 ^ 24

-- `get_block` from the second `kmalloc` on, with what it gave.
abbrev pub read_into : Disk → ℕ → ℕ → ℕ → Heap → Ptr × Pages → Result
read_into disk block size bp h (buf, pages) =
    let filled : Option (ℕ → ℕ) = bread disk buf size block (store_data bp buf h.bytes) in
    elim filled [ none ↦ panics | some bytes ↦ ok bp (record { pages = pages; bytes = bytes }) ]

-- `get_block` from the first `kmalloc` on, with what it gave: the test of `bp` comes after the write
-- through it.
abbrev pub read_with : ℕ → Disk → ℕ → ℕ → Heap → Ptr × Pages → Result
read_with kmem_base disk block size h (none, pages) = faults
read_with kmem_base disk block size h (some bp, pages) =
    read_into disk block size bp h (kmalloc kmem_base size pages)

-- `get_block`
pub get_block : ℕ → Disk → ℕ → ℕ → Heap → Result
get_block kmem_base disk block size h =
    read_with kmem_base disk block size h (kmalloc kmem_base sizeof_buf h.pages)

-- `put_block`; `kfree` of NULL looks at the page before the pool and is left out.
pub put_block : ℕ → ℕ → Heap → Option Heap
put_block kmem_base bp h =
    let buf : ℕ = load_data bp h.bytes in
    if buf == 0 then none else free_buf (kfree kmem_base buf h.pages)
  where
    free_last : Option Pages → Option Heap
    free_last none = none
    free_last (some pages) = some (record h { pages = pages })

    free_buf : Option Pages → Option Heap
    free_buf none = none
    free_buf (some pages) = free_last (kfree kmem_base bp pages)
