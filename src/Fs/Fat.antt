-- ===== src/Fs/Fat.antt =====
-- The file allocation table of fs/inode.c: the entries of the three formats, and the chain of
-- clusters that `read_map` follows.
pub mod Decode
pub mod Chain
mod Tests
use myos_ia.Prelude.{
  ℕ, zero, suc, ◌+◌, ◌-◌, ◌*◌, ◌/◌, ◌%◌, ◌^◌, Bool, List, bit_and, ltb, leb, ◌==◌, if◌then◌else◌,
  get_or, set, ◌>>>◌,
}
use myos_ia.Fs.{Disk, block_data, SuperBlock, Inode}

-- `FAToffset`
unfoldable pub fat_offset : SuperBlock → ℕ → ℕ
fat_offset bd n = if bd.type == 1 then n + n / 2 else if bd.type == 2 then n * 2 else n * 4

-- `eeof`
unfoldable pub eeof : SuperBlock → ℕ → Bool
eeof bd val =
    if bd.type == 1
    then leb 0x0ff8 val
    else if bd.type == 2
    then leb 0xfff8 val
    else leb 0x0ffffff8 val

-- Little-endian reads of two and of four bytes.
abbrev pub read_u16 : (ℕ → ℕ) → ℕ → ℕ
read_u16 bytes at = bytes at + bytes (at + 1) * 256

abbrev pub read_u32 : (ℕ → ℕ) → ℕ → ℕ
read_u32 bytes at = read_u16 bytes at + read_u16 bytes (at + 2) * 2 ^ 16

-- The entry of a cluster in the bytes of its sector: an odd entry of a 12-bit table is the high part
-- of the two bytes.
unfoldable pub decode_entry : ℕ → ℕ → (ℕ → ℕ) → ℕ → ℕ
decode_entry type cluster bytes at =
    if type == 1
    then (if bit_and cluster 1 == 0
        then bit_and (read_u16 bytes at) 0xfff
        else read_u16 bytes at >>> 4)
    else if type == 2
    then read_u16 bytes at
    else bit_and (read_u32 bytes at) 0x0fffffff

-- `FATEntryVal`
unfoldable pub fat_entry_val : Disk → SuperBlock → ℕ → ℕ
unfolding fat_offset decode_entry
fat_entry_val disk bd cluster =
    let offset : ℕ = fat_offset bd cluster in
    let sector : ℕ = bd.resvdseccnt + offset / bd.sector_size + bd.base in
    decode_entry bd.type cluster (block_data disk sector) (offset % bd.sector_size)

-- `do_cdiv`: a quotient rounded up.
unfoldable pub do_cdiv : ℕ → ℕ → ℕ
do_cdiv s d = if s % d == 0 then s / d else s / d + 1

-- The loop of `read_map`: `count` is what `count-->0` still allows, and every entry of the chain is
-- stored at the next index of `block`, whatever that is.
unfoldable pub follow : Disk → SuperBlock → ℕ → ℕ → ℕ → List ℕ → List ℕ
unfolding eeof fat_entry_val
follow disk bd zero i index block = set block i index
follow disk bd (suc count) i index block =
    let index' : ℕ = fat_entry_val disk bd index in
    let rest = follow disk bd count (i + 1) index' (set block i index) in
    if eeof bd index' then set block i index else rest

-- `read_map`
unfoldable pub read_map : Disk → Inode → Inode
unfolding do_cdiv follow
read_map disk ip =
    let count : ℕ = do_cdiv ip.size (ip.i_sb.cluster_size * ip.i_sb.sector_size) in
    record ip { block = follow disk ip.i_sb count 0 (get_or ip.block 0 0) ip.block }
