-- ===== src/Fs/Open.antt =====
-- fs/open.c: short names, the search of a directory, descriptors and `sys_open`.
pub mod Names
pub mod Descriptors
pub mod Search
mod Tests
use myos_ia.Prelude.{
  ℕ, zero, suc, ◌+◌, ◌-◌, ◌*◌, ◌/◌, ◌%◌, ◌^◌, Bool, true, false, ◌&&◌, ◌||◌, not, Option, none,
  some, List, [], ◌∷◌, ◌++◌, bit_and, bit_or, ltb, leb, ◌==◌, if◌then◌else◌, get_or, set, take, u16,
  ◌<<<◌,
}
use myos_ia.Slot.{Slots, alloc_slot}
use myos_ia.Sched.{update}
use myos_ia.Fs.{Disk, block_data, SuperBlock, Inode}
use myos_ia.Fs.Fat.{read_map, read_u16, read_u32}
use myos_ia.Fs.Read.{read_bytes}

abbrev pub space : ℕ
space = 0x20

-- The first loop of `shortnamecopy`: how many of the first `i` characters are left without the
-- spaces at their end.
unfoldable pub main_length : List ℕ → ℕ → ℕ
main_length from zero = 0
main_length from (suc i) =
    let shorter = main_length from i in if get_or from i 0 == space then shorter else suc i

-- The last loop of `shortnamecopy`, from the index `i` on, `n` characters.
unfoldable pub extension : List ℕ → ℕ → ℕ → List ℕ
extension from i zero = []
extension from i (suc n) =
    let rest = extension from (i + 1) n in
    if get_or from i 0 == space then rest else get_or from i 0 ∷ rest

-- `shortnamecopy`: the string that it writes, with its final 0.
unfoldable pub shortnamecopy : List ℕ → List ℕ
unfolding main_length extension
shortnamecopy from =
    let dot : List ℕ = if get_or from 8 0 == space then [] else b'.' ∷ [] in
    take (main_length from 8) from ++ (dot ++ (extension from 8 3 ++ (0 ∷ [])))

-- `find_zero_bit`, over the bits that are left: 32 where there is none.
unfoldable pub find_zero_bit : ℕ → ℕ → ℕ
find_zero_bit zero p = 0
find_zero_bit (suc n) p =
    let higher = find_zero_bit n (p / 2) in if p % 2 == 0 then 0 else suc higher

-- `set_bit`
unfoldable pub set_bit : ℕ → ℕ → ℕ
set_bit p zero = p / 2 * 2 + 1
set_bit p (suc n) = set_bit (p / 2) n * 2 + p % 2

-- `struct file_struct`: the entries of `fd_array` are slots of open files.
pub record FileStruct : Type 0 where
  pub openfd : ℕ
  pub maxopen : ℕ
  pub fd_array : ℕ → Option ℕ

-- `get_unused_fd`: `none` for -1.
unfoldable pub get_unused_fd : FileStruct → Option ℕ × FileStruct
unfolding find_zero_bit set_bit
get_unused_fd p =
    let fd : ℕ = find_zero_bit 32 p.openfd in
    if leb p.maxopen fd then (none, p) else (some fd, record p { openfd = set_bit p.openfd fd })

-- `struct dir_entry` in its two readings, which share the first and the twelfth byte: `name` has the
-- first eleven bytes.
pub record DirEntry : Type 0 where
  pub name : List ℕ
  pub attr : ℕ
  pub fstclushi : ℕ
  pub fstcluslo : ℕ
  pub size : ℕ

-- The test on an entry: no part of a long name, and not deleted.
unfoldable pub is_listed : DirEntry → Bool
is_listed de = not (bit_and de.attr 0x3f == 0x0f) && not (get_or de.name 0 0 == 0xe5)

-- `strcmp`, of two strings with their final 0, as a test for equality.
unfoldable pub same_string : List ℕ → List ℕ → Bool
same_string (a ∷ xs) (b ∷ ys) =
    let rest = same_string xs ys in if a == b then (if a == 0 then true else rest) else false
same_string xs ys = false

-- What `scan_dentry_buf` writes to the inode that it takes.
pub record Found : Type 0 where
  pub inode : ℕ
  pub block0 : ℕ
  pub size : ℕ
  pub name : List ℕ

-- The entry that matches, with the inode that `get_inode` gives, if any.
unfoldable pub take_entry : DirEntry → Slots → Option Found × Slots
unfolding alloc_slot shortnamecopy
take_entry de s =
    let (slot, t) = alloc_slot s in
    elim slot [
      | none ↦ (none, t)
      | some ino ↦ (
        some (record {
          inode = ino;
          block0 = bit_or (u16 de.fstclushi <<< 16) (u16 de.fstcluslo);
          size = de.size;
          name = shortnamecopy de.name;
        }),
        t,
      )
    ]

-- `scan_dentry_buf`
unfoldable pub scan_dentry_buf : List DirEntry → List ℕ → Slots → Option Found × Slots
unfolding is_listed same_string take_entry
scan_dentry_buf [] name s = (none, s)
scan_dentry_buf (de ∷ rest) name s =
    let later = scan_dentry_buf rest name s in
    if is_listed de && same_string (shortnamecopy de.name) name then take_entry de s else later

-- The entries in the bytes of a directory, from the entry `i` on, `n` of them.
unfoldable pub dir_entries : (ℕ → ℕ) → ℕ → ℕ → List DirEntry
unfolding read_bytes
dir_entries bytes i zero = []
dir_entries bytes i (suc n) =
    record {
      name = read_bytes bytes (i * 32) 11;
      attr = bytes (i * 32 + 11);
      fstclushi = read_u16 bytes (i * 32 + 20);
      fstcluslo = read_u16 bytes (i * 32 + 26);
      size = read_u32 bytes (i * 32 + 28);
    }
    ∷ dir_entries bytes (i + 1) n

-- What `sys_open` works on: the inodes and the open files with their free lists, the descriptors of
-- the current process, and the number of blocks that `kmalloc` gave and `kfree` did not take back.
pub record System : Type 0 where
  pub inodes : ℕ → Inode
  pub inode_slots : Slots
  pub open_files : ℕ → ℕ × ℕ
  pub file_slots : Slots
  pub files : FileStruct
  pub buffers : ℕ

-- What `sys_open` makes of the descriptor and the open file that it gets for the inode `ino`. An
-- open file is its position and its inode. The paths that return -1 keep the inode, and the second
-- also the descriptor.
pub place : ℕ → System → Option ℕ × FileStruct → Option ℕ × Slots → Option ℕ × System
place ino s (none, fs) r = (none, s)
place ino s (some fd, fs) (none, t) = (none, record s { files = fs })
place ino s (some fd, fs) (some f, t) = (
  some fd,
  record s {
    files = record fs { fd_array = update fs.fd_array fd (some f) };
    file_slots = t;
    open_files = update s.open_files f (0, ino);
  },
)

-- From `fd=get_unused_fd(current)` on.
unfoldable pub open_inode : ℕ → System → Option ℕ × System
unfolding place
open_inode ino s = place ino s (get_unused_fd s.files) (alloc_slot s.file_slots)

-- The inode of an entry that was found, after `read_map`.
unfoldable pub fill_inode : Disk → Inode → Found → Inode → Inode
unfolding read_map
fill_inode disk root f old =
    read_map disk
      (record { i_sb = root.i_sb; size = f.size; name = f.name; block = set old.block 0 f.block0 })

-- `sys_open` from the result of the search on.
unfoldable pub open_found : Disk → Inode → System → Option Found × Slots → Option ℕ × System
unfolding fill_inode open_inode
open_found disk root s (none, t) = (none, record s { inode_slots = t; buffers = s.buffers + 3 })
open_found disk root s (some f, t) = open_inode f.inode (record s {
  inode_slots = t;
  inodes = update s.inodes f.inode (fill_inode disk root f (s.inodes f.inode));
})

-- `sys_open`, of a name in kernel memory: the name, the buffer and its data are three blocks, which
-- the path that finds nothing does not give back.
unfoldable pub sys_open : Disk → Inode → List ℕ → System → Option ℕ × System
unfolding open_found
sys_open disk root name s =
    let entries = dir_entries (block_data disk (get_or root.block 0 0)) 0 32 in
    open_found disk root s (scan_dentry_buf entries name s.inode_slots)
