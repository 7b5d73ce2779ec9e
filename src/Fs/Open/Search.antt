-- ===== src/Fs/Open/Search.antt =====
-- `sys_open` of fs/open.c on each of its ways.
use myos_ia.Prelude.{
  ℕ, ◌+◌, ◌≡◌, refl, ap, ◌∙◌, Bool, true, false, ◌&&◌, none, some, List, [], ◌∷◌, ◌++◌, arith, ◌==◌,
  get_or, set, bit_or, u16, ◌<<<◌,
}
use myos_ia.Sched.{update}
use myos_ia.Slot.{Slots, alloc_slot}
use myos_ia.Slot.Free.{IsFree, alloc_slot-Taken}
use myos_ia.Fs.{Disk, block_data, Inode}
use myos_ia.Fs.Fat.{read_map}
use myos_ia.Fs.Open.{
  shortnamecopy, FileStruct, get_unused_fd, DirEntry, is_listed, same_string, take_entry,
  scan_dentry_buf, dir_entries, System, place, open_inode, open_found, sys_open,
}

abbrev pub matches : DirEntry → List ℕ → Bool
matches de name = is_listed de && same_string (shortnamecopy de.name) name

abbrev pub Missed : List DirEntry → List ℕ → Type 0
Missed [] name = Unit
Missed (de ∷ rest) name = (matches de name ≡ false) × Missed rest name

scan-Missed :
    (entries : List DirEntry) (name : List ℕ) (s : Slots)
    → Missed entries name
    → scan_dentry_buf entries name s ≡ (none, s)
unfolding scan_dentry_buf
scan-Missed [] name s m = refl
scan-Missed (de ∷ rest) name s (miss, m) = rw (miss, scan-Missed rest name s m) refl

scan-match :
    (before : List DirEntry) (de : DirEntry) (rest : List DirEntry) (name : List ℕ) (s : Slots)
    → Missed before name
    → matches de name ≡ true
    → scan_dentry_buf (before ++ (de ∷ rest)) name s ≡ take_entry de s
unfolding scan_dentry_buf
scan-match [] de rest name s m hit = rw hit refl
scan-match (b ∷ before) de rest name s (miss, m) hit =
    rw miss (scan-match before de rest name s m hit)

-- The entries that `sys_open` looks at: those of the first two sectors of the root directory.
abbrev pub root_entries : Disk → Inode → List DirEntry
root_entries disk root = dir_entries (block_data disk (get_or root.block 0 0)) 0 32

-- `sys_open` of a name that no entry has returns -1 and keeps the three blocks that it allocated.
pub sys_open-Missed :
    (disk : Disk) (root : Inode) (name : List ℕ) (s : System)
    → Missed (root_entries disk root) name
    → sys_open disk root name s ≡ (none, record s { buffers = s.buffers + 3 })
unfolding sys_open
sys_open-Missed disk root name s m =
    ap (open_found disk root s) (scan-Missed (root_entries disk root) name s.inode_slots m)

-- What `sys_open` leaves when it goes through: the descriptor names an open file at position 0 of an
-- inode that was free, with the size and the chain of clusters of the entry.
pub record Opened (disk : Disk) (root : Inode) (de : DirEntry) (s : System) (x y fd : ℕ)
    (t : System) : Type 0 where
  pub descriptor : t.files.fd_array fd ≡ some y
  pub position : t.open_files y ≡ (0, x)
  pub file_size : (t.inodes x).size ≡ de.size
  pub map :
      t.inodes x
      ≡ read_map disk (record {
        i_sb = root.i_sb;
        size = de.size;
        name = shortnamecopy de.name;
        block = set (s.inodes x).block 0 (bit_or (u16 de.fstclushi <<< 16) (u16 de.fstcluslo));
      })
  pub buffers : t.buffers ≡ s.buffers

take_entry-IsFree :
    (de : DirEntry) (s : Slots) (x : ℕ) (xs : List ℕ)
    → IsFree s (x ∷ xs)
    → (t : Slots) × (take_entry de s ≡ (
      some (record {
        inode = x;
        block0 = bit_or (u16 de.fstclushi <<< 16) (u16 de.fstcluslo);
        size = de.size;
        name = shortnamecopy de.name;
      }),
      t,
    ))
      × IsFree t xs
unfolding take_entry
take_entry-IsFree de s x xs f =
    let (taken, free, new) = alloc_slot-Taken s (x ∷ xs) f in
    let (slot, t) = alloc_slot s in (t, rw (taken, take_entry) refl, free)

update_self : (f : ℕ → Inode) (x : ℕ) (i : Inode) → update f x i x ≡ i
update_self f x i = let same : (x == x) ≡ true = ground arith in rw same refl

-- `open_inode` where it finds a descriptor and an open file.
with_file : ℕ → System → ℕ → ℕ → FileStruct → System
with_file ino s fd y fs = record s {
  files = record fs { fd_array = update fs.fd_array fd (some y) };
  file_slots = (alloc_slot s.file_slots).1;
  open_files = update s.open_files y (0, ino);
}

open_inode-with_file :
    (ino : ℕ) (s : System) (fd y : ℕ) (fs : FileStruct)
    → get_unused_fd s.files ≡ (some fd, fs)
    → (alloc_slot s.file_slots).0 ≡ some y
    → open_inode ino s ≡ (some fd, with_file ino s fd y fs)
unfolding open_inode with_file
open_inode-with_file ino s fd y fs unused taken =
    ap (λ r. place ino s r (alloc_slot s.file_slots)) unused
    ∙ ap (λ o. place ino s (some fd, fs) (o, (alloc_slot s.file_slots).1)) taken

read_map-size : (disk : Disk) (ip : Inode) → (read_map disk ip).size ≡ ip.size
unfolding read_map
read_map-size disk ip = refl

-- `sys_open` looks at the 32 entries of the first two sectors of the root directory. For a name that
-- one of those entries has and none of those before it, with a free inode, a free open file and an
-- unused descriptor, it returns the descriptor and opens the file of the entry: `Opened` says what it
-- leaves, and the inode and the open file are off their free lists.
pub sys_open-Opened :
    (disk : Disk) (root : Inode) (name : List ℕ) (s : System) (before : List DirEntry)
    (de : DirEntry) (rest : List DirEntry) (x y fd : ℕ) (xs ys : List ℕ) (fs : FileStruct)
    → root_entries disk root ≡ before ++ (de ∷ rest)
    → Missed before name
    → matches de name ≡ true
    → IsFree s.inode_slots (x ∷ xs)
    → IsFree s.file_slots (y ∷ ys)
    → get_unused_fd s.files ≡ (some fd, fs)
    → (t : System) × (sys_open disk root name s ≡ (some fd, t))
      × Opened disk root de s x y fd t
      × IsFree t.inode_slots xs
      × IsFree t.file_slots ys
unfolding sys_open with_file
sys_open-Opened disk root name s before de rest x y fd xs ys fs entries m hit fi ff unused =
    let (inodes, took, inodes_free) = take_entry-IsFree de s.inode_slots x xs fi in
    let (taken, files_free, new) = alloc_slot-Taken s.file_slots (y ∷ ys) ff in
    let found : scan_dentry_buf (root_entries disk root) name s.inode_slots
        ≡ take_entry de s.inode_slots =
      ap (λ e. scan_dentry_buf e name s.inode_slots) entries
      ∙ scan-match before de rest name s.inode_slots m hit in
    let ip : Inode = record {
      i_sb = root.i_sb;
      size = de.size;
      name = shortnamecopy de.name;
      block = set (s.inodes x).block 0 (bit_or (u16 de.fstclushi <<< 16) (u16 de.fstcluslo));
    } in
    let u : System = record s {
      inode_slots = inodes;
      inodes = update s.inodes x (read_map disk ip);
    } in
    (
      with_file x u fd y fs,
      ap (open_found disk root s) (found ∙ took) ∙ open_inode-with_file x u fd y fs unused taken,
      record {
        descriptor = ground arith;
        position = ground arith;
        file_size =
            ap (λ i. i.size) (update_self s.inodes x (read_map disk ip)) ∙ read_map-size disk ip;
        map = update_self s.inodes x (read_map disk ip);
        buffers = refl;
      },
      inodes_free,
      files_free,
    )
