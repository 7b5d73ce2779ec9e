-- ===== src/Fs/Open/Tests.antt =====
-- A root directory with one file, ZT.COM, on a disk that is otherwise empty.
use myos_ia.Prelude.{
  ℕ, ◌-◌, ◌≡◌, refl, true, none, some, List, [], ◌∷◌, ◌++◌, arith, ltb, ◌==◌, if◌then◌else◌, get_or,
  replicate,
}
use myos_ia.Slot.{Slots, init_slot}
use myos_ia.Slot.Free.{IsFree, count_up, init_slot-IsFree}
use myos_ia.Fs.{Disk, SuperBlock, Inode}
use myos_ia.Fs.Open.{
  shortnamecopy, FileStruct, get_unused_fd, DirEntry, dir_entries, is_listed, same_string, System,
  sys_open,
}
use myos_ia.Fs.Open.Names.{pad, shortnamecopy-pad}
use myos_ia.Fs.Open.Search.{matches, Opened, root_entries, sys_open-Opened}

abbrev zt_com : List ℕ
zt_com = b'Z' ∷ b'T' ∷ 0x20 ∷ 0x20 ∷ 0x20 ∷ 0x20 ∷ 0x20 ∷ 0x20 ∷ b'C' ∷ b'O' ∷ b'M' ∷ []

abbrev zt_com_string : List ℕ
zt_com_string = b'Z' ∷ b'T' ∷ 0x2e ∷ b'C' ∷ b'O' ∷ b'M' ∷ 0 ∷ []

shortnamecopy-pad_example :
    shortnamecopy (pad 8 (b'Z' ∷ b'T' ∷ []) ++ pad 3 (b'C' ∷ b'O' ∷ b'M' ∷ [])) ≡ zt_com_string
shortnamecopy-pad_example =
    shortnamecopy-pad (b'Z' ∷ []) b'T' (b'C' ∷ b'O' ∷ b'M' ∷ []) (omega arith) (ground arith)
      (omega arith) (ground arith)

-- The descriptors 0 and 1 are in use.
abbrev two_used : FileStruct
two_used = record { openfd = 3; maxopen = 5; fd_array = λ fd. none }

takes_2 : get_unused_fd two_used ≡ (some 2, record two_used { openfd = 7 })
unfolding get_unused_fd
takes_2 = refl

abbrev volume : SuperBlock
volume = record {
  base = 0;
  sector_size = 512;
  cluster_size = 1;
  fat_number = 1;
  sector_number = 100;
  sectorsperfat = 1;
  sectorspertrack = 9;
  resvdseccnt = 1;
  heads = 2;
  hidden = 0;
  type = 1;
  dir_first_sec = 2;
  dir_number = 16;
  data_first_sec = 3;
  locked = 0;
  dev = 1;
}

-- The directory is in sector 2, and the file begins with cluster 5.
abbrev disk : Disk
disk a =
    if ltb a 1024
    then 0
    else if ltb a 1035
    then get_or zt_com (a - 1024) 0
    else if a == 1050
    then 5
    else if a == 1052
    then 100
    else 0

abbrev root : Inode
root = record { i_sb = volume; size = 512; name = []; block = 2 ∷ replicate 11 0 }

abbrev blank : Slots
blank = record { head = none; link = λ i. none }

abbrev system : System
system = record {
  inodes = λ i. root;
  inode_slots = init_slot 20 blank;
  open_files = λ i. (0, 0);
  file_slots = init_slot 8 blank;
  files = two_used;
  buffers = 0;
}

abbrev zt_entry : DirEntry
zt_entry = record { name = zt_com; attr = 0; fstclushi = 0; fstcluslo = 5; size = 100 }

abbrev empty_entry : DirEntry
empty_entry = record { name = replicate 11 0; attr = 0; fstclushi = 0; fstcluslo = 0; size = 0 }

the_entries : root_entries disk root ≡ zt_entry ∷ replicate 31 empty_entry
unfolding dir_entries
the_entries = refl

zt_matches : matches zt_entry zt_com_string ≡ true
unfolding shortnamecopy is_listed same_string
zt_matches = refl

sys_open-Opened_example :
    (t : System) × (sys_open disk root zt_com_string system ≡ (some 2, t))
    × Opened disk root zt_entry system 0 0 2 t
    × IsFree t.inode_slots (count_up 1 19)
    × IsFree t.file_slots (count_up 1 7)
sys_open-Opened_example =
    sys_open-Opened disk root zt_com_string system [] zt_entry (replicate 31 empty_entry) 0 0 2
      (count_up 1 19) (count_up 1 7) (record two_used { openfd = 7 }) the_entries tt zt_matches
      (init_slot-IsFree 19 blank) (init_slot-IsFree 7 blank) takes_2
