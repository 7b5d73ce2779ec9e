-- ===== src/Partition.antt =====
-- ker/partition.c: the partition table of the disk. A sector is a function from offsets to bytes, as
-- `bread` fills it, and a table gives the entries by their index.
pub mod Table
mod Tests
use myos_ia.Prelude.{
  ℕ, zero, suc, ◌+◌, ◌-◌, ◌*◌, ◌%◌, ◌^◌, Bool, true, false, ◌&&◌, List, [], ◌∷◌, ltb, ◌==◌,
  if◌then◌else◌, u32, sub32,
}
use myos_ia.Fs.{Disk, block_data}
use myos_ia.Fs.Fat.{read_u32}

-- `struct partition_entry`
pub record PartitionEntry : Type 0 where
  pub bootind : ℕ
  pub start_head : ℕ
  pub start_sec : ℕ
  pub start_cyl : ℕ
  pub sysind : ℕ
  pub last_head : ℕ
  pub last_sec : ℕ
  pub last_cyl : ℕ
  pub first_log : ℕ
  pub size : ℕ

abbrev pub no_part : ℕ
no_part = 0x00

abbrev pub fat12_part : ℕ
fat12_part = 0x06

abbrev pub fat32_part : ℕ
fat32_part = 0x0b

-- The entry whose bytes begin at `at`.
pub read_entry : (ℕ → ℕ) → ℕ → PartitionEntry
read_entry boot at = record {
  bootind = boot at;
  start_head = boot (at + 1);
  start_sec = boot (at + 2);
  start_cyl = boot (at + 3);
  sysind = boot (at + 4);
  last_head = boot (at + 5);
  last_sec = boot (at + 6);
  last_cyl = boot (at + 7);
  first_log = read_u32 boot (at + 8);
  size = read_u32 boot (at + 12);
}

-- `get_part_table`: the answer, and the table, of which four entries are written.
pub get_part_table : (ℕ → ℕ) → (ℕ → PartitionEntry) → Bool × (ℕ → PartitionEntry)
unfolding read_entry
get_part_table boot table =
    if boot 510 == 0x55 && boot 511 == 0xaa
    then (true, λ i. if ltb i 4 then read_entry boot (0x1be + i * 16) else table i)
    else (false, table)

-- A line about a partition: its number, whether it is active, its first and its last sector.
pub record Line : Type 0 where
  pub number : ℕ
  pub active : Bool
  pub first : ℕ
  pub last : ℕ

-- The loop of `partition_check`, from the entry `i` on for `n` entries.
pub lines_from : (ℕ → PartitionEntry) → ℕ → ℕ → List Line
lines_from tab i zero = []
lines_from tab i (suc n) =
    let rest = lines_from tab (i + 1) n in
    let tap : PartitionEntry = tab i in
    if tap.sysind == no_part
    then rest
    else record {
      number = i;
      active = tap.bootind == 0x80;
      first = tap.first_log;
      last = sub32 (u32 (tap.first_log + tap.size)) 1;
    }
      ∷ rest

-- What `partition_check` prints, and whether it says that the file system is not supported.
pub data Report : Type 0 where
  silent : Report
  partitions : List Line → Bool → Report

-- `partition_check`, with the answer of `get_part_table`.
pub check_table : Bool × (ℕ → PartitionEntry) → Report × (ℕ → PartitionEntry)
unfolding lines_from
check_table (found, tab) =
    let other : Bool =
      if (tab 0).sysind == fat12_part
      then false
      else if (tab 0).sysind == fat32_part
      then false
      else true in
    if found then (partitions (lines_from tab 0 4) other, tab) else (silent, tab)

-- `partition_check`
pub partition_check : Disk → (ℕ → PartitionEntry) → Report × (ℕ → PartitionEntry)
unfolding get_part_table check_table
partition_check disk table = check_table (get_part_table (block_data disk 0) table)
