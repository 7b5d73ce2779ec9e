-- ===== src/Partition/Table.antt =====
-- The partition table that `partition_check` of ker/partition.c reads, against the one that is written
-- to the disk.
use myos_ia.Prelude.{
  ℕ, zero, suc, ◌+◌, ◌++◌, ◌-◌, Bool, sub32, u32, ◌*◌, ◌/◌, ◌%◌, ◌^◌, ◌<◌, ◌≡◌, refl, ap, ◌∙◌, true,
  false, ◌&&◌, List, [], ◌∷◌, arith, ltb, ◌==◌, if◌then◌else◌, get_or, Bool-cases, inl, inr,
}
use mathlib.Core.List.{append-nil}
use myos_ia.Fs.{Disk, block_data}
use myos_ia.Partition.{
  PartitionEntry, Line, silent, partitions, read_entry, get_part_table, lines_from, check_table,
  partition_check,
}

-- The 16 bytes of an entry.
abbrev pub entry_bytes : PartitionEntry → List ℕ
entry_bytes e =
    e.bootind
    ∷ e.start_head
    ∷ e.start_sec
    ∷ e.start_cyl
    ∷ e.sysind
    ∷ e.last_head
    ∷ e.last_sec
    ∷ e.last_cyl
    ∷ e.first_log % 256
    ∷ e.first_log / 2 ^ 8 % 256
    ∷ e.first_log / 2 ^ 16 % 256
    ∷ e.first_log / 2 ^ 24
    ∷ e.size % 256
    ∷ e.size / 2 ^ 8 % 256
    ∷ e.size / 2 ^ 16 % 256
    ∷ e.size / 2 ^ 24
    ∷ []

-- A disk with the signature and the four entries of a table in its first sector.
pub record Written (disk : Disk) (tab : ℕ → PartitionEntry) : Type 0 where
  pub signature : (disk 510 ≡ 0x55) × (disk 511 ≡ 0xaa)
  pub entries :
      (i k : ℕ) → i < 4 → k < 16 → disk (0x1be + i * 16 + k) ≡ get_or (entry_bytes (tab i)) k 0

-- A byte of an entry, at any way of writing its address.
entry-byte :
    (disk : Disk) (tab : ℕ → PartitionEntry) (i k a : ℕ)
    → Written disk tab
    → i < 4
    → k < 16
    → a ≡ 0x1be + i * 16 + k
    → disk a ≡ get_or (entry_bytes (tab i)) k 0
entry-byte disk tab i k a w hi hk at = ap disk at ∙ w.entries i k hi hk

word_value :
    (n a b c d : ℕ)
    → a ≡ n % 256
    → b ≡ n / 2 ^ 8 % 256
    → c ≡ n / 2 ^ 16 % 256
    → d ≡ n / 2 ^ 24
    → a + b * 256 + (c + d * 256) * 2 ^ 16 ≡ n
word_value n a b c d ha hb hc hd = omega arith

read_entry-Written :
    (disk : Disk) (tab : ℕ → PartitionEntry) (i : ℕ)
    → Written disk tab
    → i < 4
    → read_entry (block_data disk 0) (0x1be + i * 16) ≡ tab i
unfolding read_entry
read_entry-Written disk tab i w h =
    let byte = entry-byte disk tab i in
    let at : ℕ = 0x1be + i * 16 in
    let block : ℕ = 0 * 512 in
    λ j. record {
      bootind = byte 0 (block + at) w h (omega arith) (omega arith) j;
      start_head = byte 1 (block + (at + 1)) w h (omega arith) (omega arith) j;
      start_sec = byte 2 (block + (at + 2)) w h (omega arith) (omega arith) j;
      start_cyl = byte 3 (block + (at + 3)) w h (omega arith) (omega arith) j;
      sysind = byte 4 (block + (at + 4)) w h (omega arith) (omega arith) j;
      last_head = byte 5 (block + (at + 5)) w h (omega arith) (omega arith) j;
      last_sec = byte 6 (block + (at + 6)) w h (omega arith) (omega arith) j;
      last_cyl = byte 7 (block + (at + 7)) w h (omega arith) (omega arith) j;
      first_log =
          word_value (tab i).first_log (disk (block + (at + 8))) (disk (block + (at + 8 + 1)))
            (disk (block + (at + 8 + 2))) (disk (block + (at + 8 + 2 + 1)))
            (byte 8 (block + (at + 8)) w h (omega arith) (omega arith))
            (byte 9 (block + (at + 8 + 1)) w h (omega arith) (omega arith))
            (byte 10 (block + (at + 8 + 2)) w h (omega arith) (omega arith))
            (byte 11 (block + (at + 8 + 2 + 1)) w h (omega arith) (omega arith)) j;
      size =
          word_value (tab i).size (disk (block + (at + 12))) (disk (block + (at + 12 + 1)))
            (disk (block + (at + 12 + 2))) (disk (block + (at + 12 + 2 + 1)))
            (byte 12 (block + (at + 12)) w h (omega arith) (omega arith))
            (byte 13 (block + (at + 12 + 1)) w h (omega arith) (omega arith))
            (byte 14 (block + (at + 12 + 2)) w h (omega arith) (omega arith))
            (byte 15 (block + (at + 12 + 2 + 1)) w h (omega arith) (omega arith)) j;
    }

get_part_table-Written :
    (disk : Disk) (tab old : ℕ → PartitionEntry)
    → Written disk tab
    → get_part_table (block_data disk 0) old ≡ (true, λ i. if ltb i 4 then tab i else old i)
unfolding get_part_table
get_part_table-Written disk tab old w =
    let same : (i : ℕ)
        → (if ltb i 4 then read_entry (block_data disk 0) (0x1be + i * 16) else old i)
          ≡ (if ltb i 4 then tab i else old i) =
      λ i. elim (Bool-cases (ltb i 4)) [
        | inl low ↦ rw low (read_entry-Written disk tab i w (ground arith))
        | inr high ↦ rw high refl
      ] in
    rw (w.signature.0, w.signature.1) (λ j. (true, λ i. same i j))

-- The line for the entry `i`: none for the type 0. The last sector is the one before the sector
-- `first_log + size`, on 32 bits.
abbrev pub listed : (ℕ → PartitionEntry) → ℕ → List Line
listed tab i =
    if (tab i).sysind == 0
    then []
    else record {
      number = i;
      active = (tab i).bootind == 0x80;
      first = (tab i).first_log;
      last = ((tab i).first_log + (tab i).size + (2 ^ 32 - 1)) % 2 ^ 32;
    }
      ∷ []

-- The lines from the entry `i` on.
abbrev listed_from : (ℕ → PartitionEntry) → ℕ → ℕ → List Line
listed_from tab i zero = []
listed_from tab i (suc n) = listed tab i ++ listed_from tab (i + 1) n

lines_from-listed : (tab : ℕ → PartitionEntry) (i n : ℕ) → lines_from tab i n ≡ listed_from tab i n
unfolding lines_from
lines_from-listed tab i zero = refl
lines_from-listed tab i (suc n) = elim (Bool-cases ((tab i).sysind == 0)) [
  | inl free ↦ rw free (lines_from-listed tab (i + 1) n)
  | inr used ↦
      let last : sub32 (u32 ((tab i).first_log + (tab i).size)) 1
          ≡ ((tab i).first_log + (tab i).size + (2 ^ 32 - 1)) % 2 ^ 32 =
        omega arith in
      rw (used, last)
        (λ j.
          record {
            number = i;
            active = (tab i).bootind == 0x80;
            first = (tab i).first_log;
            last = ((tab i).first_log + (tab i).size + (2 ^ 32 - 1)) % 2 ^ 32;
          }
          ∷ lines_from-listed tab (i + 1) n j)
]

-- On a disk that carries the signature and a partition table, `partition_check` reads every one of the
-- four entries as it was written. It prints a line for each entry whose type is not 0, in their order,
-- with the number of the entry, whether the boot indicator is 0x80, and the first and the last sector
-- on 32 bits. It says that the file system is not supported unless the first entry has the type 6 or
-- 11.
pub partition_check-Written :
    (disk : Disk) (tab old : ℕ → PartitionEntry)
    → Written disk tab
    → let (report, read) = partition_check disk old in
      ((i : ℕ) → read i ≡ (if ltb i 4 then tab i else old i))
      × (report
          ≡ partitions
              (listed tab 0 ++ (listed tab 1 ++ (listed tab 2 ++ listed tab 3)))
              (if (tab 0).sysind == 6 then false else if (tab 0).sysind == 11 then false else true))
unfolding partition_check check_table
partition_check-Written disk tab old w =
    let other : Bool =
      if (tab 0).sysind == 6 then false else if (tab 0).sysind == 11 then false else true in
    let read = ap check_table (get_part_table-Written disk tab old w) in
    let four : lines_from tab 0 4
        ≡ listed tab 0 ++ (listed tab 1 ++ (listed tab 2 ++ listed tab 3)) =
      lines_from-listed tab 0 4
      ∙ ap (λ t. listed tab 0 ++ (listed tab 1 ++ (listed tab 2 ++ t)))
          (append-nil (listed tab 3)) in
    (λ i. ap (λ r. r.1 i) read, ap (λ r. r.0) read ∙ ap (λ l. partitions l other) four)

-- Without the signature it keeps the table that it was given and prints nothing.
partition_check-silent :
    (disk : Disk) (old : ℕ → PartitionEntry)
    → (disk 510 == 0x55 && disk 511 == 0xaa) ≡ false
    → partition_check disk old ≡ (silent, old)
unfolding partition_check get_part_table check_table
partition_check-silent disk old unsigned = rw unsigned refl
