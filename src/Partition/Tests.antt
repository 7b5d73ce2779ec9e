-- ===== src/Partition/Tests.antt =====
-- A disk with one active FAT partition from sector 63 on.
use myos_ia.Prelude.{
  ℕ, ◌+◌, ◌-◌, ◌*◌, ◌≡◌, refl, true, false, [], ◌∷◌, ltb, ◌==◌, ==_iff, Bool, if◌then◌else◌, get_or,
}
use myos_ia.Prelude.Bits.{every, every-at}
use myos_ia.Fs.{Disk}
use myos_ia.Partition.{PartitionEntry, partitions, partition_check}
use myos_ia.Partition.Table.{entry_bytes, Written, partition_check-Written}

abbrev unused : PartitionEntry
unused = record {
  bootind = 0;
  start_head = 0;
  start_sec = 0;
  start_cyl = 0;
  sysind = 0;
  last_head = 0;
  last_sec = 0;
  last_cyl = 0;
  first_log = 0;
  size = 0;
}

abbrev table : ℕ → PartitionEntry
table i =
    if i == 0
    then record unused { bootind = 0x80; sysind = 6; first_log = 63; size = 40000 }
    else unused

abbrev disk : Disk
disk a =
    if a == 510
    then 0x55
    else if a == 511
    then 0xaa
    else if ltb (a - 0x1be) 16
    then get_or (entry_bytes (table 0)) (a - 0x1be) 0
    else 0

-- The 64 bytes of the table, one by one.
holds : ℕ → ℕ → Bool
holds i k = disk (0x1be + i * 16 + k) == get_or (entry_bytes (table i)) k 0

written : Written disk table
unfolding every holds
written = record {
  signature = (refl, refl);
  entries = λ i k hi hk.
      (==_iff (disk (0x1be + i * 16 + k)) (get_or (entry_bytes (table i)) k 0)).0
        (every-at (holds i) 16 (every-at (λ i. every (holds i) 16) 4 refl i hi) k hk);
}

partition_check-Written_example :
    let (report, read) = partition_check disk (λ i. unused) in
    ((i : ℕ) → read i ≡ (if ltb i 4 then table i else unused))
    × (report
        ≡ partitions (record { number = 0; active = true; first = 63; last = 40062 } ∷ []) false)
partition_check-Written_example = partition_check-Written disk table (λ i. unused) written
