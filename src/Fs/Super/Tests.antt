-- ===== src/Fs/Super/Tests.antt =====
-- A volume of 40000 sectors with 16-bit entries in the partition that starts at sector 63.
use myos_ia.Prelude.{
  ℕ, ◌+◌, ◌-◌, ◌*◌, ◌≡◌, refl, none, some, List, [], ◌∷◌, ◌++◌, arith, ◌==◌, if◌then◌else◌, get_or,
  replicate,
}
use myos_ia.Fs.{Disk, SuperBlock}
use myos_ia.Fs.Super.{Supers, spins, read_super, Volumes}
use myos_ia.Fs.Super.Lookup.{read_super-again}

-- The first 48 bytes of the sector; the rest are 0.
abbrev boot_bytes : List ℕ
boot_bytes =
    replicate 11 0
    ++ (0 ∷ 2 ∷ 4 ∷ 1 ∷ 0 ∷ 2 ∷ 0 ∷ 2 ∷ 0 ∷ 0 ∷ 0xf8 ∷ 40 ∷ 0 ∷ 63 ∷ 0 ∷ 16 ∷ 0 ∷ 63 ∷ 0 ∷ 0 ∷ 0
        ∷ 0x40 ∷ 0x9c ∷ 0 ∷ 0 ∷ [])

abbrev disk : Disk
disk a = get_or boot_bytes (a - 63 * 512) 0

abbrev volume : SuperBlock
volume = record {
  base = 0;
  sector_size = 512;
  cluster_size = 1;
  fat_number = 1;
  sector_number = 100;
  sectorsperfat = 1;
  sectorspertrack = 9;
  resvdseccnt = 1;
  heads = 2;
  hidden = 0;
  type = 1;
  dir_first_sec = 2;
  dir_number = 16;
  data_first_sec = 3;
  locked = 0;
  dev = 1;
}

abbrev unused : SuperBlock
unused = record volume { dev = 0 }

abbrev supers : Supers
supers = record { blocks = λ i. unused; rootdir = λ i. none; woken = [] }

abbrev volumes : Volumes
volumes = record {
  supers = supers;
  inodes = λ i. record { i_sb = unused; size = 0; name = []; block = replicate 10 0 };
  inode_slots = record { head = some 5; link = λ i. some (i + 1) };
}

-- A second partition after that, with 100 rounds of fuel.
abbrev busy : Supers
busy = record supers { blocks = λ i. if i == 0 then volume else unused }

read_super-again_example : read_super 100 disk 2 9000 busy ≡ spins
read_super-again_example =
    read_super-again 100 disk 2 9000 busy (ground arith) refl refl (ground arith)
