-- ===== src/Fs/Super.antt =====
-- fs/super.c: the super blocks of the mounted volumes, and what `read_super` makes of the boot sector
-- of a FAT volume. A super block is its index in `super_block`; `rootdir` has the index of its root
-- inode, and `woken` the super blocks whose wait queue was woken, last first.
pub mod Layout
pub mod Lookup
pub mod Mount
mod Tests
use myos_ia.Prelude.{
  ℕ, zero, suc, ◌+◌, ◌-◌, ◌*◌, ◌/◌, ◌^◌, Bool, true, false, Option, none, some, List, [], ◌∷◌, ltb,
  ◌==◌, if◌then◌else◌, set, u32, sub32,
}
use myos_ia.Sched.{update}
use myos_ia.Slot.{Slots, alloc_slot}
use myos_ia.Fs.{Disk, block_data, SuperBlock, Inode}
use myos_ia.Fs.Fat.{read_u16, read_u32}
use myos_ia.Fs.Read.{fst_sec_of_data_clu}

abbrev pub nr_super : ℕ
nr_super = 2

pub record Supers : Type 0 where
  pub blocks : ℕ → SuperBlock
  pub rootdir : ℕ → Option ℕ
  pub woken : List ℕ

-- A process that finds a lock set goes to sleep in the wait queue of the super block: `sleeps`. A
-- loop that outlives its fuel is `spins`; `faults` is a division by 0 or a write through NULL.
pub data Outcome {ℓ} (A : Type ℓ) : Type ℓ where
  ok : A → Outcome A
  sleeps : ℕ → Outcome A
  spins : Outcome A
  panics : Outcome A
  faults : Outcome A

infixl 5 ◌>>=◌
abbrev pub ◌>>=◌ {ℓ κ} : {A : Type ℓ} {B : Type κ} → Outcome A → (A → Outcome B) → Outcome B
ok a >>= f = f a
sleeps i >>= f = sleeps i
spins >>= f = spins
panics >>= f = panics
faults >>= f = faults

-- `wait_on_super`
pub wait_on_super : ℕ → Supers → Outcome Supers
wait_on_super i s = if (s.blocks i).locked == 0 then ok s else sleeps i

-- `lock_super`
pub lock_super : ℕ → Supers → Outcome Supers
lock_super i s =
    if (s.blocks i).locked == 0
    then ok (record s { blocks = update s.blocks i (record (s.blocks i) { locked = 1 }) })
    else sleeps i

-- `unlock_super`
pub unlock_super : ℕ → Supers → Supers
unlock_super i s = record s {
  blocks = update s.blocks i (record (s.blocks i) { locked = 0 });
  woken = i ∷ s.woken;
}

-- `get_empty_super`: the loop does not move to the next super block.
pub get_empty_super : ℕ → Supers → Outcome (Option ℕ)
get_empty_super zero s = spins
get_empty_super (suc fuel) s = elim ((s.blocks 0).dev == 0) [
  | true ↦ ok (some 0)
  | false ↦ get_empty_super fuel s
]

-- The loop of `get_super`, from the super block `i` on, for `n` of them.
pub find_super : ℕ → ℕ → ℕ → Supers → Outcome (Option ℕ)
find_super dev i zero s = ok none
find_super dev i (suc n) s = elim ((s.blocks i).dev == dev) [
  | true ↦ wait_on_super i s >>= λ t. ok (some i)
  | false ↦ find_super dev (i + 1) n s
]

-- `get_super`; while nobody sleeps, the second look at `dev` after the wait finds the same.
pub get_super : ℕ → Supers → Outcome (Option ℕ)
unfolding find_super wait_on_super
get_super dev s = if dev == 0 then ok none else find_super dev 0 nr_super s

-- `put_super`
pub put_super : ℕ → Supers → Outcome Supers
unfolding lock_super unlock_super
put_super i s = do
  t ← lock_super i s
  ok (unlock_super i (record t { blocks = update t.blocks i (record (t.blocks i) { dev = 0 }) }))

-- What `read_super` uses of `struct boot_sector`, at its offsets.
pub record BootSector : Type 0 where
  pub sector_size : ℕ
  pub cluster_size : ℕ
  pub reserved : ℕ
  pub fat_number : ℕ
  pub dir_number : ℕ
  pub totsec16 : ℕ
  pub fatsz16 : ℕ
  pub sectorspertrack : ℕ
  pub heads : ℕ
  pub hidden : ℕ
  pub totsec32 : ℕ
  pub fatsz32 : ℕ
  pub rootclus : ℕ

pub boot_sector : (ℕ → ℕ) → BootSector
boot_sector bytes = record {
  sector_size = read_u16 bytes 11;
  cluster_size = bytes 13;
  reserved = read_u16 bytes 14;
  fat_number = bytes 16;
  dir_number = read_u16 bytes 17;
  totsec16 = read_u16 bytes 19;
  fatsz16 = read_u16 bytes 22;
  sectorspertrack = read_u16 bytes 24;
  heads = read_u16 bytes 26;
  hidden = read_u32 bytes 28;
  totsec32 = read_u32 bytes 32;
  fatsz32 = read_u32 bytes 36;
  rootclus = read_u32 bytes 44;
}

-- `fatsz`, `totsec`, `rootdirsectors`, and the sectors in front of the data region.
abbrev pub fat_size : BootSector → ℕ
fat_size bs = if bs.fatsz16 == 0 then bs.fatsz32 else bs.fatsz16

abbrev pub total_sectors : BootSector → ℕ
total_sectors bs = if bs.totsec16 == 0 then bs.totsec32 else bs.totsec16

abbrev pub root_dir_sectors : BootSector → ℕ
root_dir_sectors bs = u32 (bs.dir_number * 32 + (bs.sector_size - 1)) / bs.sector_size

abbrev pub meta_sectors : BootSector → ℕ
meta_sectors bs = u32 (bs.reserved + bs.fat_number * fat_size bs + root_dir_sectors bs)

-- `bd->type`, by the count of clusters.
abbrev pub fat_type : ℕ → ℕ
fat_type count = if ltb count 4085 then 1 else if ltb count 65525 then 2 else 3

-- `datasec/bs->cluster_size`
abbrev pub cluster_count : BootSector → ℕ
cluster_count bs = sub32 (total_sectors bs) (meta_sectors bs) / bs.cluster_size

-- The super block that `read_super` fills, between `lock_super` and `unlock_super`.
pub fill_super : BootSector → SuperBlock → SuperBlock
unfolding fst_sec_of_data_clu
fill_super bs old =
    let bd : SuperBlock = record old {
      dev = 1;
      data_first_sec = u32 (old.base + meta_sectors bs);
      cluster_size = bs.cluster_size;
    } in
    let kind : ℕ = fat_type (cluster_count bs) in
    record bd {
      type = kind;
      dir_first_sec =
          if kind == 3
          then fst_sec_of_data_clu bd bs.rootclus
          else u32 (bd.base + bs.reserved + bs.fat_number * fat_size bs);
      resvdseccnt = bs.reserved;
      sector_size = bs.sector_size;
      fat_number = bs.fat_number;
      dir_number = bs.dir_number;
      sector_number = total_sectors bs;
      sectorsperfat = fat_size bs;
      sectorspertrack = bs.sectorspertrack;
      heads = bs.heads;
      hidden = bs.hidden;
    }

-- `read_super` from `lock_super` to `unlock_super`.
pub fill_locked : BootSector → ℕ → Supers → Outcome (Option ℕ × Supers)
fill_locked bs i s =
    let filled : Supers = record s { blocks = update s.blocks i (fill_super bs (s.blocks i)) } in
    if bs.cluster_size == 0 then faults else ok (some i, unlock_super i filled)

-- `read_super` from `get_empty_super` on: `first_log` is the first sector of the partition.
pub read_boot : Disk → ℕ → ℕ → Supers → Outcome (Option ℕ × Supers)
read_boot disk first_log i s =
    let old : SuperBlock = record (s.blocks i) { base = first_log } in
    let based : Supers = record s { blocks = update s.blocks i old } in
    let bs = boot_sector (block_data disk first_log) in
    if bs.sector_size == 512
    then (do locked ← lock_super i based; fill_locked bs i locked)
    else panics

-- `read_super`
pub read_super : ℕ → Disk → ℕ → ℕ → Supers → Outcome (Option ℕ × Supers)
read_super fuel disk dev first_log s = do
  known ← get_super dev s
  elim known [
    | some i ↦ ok (some i, s)
    | none ↦ do
      empty ← get_empty_super fuel s
      elim empty [ none ↦ ok (none, s) | some i ↦ read_boot disk first_log i s ]
  ]

-- The volumes with the inodes and their free list.
pub record Volumes : Type 0 where
  pub supers : Supers
  pub inodes : ℕ → Inode
  pub inode_slots : Slots

-- `mount_fs` from `get_inode` on, for the super block `sp`; the NULL that `get_inode` may return is
-- not looked at.
pub mount_root : ℕ → Volumes → Option ℕ × Slots → Outcome Volumes
mount_root sp v (none, slots) = faults
mount_root sp v (some rip, slots) = do
  locked ← lock_super sp v.supers
  let s = unlock_super sp (record locked { rootdir = update locked.rootdir sp (some rip) })
  let sb : SuperBlock = s.blocks sp
  ok (record {
    supers = s;
    inode_slots = slots;
    inodes = update v.inodes rip (record (v.inodes rip) {
      block = set (v.inodes rip).block 0 sb.dir_first_sec;
      size = u32 (sb.dir_number * 32);
      i_sb = sb;
    });
  })

-- What `mount_fs` makes of the answer of `read_super`.
pub mount_found : Volumes → Option ℕ × Supers → Outcome Volumes
mount_found v (none, s) = panics
mount_found v (some sp, s) = mount_root sp (record v { supers = s }) (alloc_slot v.inode_slots)

-- `mount_fs`, after `super_cache_init`, which empties the wait queues.
pub mount_fs : ℕ → Disk → ℕ → Volumes → Outcome Volumes
mount_fs fuel disk first_log v = read_super fuel disk 1 first_log v.supers >>= mount_found v
