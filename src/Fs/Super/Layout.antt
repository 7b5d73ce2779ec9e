-- ===== src/Fs/Super/Layout.antt =====
-- Where `read_super` of fs/super.c puts the parts of a volume, against the layout of FAT: the
-- reserved sectors, the tables, the root directory, and then the clusters from number 2 on.
use myos_ia.Prelude.{
  ℕ, suc, ◌+◌, ◌-◌, ◌*◌, ◌/◌, ◌^◌, ◌≤◌, ◌<◌, ◌≡◌, ◌≢◌, refl, ap, ◌∙◌, true, false, some, none,
  arith, ◌==◌, sub32,
}
use mathlib.Core.Path.{subst}
use native.Mathlib.Nat.{mod-eq_of_lt, div-mul-le_self, mul-le-mul_right, mul-le-mul_left}
use myos_ia.Sched.{update}
use myos_ia.Fs.{Disk, block_data, SuperBlock}
use myos_ia.Fs.Read.{fst_sec_of_data_clu}
use myos_ia.Fs.Super.{
  Supers, ok, BootSector, boot_sector, fat_size, total_sectors, root_dir_sectors, meta_sectors,
  fat_type, cluster_count, fill_super, fill_locked, read_boot, lock_super, unlock_super, get_super,
  get_empty_super, read_super,
}
use myos_ia.Fs.Super.Lookup.{get_super-none}

-- The sectors of the tables, and those before the clusters.
abbrev fat_sectors : BootSector → ℕ
fat_sectors bs = bs.fat_number * fat_size bs

abbrev root_sectors : BootSector → ℕ
root_sectors bs = (bs.dir_number * 32 + 511) / 512

-- A boot sector whose parts fit into the volume, and whose volume lies on the disk.
pub record Fits (bs : BootSector) (base : ℕ) : Type 0 where
  pub sectors : bs.sector_size ≡ 512
  pub clusters : 0 < bs.cluster_size
  pub directory : bs.dir_number < 2 ^ 16
  pub parts : bs.reserved + fat_sectors bs + root_sectors bs ≤ total_sectors bs
  pub ends : base + total_sectors bs < 2 ^ 32

-- The layout: the clusters start where the root directory ends, and `count` of them fit.
pub record LaidOut (bs : BootSector) (base count : ℕ) (sb : SuperBlock) : Type 0 where
  pub data_start : sb.data_first_sec ≡ base + (bs.reserved + fat_sectors bs + root_sectors bs)
  pub count_is :
      count
      ≡ (total_sectors bs - (bs.reserved + fat_sectors bs + root_sectors bs)) / bs.cluster_size
  pub entries : sb.dir_number ≡ bs.dir_number
  pub fat12 : count < 4085 → sb.type ≡ 1
  pub fat16 : 4085 ≤ count → count < 65525 → sb.type ≡ 2
  pub fat32 : 65525 ≤ count → sb.type ≡ 3
  pub first : fst_sec_of_data_clu sb 2 ≡ sb.data_first_sec
  pub root_dir : sb.type ≢ 3 → sb.dir_first_sec ≡ base + bs.reserved + fat_sectors bs
  pub root_cluster : sb.type ≡ 3 → sb.dir_first_sec ≡ fst_sec_of_data_clu sb bs.rootclus
  pub inside :
      (k : ℕ)
      → k < count
      → fst_sec_of_data_clu sb (k + 2) + sb.cluster_size ≤ base + total_sectors bs

cluster-inside : (k d c : ℕ) → k < d / c → k * c + c ≤ d
cluster-inside k d c less =
    let whole : suc k * c ≤ d / c * c = mul-le-mul_right c less in
    omega (arith, whole, div-mul-le_self d c)

root_dir_sectors-root :
    (bs : BootSector) (base : ℕ) → Fits bs base → root_dir_sectors bs ≡ root_sectors bs
root_dir_sectors-root bs base fits =
    let small : bs.dir_number * 32 + 511 < 2 ^ 32 = omega (arith, fits.directory) in
    rw (fits.sectors, mod-eq_of_lt small) refl

meta_sectors-sum :
    (bs : BootSector) (base : ℕ)
    → Fits bs base
    → meta_sectors bs ≡ bs.reserved + fat_sectors bs + root_sectors bs
meta_sectors-sum bs base fits =
    let small : bs.reserved + fat_sectors bs + root_sectors bs < 2 ^ 32 =
      omega (arith, fits.parts, fits.ends) in
    rw (root_dir_sectors-root bs base fits) (mod-eq_of_lt small)

-- What `FstSecofDataClu` gives for the cluster `k + 2`, while it lies below 2 ^ 32.
cluster-sector :
    (sb : SuperBlock) (k : ℕ)
    → k < 2 ^ 32
    → k * sb.cluster_size + sb.data_first_sec < 2 ^ 32
    → fst_sec_of_data_clu sb (k + 2) ≡ k * sb.cluster_size + sb.data_first_sec
unfolding fst_sec_of_data_clu
cluster-sector sb k near small =
    let index : sub32 (k + 2) 2 ≡ k = omega (arith, near) in rw index (mod-eq_of_lt small)

fill_super-data :
    (bs : BootSector) (base : ℕ) (old : SuperBlock)
    → Fits bs base
    → old.base ≡ base
    → (fill_super bs old).data_first_sec ≡ base + (bs.reserved + fat_sectors bs + root_sectors bs)
unfolding fill_super
fill_super-data bs base old fits at =
    let small : base + (bs.reserved + fat_sectors bs + root_sectors bs) < 2 ^ 32 =
      omega (arith, fits.parts, fits.ends) in
    rw (meta_sectors-sum bs base fits, at) (mod-eq_of_lt small)

cluster_count-data :
    (bs : BootSector) (base : ℕ)
    → Fits bs base
    → cluster_count bs
      ≡ (total_sectors bs - (bs.reserved + fat_sectors bs + root_sectors bs)) / bs.cluster_size
cluster_count-data bs base fits =
    let whole : sub32 (total_sectors bs) (bs.reserved + fat_sectors bs + root_sectors bs)
        ≡ total_sectors bs - (bs.reserved + fat_sectors bs + root_sectors bs) =
      omega (arith, fits.parts, fits.ends) in
    rw (meta_sectors-sum bs base fits, whole) refl

fill_super-dir :
    (bs : BootSector) (base : ℕ) (old : SuperBlock)
    → Fits bs base
    → old.base ≡ base
    → (fill_super bs old).type ≢ 3
    → (fill_super bs old).dir_first_sec ≡ base + bs.reserved + fat_sectors bs
unfolding fill_super
fill_super-dir bs base old fits at other =
    let test : (fat_type (cluster_count bs) == 3) ≡ false = ground arith in
    let small : base + bs.reserved + fat_sectors bs < 2 ^ 32 =
      omega (arith, fits.parts, fits.ends) in
    rw (test, at) (mod-eq_of_lt small)

fill_super-root :
    (bs : BootSector) (old : SuperBlock)
    → (fill_super bs old).type ≡ 3
    → (fill_super bs old).dir_first_sec ≡ fst_sec_of_data_clu (fill_super bs old) bs.rootclus
unfolding fill_super fst_sec_of_data_clu
fill_super-root bs old fat32 = rw fat32 refl

-- The clusters lie in the volume.
fill_super-cluster :
    (bs : BootSector) (base : ℕ) (old : SuperBlock)
    → Fits bs base
    → old.base ≡ base
    → (k : ℕ) → k < cluster_count bs
    → fst_sec_of_data_clu (fill_super bs old) (k + 2) + bs.cluster_size ≤ base + total_sectors bs
unfolding fill_super
fill_super-cluster bs base old fits at k less =
    let d : ℕ = total_sectors bs - (bs.reserved + fat_sectors bs + root_sectors bs) in
    let under : k < d / bs.cluster_size =
      subst (λ t. k < t) (cluster_count-data bs base fits) less in
    let room : k * bs.cluster_size + bs.cluster_size ≤ d =
      cluster-inside k d bs.cluster_size under in
    let grows : k * 1 ≤ k * bs.cluster_size = mul-le-mul_left k fits.clusters in
    let start : (fill_super bs old).data_first_sec
        ≡ base + (bs.reserved + fat_sectors bs + root_sectors bs) =
      fill_super-data bs base old fits at in
    let near : k < 2 ^ 32 = omega (arith, room, grows, fits.ends, fits.clusters) in
    let small : k * bs.cluster_size + (fill_super bs old).data_first_sec < 2 ^ 32 =
      omega (arith, room, start, fits.parts, fits.ends, fits.clusters) in
    omega (arith, cluster-sector (fill_super bs old) k near small, room, start, fits.parts)

fill_super-LaidOut :
    (bs : BootSector) (base : ℕ) (old : SuperBlock)
    → Fits bs base
    → old.base ≡ base
    → LaidOut bs base (cluster_count bs) (fill_super bs old)
unfolding fill_super
fill_super-LaidOut bs base old fits at =
    let start : (fill_super bs old).data_first_sec
        ≡ base + (bs.reserved + fat_sectors bs + root_sectors bs) =
      fill_super-data bs base old fits at in
    let small : (fill_super bs old).data_first_sec < 2 ^ 32 =
      omega (arith, start, fits.parts, fits.ends) in
    let zeroth : 0 * (fill_super bs old).cluster_size + (fill_super bs old).data_first_sec
        < 2 ^ 32 =
      omega (arith, small) in
    record {
      data_start = start;
      count_is = cluster_count-data bs base fits;
      entries = refl;
      fat12 = λ h. ground arith;
      fat16 = λ h k. ground arith;
      fat32 = λ h. ground arith;
      first = cluster-sector (fill_super bs old) 0 (omega arith) zeroth ∙ omega arith;
      root_dir = fill_super-dir bs base old fits at;
      root_cluster = fill_super-root bs old;
      inside = fill_super-cluster bs base old fits at;
    }

-- The super blocks that `read_boot` leaves behind the unlocking.
abbrev filled_supers : BootSector → ℕ → Supers → Supers
filled_supers bs base s =
    let based : ℕ → SuperBlock = update s.blocks 0 (record (s.blocks 0) { base = base }) in
    let locked : ℕ → SuperBlock = update based 0 (record (based 0) { locked = 1 }) in
    unlock_super 0 (record s { blocks = update locked 0 (fill_super bs (locked 0)) })

read_boot-filled :
    (disk : Disk) (base : ℕ) (s : Supers)
    → Fits (boot_sector (block_data disk base)) base
    → (s.blocks 0).locked ≡ 0
    → read_boot disk base 0 s
      ≡ ok (some 0, filled_supers (boot_sector (block_data disk base)) base s)
unfolding read_boot lock_super fill_locked unlock_super fill_super
read_boot-filled disk base s fits unlocked =
    let bs : BootSector = boot_sector (block_data disk base) in
    let whole : (bs.sector_size == 512) ≡ true = ground (arith, fits.sectors) in
    let some_clusters : (bs.cluster_size == 0) ≡ false = ground (arith, fits.clusters) in
    rw (whole, ap (λ t. t == 0) unlocked, some_clusters) refl

-- On the boot sector of a volume whose parts fit, `read_super` returns the first super block, when it
-- is free, unlocked, and with the layout of FAT: the clusters start behind the tables and the root
-- directory, every cluster lies in the volume, and their number decides between the three formats.
pub read_super-LaidOut :
    (fuel : ℕ) (disk : Disk) (dev first_log : ℕ) (s : Supers)
    → Fits (boot_sector (block_data disk first_log)) first_log
    → dev ≢ 0
    → (s.blocks 0).dev ≡ 0
    → (s.blocks 0).locked ≡ 0
    → (s.blocks 1).dev ≢ dev
    → (t : Supers) × (read_super (suc fuel) disk dev first_log s ≡ ok (some 0, t))
      × ((t.blocks 0).locked ≡ 0)
      × LaidOut
          (boot_sector (block_data disk first_log))
          first_log
          (cluster_count (boot_sector (block_data disk first_log)))
          (t.blocks 0)
unfolding read_super get_empty_super fill_super unlock_super fst_sec_of_data_clu
read_super-LaidOut fuel disk dev first_log s fits real free unlocked other =
    let bs : BootSector = boot_sector (block_data disk first_log) in
    let absent : get_super dev s ≡ ok none = get_super-none dev s (ground arith) other in
    let found : ((s.blocks 0).dev == 0) ≡ true = ground arith in
    (
      filled_supers bs first_log s,
      rw (absent, get_empty_super, found) (read_boot-filled disk first_log s fits unlocked),
      refl,
      fill_super-LaidOut bs first_log (record (s.blocks 0) { base = first_log; locked = 0 }) fits
          refl,
    )
