-- ===== src/Fs/Super/Mount.antt =====
-- What `mount_fs` of fs/super.c makes of the root directory of the volume.
use myos_ia.Prelude.{ℕ, ◌*◌, ◌≡◌, some, u32, set, get_or}
use myos_ia.Slot.{Slots}
use myos_ia.Sched.{update}
use myos_ia.Fs.{Disk, block_data, SuperBlock, Inode}
use myos_ia.Fs.Super.{Supers, boot_sector, cluster_count, unlock_super, Volumes}
use myos_ia.Fs.Super.Layout.{LaidOut}

-- The root directory of a volume after `mount_fs`.
pub record Mounted (disk : Disk) (base rip : ℕ) (u : Volumes) : Type 0 where
  pub laid_out :
      LaidOut
        (boot_sector (block_data disk base))
        base
        (cluster_count (boot_sector (block_data disk base)))
        (u.supers.blocks 0)
  pub released : (u.supers.blocks 0).locked ≡ 0
  pub rooted : u.supers.rootdir 0 ≡ some rip
  pub superior : (u.inodes rip).i_sb ≡ u.supers.blocks 0
  pub begins : get_or (u.inodes rip).block 0 0 ≡ (u.supers.blocks 0).dir_first_sec
  pub length : (u.inodes rip).size ≡ (boot_sector (block_data disk base)).dir_number * 32

abbrev root_inode : SuperBlock → Inode → Inode
root_inode sb i = record i {
  block = set i.block 0 sb.dir_first_sec;
  size = u32 (sb.dir_number * 32);
  i_sb = sb;
}

-- The volumes that `mount_fs` leaves, from the super blocks that `read_super` leaves.
abbrev mounted : ℕ → Slots → Supers → Volumes → Volumes
mounted rip slots t v =
    let locked : ℕ → SuperBlock = update t.blocks 0 (record (t.blocks 0) { locked = 1 }) in
    let s : Supers =
      unlock_super 0 (record t { blocks = locked; rootdir = update t.rootdir 0 (some rip) }) in
    record {
      supers = s;
      inode_slots = slots;
      inodes = update v.inodes rip (root_inode (s.blocks 0) (v.inodes rip));
    }
