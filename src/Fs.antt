-- ===== src/Fs.antt =====
-- The file system: fs/inode.c, fs/read.c, fs/open.c and include/fs.h. The disk is a
-- function from byte addresses to bytes, and `get_block` and `put_block` are taken to find memory
-- for their buffers.
pub mod Fat
pub mod Read
pub mod Open
pub mod Super
pub mod Block
use myos_ia.Prelude.{ℕ, ◌+◌, ◌*◌, ◌/◌, ◌%◌, Bool, ltb, ◌==◌, if◌then◌else◌, List}

abbrev pub Disk : Type 0
Disk = ℕ → ℕ

-- The data of the buffer that `get_block` returns for the sector `block`: what `bread` puts there.
abbrev pub block_data : Disk → ℕ → ℕ → ℕ
block_data disk block k = disk (block * 512 + k)

-- `struct super_block`, without its wait queue and the pointer to the root inode.
pub record SuperBlock : Type 0 where
  pub base : ℕ
  pub sector_size : ℕ
  pub cluster_size : ℕ
  pub fat_number : ℕ
  pub sector_number : ℕ
  pub sectorsperfat : ℕ
  pub sectorspertrack : ℕ
  pub resvdseccnt : ℕ
  pub heads : ℕ
  pub hidden : ℕ
  pub type : ℕ
  pub dir_first_sec : ℕ
  pub dir_number : ℕ
  pub data_first_sec : ℕ
  pub locked : ℕ
  pub dev : ℕ

-- `struct inode`: `block` has the ten entries of that field and then the words behind them, which
-- are the pointer `i_op` and the link of the free list.
pub record Inode : Type 0 where
  pub i_sb : SuperBlock
  pub size : ℕ
  pub name : List ℕ
  pub block : List ℕ
