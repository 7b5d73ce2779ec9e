-- ===== src/Fs/Read.antt =====
-- fs/read.c: reading a file, cluster by cluster. Sizes and positions are `int` there; they are taken
-- to stay below 2 ^ 31.
pub mod Content
mod Tests
use myos_ia.Prelude.{
  ℕ, zero, suc, ◌+◌, ◌-◌, ◌*◌, ◌/◌, ◌%◌, ◌^◌, min, Bool, true, false, ◌&&◌, not, Option, none, some,
  List, [], ◌∷◌, ◌++◌, ltb, leb, ◌==◌, if◌then◌else◌, get_or, u32, sub32,
}
use myos_ia.Proc.{MemMap, umap}
use myos_ia.Fs.{Disk, block_data, SuperBlock, Inode}

-- `struct file`, without its use count and the link of the free list.
pub record File : Type 0 where
  pub f_ino : Inode
  pub f_pos : ℕ

-- `FstSecofDataClu`
unfoldable pub fst_sec_of_data_clu : SuperBlock → ℕ → ℕ
fst_sec_of_data_clu bd n = u32 (sub32 n 2 * bd.cluster_size + bd.data_first_sec)

-- `n` bytes from the offset `at` on.
unfoldable pub read_bytes : (ℕ → ℕ) → ℕ → ℕ → List ℕ
read_bytes bytes at zero = []
read_bytes bytes at (suc n) = bytes at ∷ read_bytes bytes (at + 1) n

-- `ClusterRead`: what it copies to the buffer. Its test lets the index 10 pass, which is behind the
-- ten entries of `block`.
unfoldable pub cluster_read : Disk → Inode → ℕ → ℕ → ℕ → List ℕ
unfolding fst_sec_of_data_clu read_bytes
cluster_read disk ino nr offset size =
    if ltb 10 nr
    then []
    else read_bytes (block_data disk (fst_sec_of_data_clu ino.i_sb (get_or ino.block nr 0))) offset
        size

-- `eofile`
unfoldable pub eofile : File → Bool
eofile f = leb f.f_ino.size f.f_pos

-- `valid` in the loop of `filp_read`: how much of the cluster at `pos` to read.
unfoldable pub valid_size : ℕ → ℕ → ℕ → ℕ → ℕ
valid_size clusz filesz pos left =
    let whole : ℕ =
      if pos / clusz == filesz / clusz && not (filesz % clusz == 0)
      then filesz % clusz
      else clusz in
    if ltb left (whole - pos % clusz) then left else whole - pos % clusz

-- The loop of `filp_read`: the bytes that it copies and the last position.
unfoldable pub read_loop : ℕ → Disk → Inode → ℕ → ℕ → Option (List ℕ × ℕ)
unfolding valid_size cluster_read
read_loop zero disk ino pos left = none
read_loop (suc fuel) disk ino pos left =
    let clusz : ℕ = ino.i_sb.cluster_size * ino.i_sb.sector_size in
    let valid : ℕ = valid_size clusz ino.size pos left in
    let rest = read_loop fuel disk ino (pos + valid) (left - valid) in
    if ltb 0 left && ltb pos ino.size
    then elim rest [
      | none ↦ none
      | some (bytes, end) ↦
          some (cluster_read disk ino (pos / clusz) (pos % clusz) valid ++ bytes, end)
    ]
    else some ([], pos)

-- `filp_read`: the bytes, the file after it, and the value that it returns.
unfoldable pub filp_read : ℕ → Disk → ℕ → File → Option (List ℕ × File × ℕ)
unfolding read_loop
filp_read fuel disk size f = elim (read_loop fuel disk f.f_ino f.f_pos size) [
  | none ↦ none
  | some (bytes, end) ↦ some (bytes, record f { f_pos = end }, end - f.f_pos)
]

-- `sys_feof`, of a descriptor that may name no file.
unfoldable pub sys_feof : Option File → Bool
unfolding eofile
sys_feof none = false
sys_feof (some f) = eofile f

-- Bytes that are copied to an address.
pub record Copy : Type 0 where
  pub to : ℕ
  pub bytes : List ℕ

-- `sys_read`: the copy, the file after it and the value that it returns. The address that `umap`
-- computes is tested and then not used: the bytes go to `buf` itself.
unfoldable pub sys_read :
    ℕ → Disk → MemMap → ℕ → ℕ → ℕ → Option File → Option (Copy × Option File × ℕ)
unfolding umap filp_read
sys_read fuel disk d buf size count none = some (record { to = buf; bytes = [] }, none, 0)
sys_read fuel disk d buf size count (some f) =
    if umap d buf == 0
    then some (record { to = buf; bytes = [] }, some f, 0)
    else elim (filp_read fuel disk (size * count) f) [
      | none ↦ none
      | some (bytes, g, read) ↦ some (record { to = buf; bytes = bytes }, some g, read / size)
    ]
