-- ===== src/Fs/Read/Tests.antt =====
-- A file of 1300 bytes in clusters of 1024.
use myos_ia.Prelude.{◌%◌, ◌≡◌, ◌≢◌, some, [], ◌∷◌, arith, leb, replicate}
use myos_ia.Proc.{MemMap, umap}
use myos_ia.Fs.{Disk, Inode}
use myos_ia.Fs.Read.{File, read_bytes, eofile, filp_read}
use myos_ia.Fs.Read.Content.{file_byte, filp_read-content}

abbrev disk : Disk
disk a = a % 251

abbrev ino : Inode
ino = record {
  i_sb = record {
    base = 0;
    sector_size = 512;
    cluster_size = 2;
    fat_number = 1;
    sector_number = 100;
    sectorsperfat = 1;
    sectorspertrack = 9;
    resvdseccnt = 1;
    heads = 2;
    hidden = 0;
    type = 1;
    dir_first_sec = 2;
    dir_number = 16;
    data_first_sec = 3;
    locked = 0;
    dev = 1;
  };
  size = 1300;
  name = [];
  block = 5 ∷ 9 ∷ replicate 10 0;
}

-- 30 bytes before the end of the first cluster.
abbrev file : File
file = record { f_ino = ino; f_pos = 994 }

filp_read-content_example :
    let g : File = record file { f_pos = 1044 } in
    (filp_read 51 disk 50 file ≡ some (read_bytes (file_byte disk ino) 994 50, g, 50))
    × (eofile g ≡ leb 306 50)
filp_read-content_example =
    filp_read-content 51 disk 50 file (omega arith) (omega arith) (omega arith)

abbrev data_segment : MemMap
data_segment = record { vir = 0; phys = 0x200000; size = 0x10000 }

mapped : umap data_segment 0x400 ≢ 0
unfolding umap
mapped = ground arith
