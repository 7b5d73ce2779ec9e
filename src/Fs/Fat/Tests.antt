-- ===== src/Fs/Fat/Tests.antt =====
-- A disk with a table of 12-bit entries that begins in its second sector, and files on it.
use myos_ia.Prelude.{
  ℕ, ◌+◌, ◌-◌, ◌≡◌, refl, ap, [], ◌∷◌, ◌++◌, arith, ltb, ◌==◌, if◌then◌else◌, get_or, replicate,
}
use myos_ia.Fs.{Disk, SuperBlock, Inode}
use myos_ia.Fs.Fat.{eeof, fat_entry_val, do_cdiv, read_map}
use myos_ia.Fs.Fat.Decode.{IsTable, fat_byte, fat_entry_val-IsTable}
use myos_ia.Fs.Fat.Chain.{Chain, read_map-Chain, read_map-overflow}

abbrev volume : SuperBlock
volume = record {
  base = 0;
  sector_size = 512;
  cluster_size = 1;
  fat_number = 1;
  sector_number = 100;
  sectorsperfat = 1;
  sectorspertrack = 9;
  resvdseccnt = 1;
  heads = 2;
  hidden = 0;
  type = 1;
  dir_first_sec = 2;
  dir_number = 16;
  data_first_sec = 3;
  locked = 0;
  dev = 1;
}

-- Each cluster leads to the next, up to the cluster 12; 20 leads to 30, which is a last one.
abbrev entry : ℕ → ℕ
entry n = if n == 20 then 30 else if n == 30 then 0xfff else if ltb n 12 then n + 1 else 0xff8

abbrev nothing : ℕ → ℕ
nothing n = 0

abbrev disk : Disk
disk a = fat_byte 1 entry nothing (a - 512)

abbrev file : ℕ → ℕ → Inode
file size first = record { i_sb = volume; size = size; name = []; block = first ∷ replicate 11 0 }

disk-IsTable : IsTable disk volume entry nothing
disk-IsTable = record {
  sector = refl;
  fits = λ n. ground arith;
  stored = λ k. ap (fat_byte 1 entry nothing) {x = 512 + k - 512} {y = k} (omega arith);
}

fat_entry_val-IsTable_example : fat_entry_val disk volume 20 ≡ 30
fat_entry_val-IsTable_example = fat_entry_val-IsTable disk volume entry nothing 20 disk-IsTable

two_clusters : Chain disk volume (20 ∷ 30 ∷ [])
unfolding fat_entry_val eeof
two_clusters = (refl, refl, refl)

sectors_of_600 : do_cdiv 600 512 ≡ 2
unfolding do_cdiv
sectors_of_600 = refl

sectors_of_5500 : do_cdiv 5500 512 ≡ 11
unfolding do_cdiv
sectors_of_5500 = refl

read_map-Chain_example :
    read_map disk (file 600 20) ≡ record (file 600 20) { block = 20 ∷ 30 ∷ replicate 10 0 }
read_map-Chain_example =
    read_map-Chain disk (file 600 20) 20 (30 ∷ []) (0 ∷ []) (replicate 10 0) refl refl
      (omega (arith, sectors_of_600)) two_clusters

eleven : Chain disk volume (2 ∷ ((3 ∷ 4 ∷ 5 ∷ 6 ∷ 7 ∷ 8 ∷ 9 ∷ 10 ∷ 11 ∷ []) ++ (12 ∷ [])))
unfolding fat_entry_val eeof
eleven = ground arith

read_map-overflow_example : get_or (read_map disk (file 5500 2)).block 10 0 ≡ 12
read_map-overflow_example =
    read_map-overflow disk (file 5500 2) 2 12 0 (3 ∷ 4 ∷ 5 ∷ 6 ∷ 7 ∷ 8 ∷ 9 ∷ 10 ∷ 11 ∷ [])
      (replicate 9 0) (0 ∷ []) refl refl refl (omega (arith, sectors_of_5500)) eleven
