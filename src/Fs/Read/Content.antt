-- ===== src/Fs/Read/Content.antt =====
-- What `filp_read` of fs/read.c reads: the bytes of the file, in order.
use native.Mathlib.Nat.{
  div-add-mod, mod-lt, mul-add-div_right, mul-add-mod_self_right, div-eq_of_lt, mod-eq_of_lt,
  mul-le-mul_left, mul-suc, mul_comm, div-lt_iff_lt-mul,
}
use myos_ia.Prelude.{
  ℕ, zero, suc, ◌+◌, ◌-◌, ◌*◌, ◌/◌, ◌%◌, ◌<◌, ◌≤◌, ◌≡◌, ◌≢◌, min, refl, ap, ◌∙◌, false, ◌&&◌, some,
  ◌∷◌, ◌++◌, arith, ltb, leb, ◌==◌, Bool-cases, inl, inr, get_or,
}
use myos_ia.Proc.{MemMap, umap}
use myos_ia.Fs.{Disk, block_data, Inode}
use myos_ia.Fs.Read.{
  File, fst_sec_of_data_clu, read_bytes, cluster_read, eofile, valid_size, read_loop, filp_read,
  sys_read,
}

-- The size of a cluster in bytes.
abbrev pub cluster_bytes : Inode → ℕ
cluster_bytes ino = ino.i_sb.cluster_size * ino.i_sb.sector_size

-- The byte `p` of a file: the byte `p % c` of its cluster `p / c`.
abbrev pub file_byte : Disk → Inode → ℕ → ℕ
file_byte disk ino p =
    block_data disk (fst_sec_of_data_clu ino.i_sb (get_or ino.block (p / cluster_bytes ino) 0))
      (p % cluster_bytes ino)

read_bytes-split :
    (f : ℕ → ℕ) (at m n : ℕ)
    → read_bytes f at (m + n) ≡ read_bytes f at m ++ read_bytes f (at + m) n
unfolding read_bytes
read_bytes-split f at zero n =
    let none_first : 0 + n ≡ n = omega arith in
    let here : at + 0 ≡ at = omega arith in rw (none_first, here) refl
read_bytes-split f at (suc m) n =
    let one_more : suc m + n ≡ suc (m + n) = omega arith in
    let there : at + suc m ≡ at + 1 + m = omega arith in
    rw (one_more, there) (ap (λ t. f at ∷ t) (read_bytes-split f (at + 1) m n))

-- A cluster: its bytes are those of the file.
cluster-bytes :
    (disk : Disk) (ino : Inode) (q a k n : ℕ)
    → 0 < cluster_bytes ino
    → a ≡ q * cluster_bytes ino + k
    → k + n ≤ cluster_bytes ino
    → read_bytes (block_data disk (fst_sec_of_data_clu ino.i_sb (get_or ino.block q 0))) k n
      ≡ read_bytes (file_byte disk ino) a n
unfolding read_bytes
cluster-bytes disk ino q a k zero pos at fits = refl
cluster-bytes disk ino q a k (suc n) pos at fits =
    let c : ℕ = cluster_bytes ino in
    let inside : k < c = omega arith in
    let quotient : a / c ≡ q =
      ap (λ t. t / c) at ∙ mul-add-div_right pos q k ∙ omega (arith, div-eq_of_lt inside) in
    let remainder : a % c ≡ k =
      ap (λ t. t % c) at ∙ mul-add-mod_self_right q c k ∙ mod-eq_of_lt inside in
    rw (quotient, remainder)
      (ap (λ t. block_data disk (fst_sec_of_data_clu ino.i_sb (get_or ino.block q 0)) k ∷ t)
        (cluster-bytes disk ino q (a + 1) (k + 1) n pos (omega arith) (omega arith)))

-- What one round of the loop reads is not empty, no more than what is wanted, within the cluster and
-- within the file.
record ValidSize (c filesz pos left v : ℕ) : Type 0 where
  some_bytes : 0 < v
  wanted : v ≤ left
  in_cluster : pos % c + v ≤ c
  in_file : pos + v ≤ filesz

-- The cluster of a position in a file is not behind the last one.
quotient-le : (c a b : ℕ) → 0 < c → a ≤ b → a / c ≤ b / c
quotient-le c a b pos le = elim (Bool-cases (leb (a / c) (b / c))) [
  | inl fine ↦ ground arith
  | inr wrong ↦ absurd (
      omega (
        arith,
        div-add-mod a c,
        div-add-mod b c,
        mod-lt b pos,
        mul-suc c (b / c),
        mul-le-mul_left {m = suc (b / c)} {n = a / c} c (ground arith),
      ))
]

next_cluster : (c a b : ℕ) → 0 < c → a / c < b / c → c * (a / c) + c ≤ b
next_cluster c a b pos lt = omega (
  arith,
  div-add-mod b c,
  mul-suc c (a / c),
  mul-le-mul_left {m = suc (a / c)} {n = b / c} c (omega arith),
)

valid_size-ValidSize :
    (c filesz pos left : ℕ)
    → 0 < c
    → 0 < left
    → pos < filesz
    → ValidSize c filesz pos left (valid_size c filesz pos left)
unfolding valid_size
valid_size-ValidSize c filesz pos left cp lp inside =
    let position : c * (pos / c) + pos % c ≡ pos = div-add-mod pos c in
    let end : c * (filesz / c) + filesz % c ≡ filesz = div-add-mod filesz c in
    let within : pos % c < c = mod-lt pos cp in
    let end_within : filesz % c < c = mod-lt filesz cp in
    let before : pos / c ≤ filesz / c = quotient-le c pos filesz cp (omega arith) in
    elim (Bool-cases (pos / c == filesz / c)) [
      | inl last ↦
          let same : c * (pos / c) ≡ c * (filesz / c) =
            ap (λ q. c * q) {x = pos / c} {y = filesz / c} (ground arith) in
          ground arith
      | inr earlier ↦
          let room : c * (pos / c) + c ≤ filesz = next_cluster c pos filesz cp (ground arith) in
          ground arith
    ]

-- How many bytes there are to read.
abbrev pub available : Inode → ℕ → ℕ → ℕ
available ino pos left = min left (ino.size - pos)

cluster_read-bytes :
    (disk : Disk) (ino : Inode) (pos v : ℕ)
    → 0 < cluster_bytes ino
    → pos < 10 * cluster_bytes ino
    → pos % cluster_bytes ino + v ≤ cluster_bytes ino
    → cluster_read disk ino (pos / cluster_bytes ino) (pos % cluster_bytes ino) v
      ≡ read_bytes (file_byte disk ino) pos v
unfolding cluster_read
cluster_read-bytes disk ino pos v cp small fits =
    let c : ℕ = cluster_bytes ino in
    let listed : ltb 10 (pos / c) ≡ false =
      ground (arith, (div-lt_iff_lt-mul {k = c} {x = pos} {y = 10} cp).1) in
    rw listed (
      cluster-bytes disk ino (pos / c) pos (pos % c) v cp
        (omega (arith, div-add-mod pos c, mul_comm c (pos / c))) fits)

read_loop-content :
    (fuel : ℕ) (disk : Disk) (ino : Inode) (pos left : ℕ)
    → 0 < cluster_bytes ino
    → ino.size ≤ 10 * cluster_bytes ino
    → left < fuel
    → read_loop fuel disk ino pos left
      ≡ some (
        read_bytes (file_byte disk ino) pos (available ino pos left),
        pos + available ino pos left,
      )
unfolding read_loop
read_loop-content zero disk ino pos left cp small enough = absurd (omega arith)
read_loop-content (suc fuel) disk ino pos left cp small enough =
    let c : ℕ = cluster_bytes ino in
    elim (Bool-cases (ltb 0 left && ltb pos ino.size)) [
      | inr done ↦
          let nothing : available ino pos left ≡ 0 = ground arith in
          let here : pos + 0 ≡ pos = omega arith in rw (done, nothing, read_bytes, here) refl
      | inl more ↦
          let v : ℕ = valid_size c ino.size pos left in
          let valid = valid_size-ValidSize c ino.size pos left cp (ground arith) (ground arith) in
          let later : ℕ = available ino (pos + v) (left - v) in
          let split : available ino pos left ≡ v + later =
            ground (arith, valid.wanted, valid.in_file) in
          let sum : pos + (v + later) ≡ pos + v + later = omega arith in
          let inside : pos < 10 * c = ground arith in
          rw
            (
              more,
              read_loop-content fuel disk ino (pos + v) (left - v) cp small
                  (omega (arith, valid.some_bytes, valid.wanted)),
              read_loop,
              cluster_read-bytes disk ino pos v cp inside valid.in_cluster,
              split,
              sum,
              read_bytes-split (file_byte disk ino) pos v later,
            )
            refl
    ]

-- On a file that is described by its ten entries, `filp_read` returns, with a round of fuel for each
-- byte that is wanted and one more: it copies the bytes of the file from the position on, in order,
-- as many as are wanted or as there are, returns their number and moves the position by it; and a
-- read of at least what is left ends at the end of the file.
pub filp_read-content :
    (fuel : ℕ) (disk : Disk) (size : ℕ) (f : File)
    → 0 < cluster_bytes f.f_ino
    → f.f_ino.size ≤ 10 * cluster_bytes f.f_ino
    → size < fuel
    → let n : ℕ = available f.f_ino f.f_pos size in
      let g : File = record f { f_pos = f.f_pos + n } in
      (filp_read fuel disk size f ≡ some (read_bytes (file_byte disk f.f_ino) f.f_pos n, g, n))
      × (eofile g ≡ leb (f.f_ino.size - f.f_pos) size)
unfolding filp_read eofile
filp_read-content fuel disk size f cp small enough =
    let n : ℕ = available f.f_ino f.f_pos size in
    let moved : f.f_pos + n - f.f_pos ≡ n = omega arith in
    (
      rw (read_loop-content fuel disk f.f_ino f.f_pos size cp small enough, filp_read, moved) refl,
      ground arith,
    )

-- A read of `count` elements through a mapped buffer returns the number of whole elements that it
-- copied; the position moves past a last part of one too. The bytes go to the address `buf` as it
-- stands, whatever address `umap` gives for it.
pub sys_read-elements :
    (fuel : ℕ) (disk : Disk) (d : MemMap) (buf size count : ℕ) (f : File)
    → 0 < cluster_bytes f.f_ino
    → f.f_ino.size ≤ 10 * cluster_bytes f.f_ino
    → size * count < fuel
    → umap d buf ≢ 0
    → let n : ℕ = available f.f_ino f.f_pos (size * count) in
      sys_read fuel disk d buf size count (some f)
      ≡ some (
        record { to = buf; bytes = read_bytes (file_byte disk f.f_ino) f.f_pos n },
        some (record f { f_pos = f.f_pos + n }),
        n / size,
      )
unfolding sys_read
sys_read-elements fuel disk d buf size count f cp small enough mapped =
    let valid : (umap d buf == 0) ≡ false = ground arith in
    let (reads, eof) = filp_read-content fuel disk (size * count) f cp small enough in
    rw (valid, reads, sys_read) refl
