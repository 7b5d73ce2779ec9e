-- ===== src/Fs/Fat/Decode.antt =====
-- `FATEntryVal` of fs/inode.c reads back the tables of the three formats.
use myos_ia.Prelude.{
  ℕ, ◌+◌, ◌-◌, ◌*◌, ◌/◌, ◌%◌, ◌^◌, ◌<◌, ◌≡◌, refl, ap, ◌∙◌, arith, bit_and, ◌==◌, if◌then◌else◌,
  Bool-cases, inl, inr,
}
use myos_ia.Prelude.Bits.{and-low}
use myos_ia.Fs.{Disk, block_data, SuperBlock}
use myos_ia.Fs.Fat.{fat_entry_val, read_u16, read_u32}

-- The byte `k` of a table of 12-bit entries: each three bytes hold two of them.
abbrev pub fat12_byte : (ℕ → ℕ) → ℕ → ℕ
fat12_byte entry k =
    let even : ℕ = entry (k / 3 * 2) in
    let odd : ℕ = entry (k / 3 * 2 + 1) in
    if k % 3 == 0 then even % 256 else if k % 3 == 1 then even / 256 + odd % 16 * 16 else odd / 16

-- The byte `k` of a table of 16-bit entries.
abbrev pub fat16_byte : (ℕ → ℕ) → ℕ → ℕ
fat16_byte entry k = if k % 2 == 0 then entry (k / 2) % 256 else entry (k / 2) / 256

-- The byte `k` of a table of 32-bit words, little-endian.
abbrev pub fat32_byte : (ℕ → ℕ) → ℕ → ℕ
fat32_byte word k =
    if k % 4 == 0
    then word (k / 4) % 256
    else if k % 4 == 1
    then word (k / 4) / 256 % 256
    else if k % 4 == 2
    then word (k / 4) / 2 ^ 16 % 256
    else word (k / 4) / 2 ^ 24

-- Where the first table begins on the disk.
abbrev pub fat_start : SuperBlock → ℕ
fat_start bd = (bd.resvdseccnt + bd.base) * 512

at_12 :
    (entry : ℕ → ℕ) (k n r : ℕ)
    → k / 3 * 2 ≡ n
    → k % 3 ≡ r
    → fat12_byte entry k ≡ (
        if r == 0
        then entry n % 256
        else if r == 1
        then entry n / 256 + entry (n + 1) % 16 * 16
        else entry (n + 1) / 16)
at_12 entry k n r en er = rw (en, er) refl

even_word :
    (entry : ℕ → ℕ) (c : ℕ)
    → c % 2 ≡ 0
    → entry c < 4096
    → read_u16 (fat12_byte entry) (c + c / 2) % 4096 ≡ entry c
even_word entry c even small =
    rw
      (
        at_12 entry (c + c / 2) c 0 (omega arith) (omega arith),
        at_12 entry (c + c / 2 + 1) c 1 (omega arith) (omega arith),
      )
      (omega arith)

odd_word :
    (entry : ℕ → ℕ) (c : ℕ)
    → c % 2 ≡ 1
    → entry (c - 1) < 4096
    → read_u16 (fat12_byte entry) (c + c / 2) / 16 ≡ entry c
odd_word entry c odd small =
    let whole : c - 1 + 1 ≡ c = omega arith in
    rw
      (
        at_12 entry (c + c / 2) (c - 1) 1 (omega arith) (omega arith),
        at_12 entry (c + c / 2 + 1) (c - 1) 2 (omega arith) (omega arith),
        whole,
      )
      (omega arith)

at_16 :
    (entry : ℕ → ℕ) (k n r : ℕ)
    → k / 2 ≡ n
    → k % 2 ≡ r
    → fat16_byte entry k ≡ (if r == 0 then entry n % 256 else entry n / 256)
at_16 entry k n r en er = rw (en, er) refl

word_16 : (entry : ℕ → ℕ) (c : ℕ) → read_u16 (fat16_byte entry) (c * 2) ≡ entry c
word_16 entry c =
    rw
      (
        at_16 entry (c * 2) c 0 (omega arith) (omega arith),
        at_16 entry (c * 2 + 1) c 1 (omega arith) (omega arith),
      )
      (omega arith)

at_32 :
    (word : ℕ → ℕ) (k n r : ℕ)
    → k / 4 ≡ n
    → k % 4 ≡ r
    → fat32_byte word k ≡ (
        if r == 0
        then word n % 256
        else if r == 1
        then word n / 256 % 256
        else if r == 2
        then word n / 2 ^ 16 % 256
        else word n / 2 ^ 24)
at_32 word k n r en er = rw (en, er) refl

word_32 : (word : ℕ → ℕ) (c : ℕ) → read_u32 (fat32_byte word) (c * 4) ≡ word c
word_32 word c =
    rw
      (
        at_32 word (c * 4) c 0 (omega arith) (omega arith),
        at_32 word (c * 4 + 1) c 1 (omega arith) (omega arith),
        at_32 word (c * 4 + 2) c 2 (omega arith) (omega arith),
        at_32 word (c * 4 + 2 + 1) c 3 (omega arith) (omega arith),
      )
      (omega arith)

-- The bytes of a table in the format that `type` names. The high four bits of a 32-bit word are
-- reserved.
abbrev pub fat_byte : ℕ → (ℕ → ℕ) → (ℕ → ℕ) → ℕ → ℕ
fat_byte type entry reserved k =
    if type == 1
    then fat12_byte entry k
    else if type == 2
    then fat16_byte entry k
    else fat32_byte (λ n. entry n + reserved n * 2 ^ 28) k

abbrev pub entry_bits : ℕ → ℕ
entry_bits type = if type == 1 then 12 else if type == 2 then 16 else 28

-- The disk holds the table `entry` in the format of the super block.
pub record IsTable (disk : Disk) (bd : SuperBlock) (entry reserved : ℕ → ℕ) : Type 0 where
  pub sector : bd.sector_size ≡ 512
  pub fits : (n : ℕ) → entry n < 2 ^ entry_bits bd.type
  pub stored : (k : ℕ) → disk (fat_start bd + k) ≡ fat_byte bd.type entry reserved k

-- The sector that `FATEntryVal` reads for a byte offset.
abbrev sector_of : SuperBlock → ℕ → ℕ
sector_of bd offset = bd.resvdseccnt + offset / bd.sector_size + bd.base

table_byte :
    (disk : Disk) (bd : SuperBlock) (entry reserved : ℕ → ℕ) (offset at k : ℕ)
    → IsTable disk bd entry reserved
    → at ≡ offset % bd.sector_size + k
    → block_data disk (sector_of bd offset) at ≡ fat_byte bd.type entry reserved (offset + k)
table_byte disk bd entry reserved offset at k t e =
    let size : bd.sector_size ≡ 512 = t.sector in
    rw (e, size)
      (ap disk {x = (bd.resvdseccnt + offset / 512 + bd.base) * 512 + (offset % 512 + k)}
          {y = fat_start bd + (offset + k)} (omega arith)
        ∙ t.stored (offset + k))

table_u16 :
    (disk : Disk) (bd : SuperBlock) (entry reserved : ℕ → ℕ) (offset k : ℕ)
    → IsTable disk bd entry reserved
    → read_u16 (block_data disk (sector_of bd offset)) (offset % bd.sector_size + k)
      ≡ read_u16 (fat_byte bd.type entry reserved) (offset + k)
table_u16 disk bd entry reserved offset k t =
    let at : ℕ = offset % bd.sector_size in
    let next : offset + (k + 1) ≡ offset + k + 1 = omega arith in
    let low = table_byte disk bd entry reserved offset (at + k) k t refl in
    let high =
      rw next at (table_byte disk bd entry reserved offset (at + k + 1) (k + 1) t (omega arith)) in
    rw (low, high) refl

table_start :
    (disk : Disk) (bd : SuperBlock) (entry reserved : ℕ → ℕ) (offset : ℕ)
    → IsTable disk bd entry reserved
    → read_u16 (block_data disk (sector_of bd offset)) (offset % bd.sector_size)
      ≡ read_u16 (fat_byte bd.type entry reserved) offset
table_start disk bd entry reserved offset t =
    ap (read_u16 (block_data disk (sector_of bd offset))) {x = offset % bd.sector_size}
      {y = offset % bd.sector_size + 0} (omega arith)
    ∙ table_u16 disk bd entry reserved offset 0 t
    ∙ ap (read_u16 (fat_byte bd.type entry reserved)) {x = offset + 0} {y = offset} (omega arith)

-- `FATEntryVal` reads the entry of every cluster from a table of 12-bit, 16-bit or 32-bit entries
-- that is stored on a disk of 512-byte sectors.
pub fat_entry_val-IsTable :
    (disk : Disk) (bd : SuperBlock) (entry reserved : ℕ → ℕ) (cluster : ℕ)
    → IsTable disk bd entry reserved
    → fat_entry_val disk bd cluster ≡ entry cluster
unfolding fat_entry_val
fat_entry_val-IsTable disk bd entry reserved cluster t = elim (Bool-cases (bd.type == 1)) [
  | inl fat12 ↦
      let word = rw fat12 at (table_start disk bd entry reserved (cluster + cluster / 2) t) in
      let small : (n : ℕ) → entry n < 4096 = λ n. rw fat12 at (t.fits n) in
      elim (Bool-cases (bit_and cluster 1 == 0)) [
        | inl even ↦
            rw (fat12, even)
              (and-low 12 _
                ∙ ap (λ w. w % 4096) word
                ∙ even_word entry cluster (ground (arith, and-low 1 cluster)) (small cluster))
        | inr odd ↦
            rw (fat12, odd)
              (ap (λ w. w / 16) word
                ∙ odd_word entry cluster (ground (arith, and-low 1 cluster)) (small (cluster - 1)))
      ]
  | inr more ↦ elim (Bool-cases (bd.type == 2)) [
    | inl fat16 ↦
        rw (more, fat16)
          (rw (more, fat16) at (table_start disk bd entry reserved (cluster * 2) t)
            ∙ word_16 entry cluster)
    | inr fat32 ↦
        let small : entry cluster < 2 ^ 28 = rw (more, fat32) at (t.fits cluster) in
        let low = rw (more, fat32) at (table_start disk bd entry reserved (cluster * 4) t) in
        let high = rw (more, fat32) at (table_u16 disk bd entry reserved (cluster * 4) 2 t) in
        let whole = word_32 (λ n. entry n + reserved n * 2 ^ 28) cluster in
        rw (more, fat32) (and-low 28 _ ∙ rw (low, high) (ap (λ w. w % 2 ^ 28) whole ∙ omega arith))
  ]
]
