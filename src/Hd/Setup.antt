-- ===== src/Hd/Setup.antt =====
-- The set-up of the drive in ker/hd.c: what `hd_specify` takes from the 512 bytes that the drive gives
-- about itself, and what `hd_init` takes from the table of the BIOS. The check of the ports and the
-- command that asks the drive are dialogues with the ports and are left out.
use myos_ia.Prelude.{
  ℕ, zero, suc, ◌+◌, ◌-◌, ◌*◌, ◌%◌, ◌^◌, ◌≤◌, ◌<◌, ◌≡◌, refl, ap, ◌∙◌, ◌⊎◌, inl, inr, List, [], ◌∷◌,
  arith, bit_and, bit_xor, ◌==◌, ==_iff, if◌then◌else◌, get_or,
}
use myos_ia.Prelude.Bits.{every, every-at}
use myos_ia.Fs.Fat.{read_u16, read_u32}
use myos_ia.Hd.{DeviceId, calc_capacity}

-- `struct ide_drive`, less the partition table.
pub record IdeDrive : Type 0 where
  pub mainid : ℕ
  pub base : ℕ
  pub irq : ℕ
  pub pcylinders : ℕ
  pub pheads : ℕ
  pub psectors : ℕ
  pub capacity : ℕ
  pub lcylinders : ℕ
  pub lheads : ℕ
  pub lsectors : ℕ
  pub precomp : ℕ
  pub ctl : ℕ
  pub max_multsect : ℕ
  pub buffer : ℕ
  pub dword_io : ℕ
  pub lba : ℕ

-- `struct deviceid` at its offsets. The compiler aligns `lcapacity` to four bytes, which moves it to
-- 116 and `lba_capacity` to 124.
pub device_id : (ℕ → ℕ) → DeviceId
device_id bytes = record {
  cylinders = read_u16 bytes 2;
  heads = read_u16 bytes 6;
  sectors = read_u16 bytes 12;
  lcylinders = read_u16 bytes 108;
  method = bytes 99;
  lba_capacity = read_u32 bytes 124;
}

-- The loop that fills `id_string` from the index `i` on, for `n` bytes, and the 0 at its end.
pub id_string : (ℕ → ℕ) → ℕ → ℕ → List ℕ
id_string bytes i zero = 0 ∷ []
id_string bytes i (suc n) =
    let c : ℕ = bytes (54 + bit_xor i 1) in
    let rest = id_string bytes (i + 1) n in (if c == 0x20 then 0 else c) ∷ rest

-- `hd_specify` from `devidp=` on: the fields of the drive.
pub hd_specify : (ℕ → ℕ) → IdeDrive → IdeDrive
unfolding device_id
hd_specify bytes wn = record wn {
  pcylinders = read_u16 bytes 2;
  pheads = read_u16 bytes 6;
  psectors = read_u16 bytes 12;
  lcylinders = read_u16 bytes 108;
  lheads = read_u16 bytes 110;
  lsectors = read_u16 bytes 112;
  max_multsect = bytes 94;
  dword_io = read_u16 bytes 96;
  buffer = read_u16 bytes 42;
  capacity = calc_capacity (device_id bytes);
  lba = if bit_and (bytes 99) 2 == 0 then 0 else 1;
}

-- `hd_init` for the first drive, from the 16 bytes of the BIOS.
pub hd_init : (ℕ → ℕ) → IdeDrive → IdeDrive
hd_init bios wn = record wn {
  irq = 14;
  base = 0x1f0;
  lcylinders = read_u16 bios 0;
  lheads = bios 2;
  precomp = read_u16 bios 5;
  lsectors = bios 14;
  ctl = 0x08;
  mainid = 0;
}

-- The drive has its capacity in the bytes from 120 to 123, by the standard; two drives that differ
-- there only are set up alike.
hd_specify-capacity :
    (b c : ℕ → ℕ) (wn : IdeDrive)
    → ((k : ℕ) → (k < 120) ⊎ (124 ≤ k) → b k ≡ c k)
    → hd_specify b wn ≡ hd_specify c wn
unfolding hd_specify device_id
hd_specify-capacity b c wn same = λ j. record wn {
  pcylinders = same 2 (inl (omega arith)) j + same 3 (inl (omega arith)) j * 256;
  pheads = same 6 (inl (omega arith)) j + same 7 (inl (omega arith)) j * 256;
  psectors = same 12 (inl (omega arith)) j + same 13 (inl (omega arith)) j * 256;
  lcylinders = same 108 (inl (omega arith)) j + same 109 (inl (omega arith)) j * 256;
  lheads = same 110 (inl (omega arith)) j + same 111 (inl (omega arith)) j * 256;
  lsectors = same 112 (inl (omega arith)) j + same 113 (inl (omega arith)) j * 256;
  max_multsect = same 94 (inl (omega arith)) j;
  dword_io = same 96 (inl (omega arith)) j + same 97 (inl (omega arith)) j * 256;
  buffer = same 42 (inl (omega arith)) j + same 43 (inl (omega arith)) j * 256;
  capacity = calc_capacity (record {
    cylinders = same 2 (inl (omega arith)) j + same 3 (inl (omega arith)) j * 256;
    heads = same 6 (inl (omega arith)) j + same 7 (inl (omega arith)) j * 256;
    sectors = same 12 (inl (omega arith)) j + same 13 (inl (omega arith)) j * 256;
    lcylinders = same 108 (inl (omega arith)) j + same 109 (inl (omega arith)) j * 256;
    method = same 99 (inl (omega arith)) j;
    lba_capacity =
        (same 124 (inr (omega arith)) j + same 125 (inr (omega arith)) j * 256)
        + (same 126 (inr (omega arith)) j + same 127 (inr (omega arith)) j * 256) * 2 ^ 16;
  });
  lba = if bit_and (same 99 (inl (omega arith)) j) 2 == 0 then 0 else 1;
}

-- The bytes of the name come in pairs, the second first.
xor-pair : (i : ℕ) → i < 40 → bit_xor i 1 ≡ (if i % 2 == 0 then i + 1 else i - 1)
unfolding every
xor-pair i h =
    (==_iff (bit_xor i 1) (if i % 2 == 0 then i + 1 else i - 1)).0
      (every-at (λ i. bit_xor i 1 == (if i % 2 == 0 then i + 1 else i - 1)) 40 refl i h)

-- Where each pair is exchanged, `id_string` is the name with its spaces replaced by 0, up to the last
-- character, which becomes 0.
id_string-name :
    (bytes name : ℕ → ℕ) (n i k : ℕ)
    → ((j : ℕ) → j < 40 → bytes (54 + (if j % 2 == 0 then j + 1 else j - 1)) ≡ name j)
    → i + n ≤ 40
    → k < n
    → get_or (id_string bytes i n) k 0 ≡ (if name (i + k) == 0x20 then 0 else name (i + k))
unfolding id_string
id_string-name bytes name zero i k swapped h hk = absurd (omega arith)
id_string-name bytes name (suc n) i zero swapped h hk =
    let c : bytes (54 + bit_xor i 1) ≡ name (i + 0) =
      ap (λ v. bytes (54 + v)) (xor-pair i (omega arith))
      ∙ swapped i (omega arith)
      ∙ ap name (omega arith) in
    ap (λ v. if v == 0x20 then 0 else v) c
id_string-name bytes name (suc n) i (suc k) swapped h hk =
    id_string-name bytes name n (i + 1) k swapped (omega arith) (omega arith)
    ∙ ap (λ v. if name v == 0x20 then 0 else name v) (omega arith)
