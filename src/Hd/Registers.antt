-- ===== src/Hd/Registers.antt =====
-- The block address in the registers that `do_readwrite` of ker/hd.c writes, and the capacity of a
-- drive.
use myos_ia.Prelude.{
  ℕ, ◌+◌, ◌*◌, ◌/◌, ◌%◌, ◌^◌, ◌<◌, ◌≡◌, refl, Bool, true, List, [], ◌∷◌, arith, bit_and, bit_or,
  ◌==◌, if◌then◌else◌, u8, ◌<<<◌, ◌>>>◌,
}
use myos_ia.Prelude.Bits.{every, every-at, and-low}
use myos_ia.Hd.{Drive, Request, do_readwrite}

-- The last byte that was written to a port.
abbrev pub register : List (ℕ × ℕ) → ℕ → ℕ
register [] port = 0
register ((p, b) ∷ rest) port = let later = register rest port in if p == port then b else later

-- The block number that the drive puts together from the registers 3 to 6.
abbrev pub lba_block : Drive → List (ℕ × ℕ) → ℕ
lba_block wn written =
    register written (wn.base + 3)
    + register written (wn.base + 4) * 2 ^ 8
    + register written (wn.base + 5) * 2 ^ 16
    + register written (wn.base + 6) % 16 * 2 ^ 24

device_row : ℕ → ℕ → ℕ → Bool
device_row lba mainid nibble =
    u8 (bit_or (bit_or (bit_or 0xa0 (lba <<< 6)) (mainid <<< 4)) nibble)
    == 0xa0 + lba * 64 + mainid * 16 + nibble

device_table : every (λ n. device_row (n / 32) (n / 16 % 2) (n % 16)) 64 ≡ true
unfolding every device_row
device_table = refl

device_lem :
    (lba mainid nibble : ℕ)
    → lba < 2
    → mainid < 2
    → nibble < 16
    → u8 (bit_or (bit_or (bit_or 0xa0 (lba <<< 6)) (mainid <<< 4)) nibble)
      ≡ 0xa0 + lba * 64 + mainid * 16 + nibble
unfolding device_row
device_lem lba mainid nibble hl hm hn =
    let n : ℕ = lba * 32 + mainid * 16 + nibble in
    let high : n / 32 ≡ lba = omega arith in
    let middle : n / 16 % 2 ≡ mainid = omega arith in
    let low : n % 16 ≡ nibble = omega arith in
    let checked : device_row (n / 32) (n / 16 % 2) (n % 16) ≡ true =
      every-at (λ n. device_row (n / 32) (n / 16 % 2) (n % 16)) 64 device_table n (omega arith) in
    let row : device_row lba mainid nibble ≡ true = rw (high, middle, low) at checked in
    ground arith

registers_lem :
    (wn : Drive) (rq : Request)
    → let written = do_readwrite wn rq in
      (register written (wn.base + 2) ≡ u8 rq.count)
      × (register written (wn.base + 3) ≡ bit_and rq.block 0xff)
      × (register written (wn.base + 4) ≡ bit_and (rq.block >>> 8) 0xff)
      × (register written (wn.base + 5) ≡ bit_and (rq.block >>> 16) 0xff)
      × (register written (wn.base + 6)
          ≡ u8 (
              bit_or
                (bit_or (bit_or 0xa0 (wn.lba <<< 6)) (wn.mainid <<< 4))
                (bit_and (rq.block >>> 24) 0xf)))
unfolding do_readwrite
registers_lem wn rq = (ground arith, ground arith, ground arith, ground arith, ground arith)

-- The registers that `do_readwrite` writes give back the block number of the request, where it has
-- at most 28 bits, and the number of its sectors below 256; bit 6 of the last one selects block
-- numbers, and bit 4 the drive.
pub do_readwrite-lba_block :
    (wn : Drive) (rq : Request)
    → wn.lba < 2
    → wn.mainid < 2
    → rq.block < 2 ^ 28
    → rq.count < 256
    → let written = do_readwrite wn rq in
      (lba_block wn written ≡ rq.block)
      × (register written (wn.base + 2) ≡ rq.count)
      × (register written (wn.base + 6) / 64 % 2 ≡ wn.lba)
      × (register written (wn.base + 6) / 16 % 2 ≡ wn.mainid)
do_readwrite-lba_block wn rq hl hm hb hc =
    let (count, r3, r4, r5, r6) = registers_lem wn rq in
    let b0 : bit_and rq.block 0xff ≡ rq.block % 2 ^ 8 = and-low 8 rq.block in
    let b1 : bit_and (rq.block >>> 8) 0xff ≡ (rq.block >>> 8) % 2 ^ 8 =
      and-low 8 (rq.block >>> 8) in
    let b2 : bit_and (rq.block >>> 16) 0xff ≡ (rq.block >>> 16) % 2 ^ 8 =
      and-low 8 (rq.block >>> 16) in
    let b3 : bit_and (rq.block >>> 24) 0xf ≡ (rq.block >>> 24) % 2 ^ 4 =
      and-low 4 (rq.block >>> 24) in
    let device = device_lem wn.lba wn.mainid ((rq.block >>> 24) % 2 ^ 4) hl hm (omega arith) in
    rw (count, r3, r4, r5, r6, b0, b1, b2, b3, device)
      (omega arith, omega arith, omega arith, omega arith)
