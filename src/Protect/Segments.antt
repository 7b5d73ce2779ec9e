-- ===== src/Protect/Segments.antt =====
-- What the processor reads from the descriptors and selectors of ker/protect.c.
use myos_ia.Prelude.{
  ℕ, ◌+◌, ◌-◌, ◌*◌, ◌/◌, ◌%◌, ◌^◌, ◌<◌, ◌≤◌, ◌≡◌, refl, ap, true, false, arith, bit_or, ltb, ◌==◌,
  if◌then◌else◌, Bool-cases, inl, inr, ◌∙◌, ◌&&◌, u8, u16, ◌<<<◌, ◌>>>◌,
}
use myos_ia.Prelude.Bits.{every, every-at, or-field}
use myos_ia.Protect.{SegDesc, setseg, seg_selector}

-- The base and the limit that the processor takes from a descriptor: the limit has 20 bits, and
-- counts pages of 4096 bytes where bit 7 of `granularity` is set.
abbrev pub seg_base : SegDesc → ℕ
seg_base d = d.base_low + d.base_middle * 2 ^ 16 + d.base_high * 2 ^ 24

abbrev pub raw_limit : SegDesc → ℕ
raw_limit d = d.limit_low + d.granularity % 16 * 2 ^ 16

abbrev pub seg_limit : SegDesc → ℕ
seg_limit d = if ltb (d.granularity % 256) 128 then raw_limit d else raw_limit d * 4096 + 4095

nibble_table :
    every
      (λ n. u8 (bit_or n 0x40) == n + 0x40 && (u8 (bit_or (u8 (bit_or 0x80 n)) 0x40) == n + 0xc0))
      16
    ≡ true
unfolding every
nibble_table = refl

small_granularity : (n : ℕ) → n < 16 → u8 (bit_or n 0x40) ≡ n + 0x40
small_granularity n h = ground (arith, every-at _ 16 nibble_table n h)

big_granularity : (n : ℕ) → n < 16 → u8 (bit_or (u8 (bit_or 0x80 n)) 0x40) ≡ n + 0xc0
big_granularity n h = ground (arith, every-at _ 16 nibble_table n h)

setseg-seg_base :
    (d : SegDesc) (base size : ℕ) → base < 2 ^ 32 → seg_base (setseg d base size) ≡ base
unfolding setseg
setseg-seg_base d base size hb = omega arith

-- The limit that `setseg` means.
abbrev pub limit_for : ℕ → ℕ
limit_for size = if ltb 0xfffff size then size - size % 4096 + 4095 else size

big_limit :
    (size : ℕ)
    → 0xfffff < size
    → size < 2 ^ 32
    → u16 (size >>> 12) + (size >>> 28 + 0xc0) % 16 * 2 ^ 16 ≡ size / 4096
big_limit size lo hi = omega arith

big_scaled : (size : ℕ) → size / 4096 * 4096 + 4095 ≡ size - size % 4096 + 4095
big_scaled size = omega arith

setseg-limit :
    (d : SegDesc) (base size : ℕ) → size < 2 ^ 32 → seg_limit (setseg d base size) ≡ limit_for size
unfolding setseg
setseg-limit d base size hs = elim (Bool-cases (ltb 0xfffff size)) [
  | inl big ↦
      let g = big_granularity (size >>> 28) (omega arith) in
      let page : ltb ((size >>> 28 + 0xc0) % 256) 128 ≡ false = ground arith in
      rw (big, g, page, big_limit size (ground arith) hs) (big_scaled size)
  | inr small ↦
      let g = small_granularity (u8 (size >>> 16)) (ground arith) in
      let byte : ltb ((u8 (size >>> 16) + 0x40) % 256) 128 ≡ true = ground arith in
      rw (small, g, byte) (ground arith)
]

-- A descriptor that `setseg` fills has the base that it was given; its limit is the size where that
-- has 20 bits, and otherwise the size with its low 12 bits set. In both cases the offset `size`
-- itself is within the limit.
pub setseg-seg_limit :
    (d : SegDesc) (base size : ℕ)
    → base < 2 ^ 32
    → size < 2 ^ 32
    → (seg_base (setseg d base size) ≡ base)
      × (seg_limit (setseg d base size) ≡ limit_for size)
      × (size ≤ seg_limit (setseg d base size))
setseg-seg_limit d base size hb hs = (
  setseg-seg_base d base size hb,
  setseg-limit d base size hs,
  rw (setseg-limit d base size hs) (ground arith),
)

-- The fields of a selector come back from it.
pub seg_selector-fields :
    (index ti rpl : ℕ)
    → ti < 2
    → rpl < 4
    → (seg_selector index ti rpl / 8 ≡ index)
      × (seg_selector index ti rpl / 4 % 2 ≡ ti)
      × (seg_selector index ti rpl % 4 ≡ rpl)
unfolding seg_selector
seg_selector-fields index ti rpl ht hr =
    let high : bit_or (index <<< 3) (ti <<< 2) ≡ index * 8 + ti * 4 =
      or-field 3 index (ti <<< 2) (omega arith) in
    let low : bit_or ((index * 2 + ti) * 4) rpl ≡ (index * 2 + ti) * 4 + rpl =
      or-field 2 (index * 2 + ti) rpl (omega arith) in
    let all : bit_or (bit_or (index <<< 3) (ti <<< 2)) rpl ≡ (index * 2 + ti) * 4 + rpl =
      ap (λ t. bit_or t rpl) {x = bit_or (index <<< 3) (ti <<< 2)} {y = (index * 2 + ti) * 4}
        (omega arith)
      ∙ low in
    rw all (omega arith, omega arith, omega arith)
