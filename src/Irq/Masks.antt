-- ===== src/Irq/Masks.antt =====
-- Which lines the masks of ker/irq.c let through.
use myos_ia.Prelude.{
  ℕ, ◌+◌, ◌/◌, ◌%◌, ◌^◌, ◌<◌, ◌≡◌, inl, inr, refl, ◌∙◌, Bool, true, false, not, arith, bit_and,
  bit_or, ltb, ◌==◌, ==_iff, if◌then◌else◌, Bool-cases, u8, ◌<<<◌,
}
use myos_ia.Prelude.Bits.{every, every-at}
use myos_ia.Irq.{Pics, imm_outb, all_but, int_ctlmask, int2_ctlmask}

abbrev pub bit_set : ℕ → ℕ → Bool
bit_set m i = m / 2 ^ i % 2 == 1

-- The mask register that a line belongs to, and whether it holds the line back.
abbrev pub mask_port : ℕ → ℕ
mask_port irq = if ltb irq 8 then int_ctlmask else int2_ctlmask

abbrev pub masked : Pics → ℕ → Bool
masked s irq = bit_set (s.gives (mask_port irq)) (irq % 8)

-- The mask registers hold bytes.
pub record HasMasks (s : Pics) : Type 0 where
  pub first : s.gives int_ctlmask < 256
  pub second : s.gives int2_ctlmask < 256

abbrev same : Bool → Bool → Bool
same true b = b
same false b = not b

same_eq : (a b : Bool) → same a b ≡ true → a ≡ b
same_eq true b h = ground arith
same_eq false true h = cc
same_eq false false h = refl

clear_table :
    every
      (λ i.
        every
          (λ j.
            every
              (λ m.
                same
                  (bit_set (u8 (bit_and m (all_but i))) j)
                  (if j == i then false else bit_set m j))
              256)
          8)
      8
    ≡ true
unfolding every
clear_table = refl

set_table :
    every
      (λ i.
        every
          (λ j.
            every
              (λ m.
                same (bit_set (u8 (bit_or m (1 <<< i))) j) (if j == i then true else bit_set m j))
              256)
          8)
      8
    ≡ true
unfolding every
set_table = refl

lost_table : every (λ i. every (λ m. u8 (bit_or m (1 <<< (i + 8))) == m) 256) 8 ≡ true
unfolding every
lost_table = refl

pub clear_bit :
    (i j m : ℕ)
    → i < 8
    → j < 8
    → m < 256
    → bit_set (u8 (bit_and m (all_but i))) j ≡ (if j == i then false else bit_set m j)
clear_bit i j m hi hj hm =
    same_eq _ _ (every-at _ 256 (every-at _ 8 (every-at _ 8 clear_table i hi) j hj) m hm)

pub set_bit :
    (i j m : ℕ)
    → i < 8
    → j < 8
    → m < 256
    → bit_set (u8 (bit_or m (1 <<< i))) j ≡ (if j == i then true else bit_set m j)
set_bit i j m hi hj hm =
    same_eq _ _ (every-at _ 256 (every-at _ 8 (every-at _ 8 set_table i hi) j hj) m hm)

pub lost_bit : (i m : ℕ) → i < 8 → m < 256 → u8 (bit_or m (1 <<< (i + 8))) ≡ m
lost_bit i m hi hm = (==_iff _ m).0 (every-at _ 256 (every-at _ 8 lost_table i hi) m hm)

-- A write to a mask register, by the line that is asked about.
first_write :
    (v : ℕ) (s : Pics) (line : ℕ)
    → masked (imm_outb int_ctlmask v s) line
      ≡ (if ltb line 8 then bit_set (u8 v) (line % 8) else masked s line)
unfolding imm_outb
first_write v s line = elim (Bool-cases (ltb line 8)) [
  | inl low ↦ rw low refl
  | inr high ↦ rw high refl
]

second_write :
    (v : ℕ) (s : Pics) (line : ℕ)
    → masked (imm_outb int2_ctlmask v s) line
      ≡ (if ltb line 8 then masked s line else bit_set (u8 v) (line % 8))
unfolding imm_outb
second_write v s line = elim (Bool-cases (ltb line 8)) [
  | inl low ↦ rw low refl
  | inr high ↦ rw high refl
]

pub write-HasMasks : (port v : ℕ) (s : Pics) → HasMasks s → HasMasks (imm_outb port v s)
unfolding imm_outb
write-HasMasks port v s h = ground arith

-- The lines after the register of `irq` got the byte `v`, where `v` has the bits of the old byte but
-- for the one of `irq`, which is `b`.
pub line_write :
    (b : Bool) (irq line v : ℕ) (s : Pics)
    → irq < 16
    → line < 16
    → ((j : ℕ)
        → j < 8
        → bit_set (u8 v) j ≡ (if j == irq % 8 then b else bit_set (s.gives (mask_port irq)) j))
    → masked (imm_outb (mask_port irq) v s) line ≡ (if line == irq then b else masked s line)
line_write b irq line v s hi hl h =
    let bit = h (line % 8) (omega arith) in
    elim (Bool-cases (ltb irq 8)) [
      | inl low ↦ rw low (
          first_write v s line ∙ elim (Bool-cases (ltb line 8)) [
            | inl here ↦
                let at : (line % 8 == irq % 8) ≡ (line == irq) = ground arith in
                rw here (bit ∙ rw (low, at) refl)
            | inr there ↦ let apart : (line == irq) ≡ false = ground arith in rw (there, apart) refl
          ])
      | inr high ↦ rw high (
          second_write v s line ∙ elim (Bool-cases (ltb line 8)) [
            | inl there ↦ let apart : (line == irq) ≡ false = ground arith in rw (there, apart) refl
            | inr here ↦
                let at : (line % 8 == irq % 8) ≡ (line == irq) = ground arith in
                rw here (bit ∙ rw (high, at) refl)
          ])
    ]
