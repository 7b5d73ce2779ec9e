-- ===== src/Irq/Service.antt =====
-- `enable_irq`, `disable_irq` and `do_IRQ` of ker/irq.c by the lines that are held back.
use myos_ia.Prelude.{
  ℕ, ◌-◌, ◌+◌, ◌%◌, ◌<◌, ◌≡◌, refl, ap, ◌∙◌, true, false, ◌&&◌, arith, bit_and, bit_or, ltb, ◌==◌,
  if◌then◌else◌, Bool-cases, inl, inr, u8, ◌<<<◌,
}
use myos_ia.Irq.{
  Pics, imm_outb, all_but, enable_irq, disable_irq, before_handler, after_handler, do_irq, int_ctl,
  int2_ctl, int_ctlmask, int2_ctlmask, i8259_enable,
}
use myos_ia.Irq.Masks.{
  HasMasks, bit_set, mask_port, masked, clear_bit, set_bit, lost_bit, line_write,
}

mask-lt : (s : Pics) (irq : ℕ) → HasMasks s → s.gives (mask_port irq) < 256
mask-lt s irq h = elim (Bool-cases (ltb irq 8)) [
  | inl low ↦ rw low h.first
  | inr high ↦ rw high h.second
]

unmask : ℕ → Pics → Pics
unmask irq s = imm_outb (mask_port irq) (bit_and (s.gives (mask_port irq)) (all_but (irq % 8))) s

mask : ℕ → Pics → Pics
mask irq s = imm_outb (mask_port irq) (bit_or (s.gives (mask_port irq)) (1 <<< (irq % 8))) s

unmask-masked :
    (irq line : ℕ) (s : Pics)
    → HasMasks s
    → irq < 16
    → line < 16
    → masked (unmask irq s) line ≡ (if line == irq then false else masked s line)
unfolding unmask
unmask-masked irq line s h hi hl =
    line_write false irq line (bit_and (s.gives (mask_port irq)) (all_but (irq % 8))) s hi hl
      (λ j hj. clear_bit (irq % 8) j (s.gives (mask_port irq)) (omega arith) hj (mask-lt s irq h))

mask-masked :
    (irq line : ℕ) (s : Pics)
    → HasMasks s
    → irq < 16
    → line < 16
    → masked (mask irq s) line ≡ (if line == irq then true else masked s line)
unfolding mask
mask-masked irq line s h hi hl =
    line_write true irq line (bit_or (s.gives (mask_port irq)) (1 <<< (irq % 8))) s hi hl
      (λ j hj. set_bit (irq % 8) j (s.gives (mask_port irq)) (omega arith) hj (mask-lt s irq h))

enable_irq_lem : (irq : ℕ) (s : Pics) → irq < 16 → enable_irq irq s ≡ unmask irq s
unfolding enable_irq unmask
enable_irq_lem irq s hi = elim (Bool-cases (ltb irq 8)) [
  | inl low ↦ let same : irq % 8 ≡ irq = ground arith in rw (low, same) refl
  | inr high ↦ rw high refl
]

-- `enable_irq` lets the line through that it is given, and no other line changes.
pub enable_irq-masked :
    (irq line : ℕ) (s : Pics)
    → HasMasks s
    → irq < 16
    → line < 16
    → masked (enable_irq irq s) line ≡ (if line == irq then false else masked s line)
enable_irq-masked irq line s h hi hl =
    ap (λ t. masked t line) (enable_irq_lem irq s hi) ∙ unmask-masked irq line s h hi hl

disable_low : (irq : ℕ) (s : Pics) → ltb irq 8 ≡ true → disable_irq irq s ≡ mask irq s
unfolding disable_irq mask
disable_low irq s low = let same : irq % 8 ≡ irq = ground arith in rw (low, same) refl

disable_high :
    (irq line : ℕ) (s : Pics)
    → HasMasks s
    → irq < 16
    → ltb irq 8 ≡ false
    → masked (disable_irq irq s) line ≡ masked s line
unfolding disable_irq imm_outb
disable_high irq line s h hi high =
    let shift : irq - 8 + 8 ≡ irq = ground arith in
    let old : u8 (bit_or (s.gives int2_ctlmask) (1 <<< irq)) ≡ s.gives int2_ctlmask =
      rw shift at (lost_bit (irq - 8) (s.gives int2_ctlmask) (ground arith) h.second) in
    rw high (elim (Bool-cases (ltb line 8)) [
      | inl there ↦ rw there refl
      | inr here ↦ rw here (ap (λ m. bit_set m (line % 8)) old)
    ])

-- `disable_irq` holds back one of the first eight lines. For a line of the second controller it does
-- nothing: the bit that it sets is behind the eight of the register.
pub disable_irq-masked :
    (irq line : ℕ) (s : Pics)
    → HasMasks s
    → irq < 16
    → line < 16
    → masked (disable_irq irq s) line ≡ (if ltb irq 8 && line == irq then true else masked s line)
disable_irq-masked irq line s h hi hl = elim (Bool-cases (ltb irq 8)) [
  | inl low ↦
      rw low (ap (λ t. masked t line) (disable_low irq s low) ∙ mask-masked irq line s h hi hl)
  | inr high ↦ rw high (disable_high irq line s h hi high)
]

-- A byte for a command port does not change the masks.
command-masked :
    (port v line : ℕ) (s : Pics)
    → (int_ctlmask == port) ≡ false
    → (int2_ctlmask == port) ≡ false
    → masked (imm_outb port v s) line ≡ masked s line
unfolding imm_outb
command-masked port v line s a b = elim (Bool-cases (ltb line 8)) [
  | inl low ↦ rw (low, a) refl
  | inr high ↦ rw (high, b) refl
]

before_handler-masked :
    (irq line : ℕ) (s : Pics)
    → irq < 16
    → masked (before_handler irq s) line ≡ masked (mask irq s) line
unfolding before_handler mask
before_handler-masked irq line s hi = elim (Bool-cases (ltb irq 8)) [
  | inl low ↦
      let same : irq % 8 ≡ irq = ground arith in
      rw (low, same)
        (command-masked int_ctl i8259_enable line
          (imm_outb int_ctlmask (bit_or (s.gives int_ctlmask) (1 <<< irq)) s) refl refl)
  | inr high ↦
      let same : irq - 8 ≡ irq % 8 = ground arith in
      let s1 : Pics = imm_outb int2_ctlmask (bit_or (s.gives int2_ctlmask) (1 <<< (irq % 8))) s in
      rw (high, same)
        (command-masked int2_ctl i8259_enable line (imm_outb int_ctl i8259_enable s1) refl refl
          ∙ command-masked int_ctl i8259_enable line s1 refl refl)
]

after_handler-masked :
    (irq line : ℕ) (s : Pics)
    → irq < 16
    → masked (after_handler irq s) line ≡ masked (unmask irq s) line
unfolding after_handler unmask imm_outb
after_handler-masked irq line s hi = elim (Bool-cases (ltb irq 8)) [
  | inl low ↦ let same : irq % 8 ≡ irq = ground arith in rw (low, same) refl
  | inr high ↦ let same : irq - 8 ≡ irq % 8 = ground arith in rw (high, same) refl
]

before_handler-flag :
    (irq : ℕ) (s : Pics)
    → ((before_handler irq s).irq_table ≡ s.irq_table) × ((before_handler irq s).flag ≡ true)
unfolding before_handler imm_outb
before_handler-flag irq s = elim (Bool-cases (ltb irq 8)) [
  | inl low ↦ rw low (refl, refl)
  | inr high ↦ rw high (refl, refl)
]

before_handler-HasMasks : (irq : ℕ) (s : Pics) → HasMasks s → HasMasks (before_handler irq s)
unfolding before_handler imm_outb
before_handler-HasMasks irq s h = elim (Bool-cases (ltb irq 8)) [
  | inl low ↦ rw low (record { first = omega arith; second = h.second })
  | inr high ↦ rw high (record { first = h.first; second = omega arith })
]

after_handler-flag : (irq : ℕ) (s : Pics) → (after_handler irq s).flag ≡ false
unfolding after_handler imm_outb
after_handler-flag irq s = elim (Bool-cases (ltb irq 8)) [
  | inl low ↦ rw low refl
  | inr high ↦ rw high refl
]

-- While the handler of a line runs, that line is held back, the others are as they were, and
-- interrupts are on. Afterwards interrupts are off and the line is let through, whatever the handler
-- did with it, while the other lines are as the handler left them.
pub do_irq-masked :
    (run : ℕ → ℕ → Pics → Pics) (irq line : ℕ) (s : Pics)
    → HasMasks s
    → ((h : ℕ) (t : Pics) → HasMasks t → HasMasks (run h irq t))
    → irq < 16
    → line < 16
    → let called = before_handler irq s in
      let returned = run (s.irq_table irq) irq called in
      (masked called line ≡ (if line == irq then true else masked s line))
      × (called.flag ≡ true)
      × (masked (do_irq run irq s) line ≡ (if line == irq then false else masked returned line))
      × ((do_irq run irq s).flag ≡ false)
unfolding do_irq
do_irq-masked run irq line s h keeps hi hl =
    let called = before_handler irq s in
    let returned = run (s.irq_table irq) irq called in
    let (table, on) = before_handler-flag irq s in
    (
      before_handler-masked irq line s hi ∙ mask-masked irq line s h hi hl,
      on,
      ap (λ t. masked (after_handler irq (run (t irq) irq called)) line) table
          ∙ after_handler-masked irq line returned hi
          ∙ unmask-masked irq line returned
              (keeps (s.irq_table irq) called (before_handler-HasMasks irq s h)) hi hl,
      after_handler-flag irq (run (called.irq_table irq) irq called),
    )
