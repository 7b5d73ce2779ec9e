-- ===== src/Irq.antt =====
-- ker/irq.c: the masks of the two interrupt controllers and the handlers of the 16 lines. `gives` is
-- what the ports give when they are read; it is used at the two mask ports only, which give back what
-- was written to them. `writes` lists the bytes that were written, last first, and `flag` is the
-- interrupt flag.
pub mod Masks
pub mod Service
mod Tests
use myos_ia.Prelude.{
  ℕ, zero, suc, ◌+◌, ◌-◌, ◌%◌, ◌^◌, Bool, true, false, List, [], ◌∷◌, bit_and, bit_or, ltb, ◌==◌,
  if◌then◌else◌, u8, ◌<<<◌,
}
use myos_ia.Sched.{update}

abbrev pub int_ctl : ℕ
int_ctl = 0x20

abbrev pub int_ctlmask : ℕ
int_ctlmask = 0x21

abbrev pub int2_ctl : ℕ
int2_ctl = 0xa0

abbrev pub int2_ctlmask : ℕ
int2_ctlmask = 0xa1

abbrev pub i8259_enable : ℕ
i8259_enable = 0x20

pub record Pics : Type 0 where
  pub gives : ℕ → ℕ
  pub writes : List (ℕ × ℕ)
  pub flag : Bool
  pub irq_table : ℕ → ℕ

-- `imm_outb`
pub imm_outb : ℕ → ℕ → Pics → Pics
imm_outb port value s = record s {
  gives = update s.gives port (u8 value);
  writes = (port, u8 value) ∷ s.writes;
}

-- `~(1<<n)`, of a 32-bit `int`.
abbrev pub all_but : ℕ → ℕ
all_but n = 2 ^ 32 - 1 - 1 <<< n

-- `put_irq_handler`; a handler is its address.
pub put_irq_handler : ℕ → ℕ → Pics → Pics
put_irq_handler irq handler s = record s { irq_table = update s.irq_table irq handler }

-- `enable_irq`
pub enable_irq : ℕ → Pics → Pics
unfolding imm_outb
enable_irq irq s =
    if ltb irq 8
    then imm_outb int_ctlmask (bit_and (s.gives int_ctlmask) (all_but irq)) s
    else imm_outb int2_ctlmask (bit_and (s.gives int2_ctlmask) (all_but (irq % 8))) s

-- `disable_irq`: the second branch shifts by `irq` itself.
pub disable_irq : ℕ → Pics → Pics
unfolding imm_outb
disable_irq irq s =
    if ltb irq 8
    then imm_outb int_ctlmask (bit_or (s.gives int_ctlmask) (1 <<< irq)) s
    else imm_outb int2_ctlmask (bit_or (s.gives int2_ctlmask) (1 <<< irq)) s

-- The loop of `intr_init` over the lines from `i` on, `n` of them.
fill_table : ℕ → ℕ → ℕ → (ℕ → ℕ) → ℕ → ℕ
fill_table handler i zero table = table
fill_table handler i (suc n) table = fill_table handler (i + 1) n (update table i handler)

-- `intr_init`, with the address of `nothing_irq`.
pub intr_init : ℕ → Pics → Pics
unfolding imm_outb fill_table
intr_init nothing_irq s0 =
    let s1 = imm_outb int_ctl 0x11 (record s0 { flag = false }) in
    let s2 = imm_outb int_ctlmask 0x28 s1 in
    let s3 = imm_outb int_ctlmask (1 <<< 2) s2 in
    let s4 = imm_outb int_ctlmask 0x01 s3 in
    let s5 = imm_outb int_ctlmask 0xfb s4 in
    let s6 = imm_outb int2_ctl 0x11 s5 in
    let s7 = imm_outb int2_ctlmask 0x30 s6 in
    let s8 = imm_outb int2_ctlmask 2 s7 in
    let s9 = imm_outb int2_ctlmask 0x01 s8 in
    let s10 = imm_outb int2_ctlmask 0xff s9 in
    record s10 { irq_table = fill_table nothing_irq 0 16 s10.irq_table }

-- The state in which `do_IRQ` calls the handler: the line is masked, the controllers may send the
-- next interrupt, and interrupts are on.
pub before_handler : ℕ → Pics → Pics
unfolding imm_outb
before_handler irq s0 =
    let acknowledged : Pics =
      if ltb irq 8
      then (let s1 = imm_outb int_ctlmask (bit_or (s0.gives int_ctlmask) (1 <<< irq)) s0 in
          imm_outb int_ctl i8259_enable s1)
      else (let s1 = imm_outb int2_ctlmask (bit_or (s0.gives int2_ctlmask) (1 <<< (irq - 8))) s0 in
          imm_outb int2_ctl i8259_enable (imm_outb int_ctl i8259_enable s1)) in
    record acknowledged { flag = true }

-- What `do_IRQ` does after the handler.
pub after_handler : ℕ → Pics → Pics
unfolding imm_outb
after_handler irq s0 =
    let s : Pics = record s0 { flag = false } in
    if ltb irq 8
    then imm_outb int_ctlmask (bit_and (s.gives int_ctlmask) (all_but irq)) s
    else imm_outb int2_ctlmask (bit_and (s.gives int2_ctlmask) (all_but (irq - 8))) s

-- `do_IRQ`: `run h irq` is what the handler at the address `h` does.
pub do_irq : (ℕ → ℕ → Pics → Pics) → ℕ → Pics → Pics
do_irq run irq s =
    let called = before_handler irq s in after_handler irq (run (called.irq_table irq) irq called)
