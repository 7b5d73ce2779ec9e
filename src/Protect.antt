-- ===== src/Protect.antt =====
-- ker/protect.c and include/protect.h: segment descriptors, selectors and gates, and the tables that
-- `prot_init` and `trap_init` fill. The addresses of the kernel's symbols are arguments.
pub mod Segments
pub mod Layers
pub mod Tables
mod Tests
use myos_ia.Prelude.{
  ℕ, zero, suc, ◌+◌, ◌-◌, ◌*◌, ◌/◌, ◌%◌, ◌^◌, Bool, true, false, List, [], ◌∷◌, bit_or, ltb, ◌==◌,
  if◌then◌else◌, set, u8, u16, u32, ◌<<<◌, ◌>>>◌,
}

pub record SegDesc : Type 0 where
  pub limit_low : ℕ
  pub base_low : ℕ
  pub base_middle : ℕ
  pub access : ℕ
  pub granularity : ℕ
  pub base_high : ℕ

abbrev pub zero_seg : SegDesc
zero_seg = record {
  limit_low = 0;
  base_low = 0;
  base_middle = 0;
  access = 0;
  granularity = 0;
  base_high = 0;
}

abbrev pub present : ℕ
present = 0x80

abbrev pub segment : ℕ
segment = 0x10

abbrev pub executable : ℕ
executable = 0x08

abbrev pub readable : ℕ
readable = 0x02

abbrev pub writeable : ℕ
writeable = 0x02

abbrev pub trap_type : ℕ
trap_type = 0x0f

abbrev pub int_type : ℕ
int_type = 0x0e

abbrev pub ldt_type : ℕ
ldt_type = 0x02

abbrev pub tss_type : ℕ
tss_type = 0x09

abbrev pub kernel_priv : ℕ
kernel_priv = 0

abbrev pub user_priv : ℕ
user_priv = 3

-- `setseg`: the two branches on the size, then `granularity|=0x40`.
unfoldable pub setseg : SegDesc → ℕ → ℕ → SegDesc
setseg d base size =
    let big : Bool = ltb 0xfffff size in
    let g : ℕ = if big then u8 (bit_or 0x80 (size >>> 28)) else u8 (size >>> 16) in
    record d {
      base_low = u16 base;
      base_middle = u8 (base >>> 16);
      base_high = u8 (base >>> 24);
      limit_low = if big then u16 (size >>> 12) else u16 size;
      granularity = u8 (bit_or g 0x40);
    }

unfoldable pub init_codeseg : SegDesc → ℕ → ℕ → ℕ → SegDesc
unfolding setseg
init_codeseg d base size pri = record (setseg d base size) {
  access = u8 (bit_or (pri <<< 5) (bit_or (bit_or (bit_or present executable) readable) segment));
}

unfoldable pub init_dataseg : SegDesc → ℕ → ℕ → ℕ → SegDesc
unfolding setseg
init_dataseg d base size pri = record (setseg d base size) {
  access = u8 (bit_or (pri <<< 5) (bit_or (bit_or present writeable) segment));
}

-- `set_ldt_desc`: a table of three descriptors of 8 bytes.
unfoldable pub set_ldt_desc : SegDesc → ℕ → SegDesc
unfolding init_dataseg
set_ldt_desc d base = record (init_dataseg d base 24 kernel_priv) {
  access = bit_or present ldt_type;
}

-- `set_tss_desc`: `struct tss_s` has 25 double words and two words.
unfoldable pub set_tss_desc : SegDesc → ℕ → SegDesc
unfolding init_dataseg
set_tss_desc d base = record (init_dataseg d base 104 kernel_priv) {
  access = bit_or (bit_or present (kernel_priv <<< 5)) tss_type;
}

-- `seg_selector`
unfoldable pub seg_selector : ℕ → ℕ → ℕ → ℕ
seg_selector index ti rpl = bit_or (bit_or (index <<< 3) (ti <<< 2)) rpl

pub record GateDesc : Type 0 where
  pub offset_low : ℕ
  pub selector : ℕ
  pub pad : ℕ
  pub p_dpl_type : ℕ
  pub offset_high : ℕ

abbrev pub zero_gate : GateDesc
zero_gate = record { offset_low = 0; selector = 0; pad = 0; p_dpl_type = 0; offset_high = 0 }

abbrev pub cs_selector : ℕ
cs_selector = 0x08

unfoldable pub init_gate : ℕ → ℕ → ℕ → List GateDesc → List GateDesc
init_gate vector base p_dpl_type idt = set idt vector (record {
  offset_low = u16 base;
  selector = cs_selector;
  pad = 0;
  p_dpl_type = u8 p_dpl_type;
  offset_high = u16 (base >>> 16);
})

unfoldable pub set_int_gate : ℕ → ℕ → List GateDesc → List GateDesc
unfolding init_gate
set_int_gate base vector = init_gate vector base (bit_or present int_type)

unfoldable pub set_trap_gate : ℕ → ℕ → List GateDesc → List GateDesc
unfolding init_gate
set_trap_gate base vector = init_gate vector base (bit_or present trap_type)

unfoldable pub set_sys_gate : ℕ → ℕ → List GateDesc → List GateDesc
unfolding init_gate
set_sys_gate base vector =
    init_gate vector base (bit_or (bit_or present int_type) (user_priv <<< 5))

abbrev pub sys_vector : ℕ
sys_vector = 0x3c

-- `VECTOR`
unfoldable pub vector : ℕ → ℕ
vector irq = (if ltb irq 8 then 0x28 else 0x30) + irq % 8

-- The calls of `set_trap_gate` and of `set_int_gate` in `trap_init`, from `i` on, `n` of them.
set_traps : (ℕ → ℕ) → ℕ → ℕ → List GateDesc → List GateDesc
unfolding set_trap_gate
set_traps trap i zero idt = idt
set_traps trap i (suc n) idt = set_traps trap (i + 1) n (set_trap_gate (trap i) i idt)

set_hwints : (ℕ → ℕ) → ℕ → ℕ → List GateDesc → List GateDesc
unfolding set_int_gate vector
set_hwints hwint i zero idt = idt
set_hwints hwint i (suc n) idt = set_hwints hwint (i + 1) n (set_int_gate (hwint i) (vector i) idt)

-- `trap_init`: `trap i` is the handler of the exception `i`, `hwint i` the entry of the line `i`.
unfoldable pub trap_init : (ℕ → ℕ) → ℕ → (ℕ → ℕ) → List GateDesc → List GateDesc
unfolding set_traps set_hwints set_sys_gate
trap_init trap system_call hwint idt =
    set_hwints hwint 0 16 (set_sys_gate system_call sys_vector (set_traps trap 0 20 idt))

abbrev pub first_ldt_index : ℕ
first_ldt_index = 6

-- The loop of `prot_init` over the processes from `t` on, `n` of them: `ldt t` is the address of the
-- table of the process `t`. The result has the selectors of the processes too.
set_ldts : (ℕ → ℕ) → ℕ → ℕ → List SegDesc → List ℕ → List SegDesc × List ℕ
unfolding set_ldt_desc seg_selector
set_ldts ldt t zero gdt selectors = (gdt, selectors)
set_ldts ldt t (suc n) gdt selectors =
    set_ldts ldt (t + 1) n (set gdt (first_ldt_index + t) (set_ldt_desc zero_seg (ldt t)))
      (set selectors t (seg_selector (first_ldt_index + t) 0 kernel_priv))

-- A `struct desctableptr` in the place of a descriptor: the operand of `lgdt` or `lidt`.
unfoldable pub table_pointer : SegDesc → ℕ → ℕ → SegDesc
table_pointer d base limit = record d {
  limit_low = u16 limit;
  base_low = u16 base;
  base_middle = u8 (base >>> 16);
  access = u8 (base >>> 24);
}

-- `prot_init` on the cleared tables, up to `trap_init`: the addresses are those of `gdt`, `idt`,
-- `tss` and the `ldt` of each process. 16 descriptors and 70 gates have 8 bytes each. The second
-- list has the `ldt_selector` of each process.
unfoldable pub prot_init : ℕ → ℕ → ℕ → (ℕ → ℕ) → List SegDesc → List ℕ → List SegDesc × List ℕ
unfolding table_pointer init_codeseg init_dataseg set_ldts set_tss_desc
prot_init gdt_at idt_at tss_at ldt_at gdt selectors =
    let g1 = set gdt 3 (table_pointer zero_seg gdt_at (16 * 8 - 1)) in
    let g2 = set g1 4 (table_pointer zero_seg idt_at (70 * 8 - 1)) in
    let g3 = set g2 1 (init_codeseg zero_seg 0 0xffffffff kernel_priv) in
    let g4 = set g3 2 (init_dataseg zero_seg 0 0xffffffff kernel_priv) in
    let (g5, selectors') = set_ldts ldt_at 0 10 g4 selectors in
    (set g5 5 (set_tss_desc zero_seg tss_at), selectors')
