-- ===== src/Protect/Tables.antt =====
-- The tables that `prot_init` and `trap_init` of ker/protect.c fill.
use myos_ia.Prelude.{
  ℕ, zero, suc, ◌+◌, ◌-◌, ◌*◌, ◌/◌, ◌%◌, ◌^◌, ◌<◌, ◌≤◌, ◌≡◌, refl, ap, List, arith, ltb, ◌==◌,
  if◌then◌else◌, ◌∙◌, length, length-set, get_or, get_or-set_ne, set, u16, ◌>>>◌, fill, get_or-fill,
}
use myos_ia.Protect.Segments.{seg_base, seg_limit, seg_selector-fields}
use myos_ia.Protect.{
  setseg, SegDesc, GateDesc, zero_seg, zero_gate, cs_selector, init_gate, set_int_gate,
  set_trap_gate, set_sys_gate, sys_vector, vector, set_traps, set_hwints, trap_init, set_ldts,
  set_ldt_desc, init_codeseg, init_dataseg, set_tss_desc, table_pointer, seg_selector, kernel_priv,
  prot_init,
}
use myos_ia.Protect.Layers.{fill-layers}

-- A gate with its entry point and type.
abbrev pub gate : ℕ → ℕ → GateDesc
gate base p_dpl_type = record {
  offset_low = u16 base;
  selector = cs_selector;
  pad = 0;
  p_dpl_type = p_dpl_type;
  offset_high = u16 (base >>> 16);
}

-- The 16 lines of the two interrupt controllers follow each other.
vector_lem : (irq : ℕ) → irq < 16 → vector irq ≡ 0x28 + irq
unfolding vector
vector_lem irq h = ground arith

traps-fill :
    (trap : ℕ → ℕ) (i n : ℕ) (idt : List GateDesc)
    → set_traps trap i n idt ≡ fill (λ j. gate (trap j) 0x8f) i n idt
unfolding set_traps set_trap_gate
traps-fill trap i zero idt = refl
traps-fill trap i (suc n) idt = traps-fill trap (i + 1) n (set_trap_gate (trap i) i idt)

steps : (i : ℕ) → (0x28 + (i + 1) ≡ 0x28 + i + 1) × (0x28 + i - 0x28 ≡ i)
steps i = (omega arith, omega arith)

hwints-fill :
    (hwint : ℕ → ℕ) (i n : ℕ) (idt : List GateDesc)
    → i + n ≤ 16
    → set_hwints hwint i n idt ≡ fill (λ j. gate (hwint (j - 0x28)) 0x8e) (0x28 + i) n idt
unfolding set_hwints set_int_gate init_gate
hwints-fill hwint i zero idt h = refl
hwints-fill hwint i (suc n) idt h = rw (vector_lem i (omega arith)) (
    hwints-fill hwint (i + 1) n (set idt (0x28 + i) (gate (hwint i) 0x8e)) (omega arith)
    ∙ let (next, same) = steps i in rw (next, same) refl)

-- The gates that `trap_init` means: the exceptions 0 to 19, the system call, and the interrupt lines
-- from 0x28 on.
abbrev pub gates : (ℕ → ℕ) → ℕ → (ℕ → ℕ) → List GateDesc → ℕ → GateDesc
gates trap system_call hwint idt i =
    if ltb i 20
    then gate (trap i) 0x8f
    else if i == sys_vector
    then gate system_call 0xee
    else if ltb i 0x28
    then get_or idt i zero_gate
    else if ltb i 0x38
    then gate (hwint (i - 0x28)) 0x8e
    else get_or idt i zero_gate

trap_init_lem :
    (trap : ℕ → ℕ) (system_call : ℕ) (hwint : ℕ → ℕ) (idt : List GateDesc)
    → trap_init trap system_call hwint idt
      ≡ fill
          (λ j. gate (hwint (j - 0x28)) 0x8e)
          0x28
          16
          (set (fill (λ j. gate (trap j) 0x8f) 0 20 idt) sys_vector (gate system_call 0xee))
unfolding trap_init set_sys_gate
trap_init_lem trap system_call hwint idt =
    rw (hwints-fill hwint 0 16 _ (omega arith), traps-fill trap 0 20 idt) refl

-- Every entry of a table of 70 gates after `trap_init`: no two of the gates collide.
pub trap_init-gates :
    (trap : ℕ → ℕ) (system_call : ℕ) (hwint : ℕ → ℕ) (idt : List GateDesc) (i : ℕ)
    → length idt ≡ 70
    → i < 70
    → get_or (trap_init trap system_call hwint idt) i zero_gate ≡ gates trap system_call hwint idt i
trap_init-gates trap system_call hwint idt i len h =
    ap (λ t. get_or t i zero_gate) (trap_init_lem trap system_call hwint idt)
    ∙ fill-layers (λ j. gate (trap j) 0x8f) 20 sys_vector (gate system_call 0xee)
        (λ j. gate (hwint (j - 0x28)) 0x8e) 0x28 16 idt zero_gate i (omega arith) (omega arith)
        (omega arith) (omega arith)

ldts-fill :
    (ldt : ℕ → ℕ) (t n : ℕ) (gdt : List SegDesc) (selectors : List ℕ)
    → set_ldts ldt t n gdt selectors ≡ (
      fill (λ j. set_ldt_desc zero_seg (ldt (j - 6))) (6 + t) n gdt,
      fill (λ j. seg_selector (6 + j) 0 kernel_priv) t n selectors,
    )
unfolding set_ldts
ldts-fill ldt t zero gdt selectors = refl
ldts-fill ldt t (suc n) gdt selectors =
    ldts-fill ldt (t + 1) n (set gdt (6 + t) (set_ldt_desc zero_seg (ldt t)))
      (set selectors t (seg_selector (6 + t) 0 kernel_priv))
    ∙ let next : 6 + (t + 1) ≡ 6 + t + 1 = omega arith in
      let same : 6 + t - 6 ≡ t = omega arith in rw (next, same) refl

-- The entries of the descriptor table in front of those of the processes.
first_entries : ℕ → ℕ → List SegDesc → List SegDesc
unfolding table_pointer init_codeseg init_dataseg
first_entries gdt_at idt_at gdt =
    let g1 = set gdt 3 (table_pointer zero_seg gdt_at (16 * 8 - 1)) in
    let g2 = set g1 4 (table_pointer zero_seg idt_at (70 * 8 - 1)) in
    let g3 = set g2 1 (init_codeseg zero_seg 0 0xffffffff kernel_priv) in
    set g3 2 (init_dataseg zero_seg 0 0xffffffff kernel_priv)

length-first_entries :
    (gdt_at idt_at : ℕ) (gdt : List SegDesc) → length (first_entries gdt_at idt_at gdt) ≡ length gdt
unfolding first_entries
length-first_entries gdt_at idt_at gdt =
    length-set _ 2 _ ∙ length-set _ 1 _ ∙ length-set _ 4 _ ∙ length-set gdt 3 _

prot_init_lem :
    (gdt_at idt_at tss_at : ℕ) (ldt_at : ℕ → ℕ) (gdt : List SegDesc) (selectors : List ℕ)
    → prot_init gdt_at idt_at tss_at ldt_at gdt selectors ≡ (
      set
          (fill
            (λ j. set_ldt_desc zero_seg (ldt_at (j - 6)))
            6
            10
            (first_entries gdt_at idt_at gdt))
          5
          (set_tss_desc zero_seg tss_at),
      fill (λ j. seg_selector (6 + j) 0 kernel_priv) 0 10 selectors,
    )
unfolding prot_init first_entries
prot_init_lem gdt_at idt_at tss_at ldt_at gdt selectors =
    ap (λ r. (set r.0 5 (set_tss_desc zero_seg tss_at), r.1))
      (ldts-fill ldt_at 0 10 (first_entries gdt_at idt_at gdt) selectors)

ldt_desc-fields :
    (base : ℕ)
    → base < 2 ^ 32
    → (seg_base (set_ldt_desc zero_seg base) ≡ base)
      × (seg_limit (set_ldt_desc zero_seg base) ≡ 24)
      × ((set_ldt_desc zero_seg base).access ≡ 0x82)
unfolding set_ldt_desc setseg
ldt_desc-fields base h = (omega arith, refl, refl)

-- With a global table of 16 descriptors and 10 processes, the selector that `prot_init` gives a
-- process names, in the global table, the descriptor of the process's own table, at privilege
-- level 0, where the address of that table is below 2 ^ 32.
pub prot_init-ldt_selector :
    (gdt_at idt_at tss_at : ℕ) (ldt_at : ℕ → ℕ) (gdt : List SegDesc) (selectors : List ℕ) (t : ℕ)
    → length gdt ≡ 16
    → length selectors ≡ 10
    → t < 10
    → ldt_at t < 2 ^ 32
    → let (gdt', selectors') = prot_init gdt_at idt_at tss_at ldt_at gdt selectors in
      let selector : ℕ = get_or selectors' t 0 in
      let d : SegDesc = get_or gdt' (selector / 8) zero_seg in
      (selector % 8 ≡ 0) × (seg_base d ≡ ldt_at t) × (seg_limit d ≡ 24) × (d.access ≡ 0x82)
prot_init-ldt_selector gdt_at idt_at tss_at ldt_at gdt selectors t lg ls ht hb =
    let made = prot_init_lem gdt_at idt_at tss_at ldt_at gdt selectors in
    let (gdt', selectors') = prot_init gdt_at idt_at tss_at ldt_at gdt selectors in
    let first : List SegDesc = first_entries gdt_at idt_at gdt in
    let long : length first ≡ 16 = length-first_entries gdt_at idt_at gdt ∙ lg in
    let own : ℕ → SegDesc = λ j. set_ldt_desc zero_seg (ldt_at (j - 6)) in
    let chosen : get_or selectors' t 0 ≡ seg_selector (6 + t) 0 kernel_priv =
      ap (λ r. get_or r.1 t 0) made
      ∙ get_or-fill (λ j. seg_selector (6 + j) 0 kernel_priv) 0 10 t selectors 0 (omega arith)
          (omega arith) (omega arith) in
    let (index, table, level) =
      seg_selector-fields (6 + t) 0 kernel_priv (omega arith) (omega arith) in
    let same : 6 + t - 6 ≡ t = omega arith in
    let desc : get_or gdt' (6 + t) zero_seg ≡ set_ldt_desc zero_seg (ldt_at t) =
      ap (λ r. get_or r.0 (6 + t) zero_seg) made
      ∙ get_or-set_ne (fill own 6 10 first) 5 (6 + t) (set_tss_desc zero_seg tss_at) zero_seg
          (omega arith)
      ∙ get_or-fill own 6 10 (6 + t) first zero_seg (omega arith) (omega arith) (omega arith)
      ∙ rw same refl in
    let (base, limit, access) = ldt_desc-fields (ldt_at t) hb in
    rw (chosen, index, desc) (omega arith, base, limit, access)
