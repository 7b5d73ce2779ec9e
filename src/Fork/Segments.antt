-- ===== src/Fork/Segments.antt =====
-- The segments of a user process that `alloc_segments` of ker/protect.c makes.
use myos_ia.Prelude.{
  ℕ, ◌+◌, ◌/◌, ◌%◌, ◌^◌, ◌<◌, ◌≤◌, ◌≡◌, ◌∙◌, arith, length, length-set, get_or, set,
  get_or-set_self, get_or-set_ne, u32,
}
use myos_ia.Protect.{SegDesc, zero_seg, init_codeseg, init_dataseg, seg_selector, user_priv}
use myos_ia.Protect.Segments.{seg_base, seg_limit, setseg-seg_limit, seg_selector-fields}
use myos_ia.Fork.{Frame, Pcb, alloc_segments}

-- Where the selector `i` leads in the table of a process, and at which privilege.
pub record Selects (i index : ℕ) : Type 0 where
  pub index_field : i / 8 ≡ index
  pub local_table : i / 4 % 2 ≡ 1
  pub privilege : i % 4 ≡ 3

pub record Segmented (p : Pcb) (q : Pcb) (r : Frame) : Type 0 where
  pub code_base : seg_base (get_or q.ldt 0 zero_seg) ≡ p.text.phys
  pub code_limit : p.text.size ≤ seg_limit (get_or q.ldt 0 zero_seg)
  pub data_base : seg_base (get_or q.ldt 1 zero_seg) ≡ p.dat.phys
  pub data_limit : u32 (p.stack.vir + p.stack.size) ≤ seg_limit (get_or q.ldt 1 zero_seg)
  pub code_selector : Selects r.cs 0
  pub data_selector : Selects r.ds 1
  pub stack_selector : Selects r.ss 1

seg_selector-Selects : (index : ℕ) → Selects (seg_selector index 1 user_priv) index
seg_selector-Selects index =
    let (i, t, r) = seg_selector-fields index 1 3 (omega arith) (omega arith) in
    record { index_field = i; local_table = t; privilege = r }

abbrev Covers : SegDesc → ℕ → ℕ → Type 0
Covers d base size = (seg_base d ≡ base) × (size ≤ seg_limit d)

init_dataseg-Covers :
    (d : SegDesc) (base size pri : ℕ)
    → base < 2 ^ 32
    → size < 2 ^ 32
    → Covers (init_dataseg d base size pri) base size
unfolding init_dataseg
init_dataseg-Covers d base size pri hb hs =
    let (b, l, c) = setseg-seg_limit d base size hb hs in (b, c)

init_codeseg-Covers :
    (d : SegDesc) (base size pri : ℕ)
    → base < 2 ^ 32
    → size < 2 ^ 32
    → Covers (init_codeseg d base size pri) base size
unfolding init_codeseg
init_codeseg-Covers d base size pri hb hs =
    let (b, l, c) = setseg-seg_limit d base size hb hs in (b, c)

-- `alloc_segments` gives a process a code segment over its text and a data segment from the start of
-- its memory up to the end of its stack, and selectors of its own table at privilege level 3 that
-- name them, where the table has three descriptors and addresses and sizes are below 2 ^ 32.
pub alloc_segments-Segmented :
    (p : Pcb) (r : Frame)
    → length p.ldt ≡ 3
    → p.text.phys < 2 ^ 32
    → p.text.size < 2 ^ 32
    → p.dat.phys < 2 ^ 32
    → let (q, r') = alloc_segments p r in Segmented p q r'
unfolding alloc_segments
alloc_segments-Segmented p r len tb ts db =
    let end : ℕ = u32 (p.stack.vir + p.stack.size) in
    let code : SegDesc = init_codeseg (get_or p.ldt 0 zero_seg) p.text.phys p.text.size user_priv in
    let dat : SegDesc = init_dataseg (get_or p.ldt 1 zero_seg) p.dat.phys end user_priv in
    let (cb, cl) =
      init_codeseg-Covers (get_or p.ldt 0 zero_seg) p.text.phys p.text.size user_priv tb ts in
    let (b, l) =
      init_dataseg-Covers (get_or p.ldt 1 zero_seg) p.dat.phys end user_priv db (omega arith) in
    let longer : length (set p.ldt 0 code) ≡ 3 = length-set p.ldt 0 code ∙ len in
    let second : get_or (set (set p.ldt 0 code) 1 dat) 1 zero_seg ≡ dat =
      get_or-set_self (set p.ldt 0 code) 1 dat zero_seg (omega arith) in
    let first : get_or (set (set p.ldt 0 code) 1 dat) 0 zero_seg ≡ code =
      get_or-set_ne (set p.ldt 0 code) 1 0 dat zero_seg (omega arith)
      ∙ get_or-set_self p.ldt 0 code zero_seg (omega arith) in
    record {
      code_base = rw first cb;
      code_limit = rw first cl;
      data_base = rw second b;
      data_limit = rw second l;
      code_selector = seg_selector-Selects 0;
      data_selector = seg_selector-Selects 1;
      stack_selector = seg_selector-Selects 1;
    }
