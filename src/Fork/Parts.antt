-- ===== src/Fork/Parts.antt =====
-- What the parts of `do_fork` of ker/fork.c leave in the entry of the child and around it.
pub mod Frames
use myos_ia.Prelude.{
  ℕ, ◌+◌, ◌-◌, ◌<◌, ◌^◌, ◌≡◌, ◌≢◌, refl, ap, ◌∙◌, true, false, ◌&&◌, some, List, arith, ltb, leb,
  ◌==◌, if◌then◌else◌, Bool-cases, inl, inr, length, bit_or,
}
use myos_ia.Sched.{State, ok, update, wake_up_process}
use myos_ia.Sched.Chain.{has, IsQueue, Chain-frame, update_self}
use myos_ia.Mem.Holes.{Mem, kmem_alloc}
use myos_ia.Fork.Segments.{Segmented, alloc_segments-Segmented}
use myos_ia.Fork.{
  Pcb, Frame, Procs, Image, copy, region_size, mem_copy, clone, clone_pcb, start, fork_into,
  place_copy, alloc_segments, moved_to, p_in_use,
}
use myos_ia.Fork.Copy.{Apart, copy_lem}

pub clone-IsQueue :
    (im : Image) (c f : ℕ) (s : Procs) (xs : List ℕ)
    → IsQueue s.sched xs
    → has c xs ≡ false
    → IsQueue (clone im c f s).sched xs
unfolding clone
clone-IsQueue im c f s xs q out = record {
  chain = Chain-frame s.sched.next s.sched.ready_head xs c (s.sched.next f) q.chain out;
  ends = q.ends;
  distinct = q.distinct;
  no_idle = q.no_idle;
}

start-IsQueue :
    (c : ℕ) (s : Procs) (xs : List ℕ) → IsQueue s.sched xs → IsQueue (start c s).sched xs
unfolding start
start-IsQueue c s xs q = record {
  chain = q.chain;
  ends = q.ends;
  distinct = q.distinct;
  no_idle = q.no_idle;
}

-- `mem_copy` where `Kmem_alloc` finds memory.
copied : ℕ → ℕ → ℕ → Mem → Procs → Procs
copied f c base m t = record t {
  mem = record m { irq = t.mem.irq };
  bytes = copy (t.pcb f).dat.phys base (region_size (t.pcb f)) t.bytes;
  pcb = update t.pcb c (moved_to base (t.pcb f) (t.pcb c));
}

copied-IsQueue :
    (f c base : ℕ) (m : Mem) (t : Procs) (xs : List ℕ)
    → IsQueue t.sched xs
    → IsQueue (copied f c base m t).sched xs
unfolding copied
copied-IsQueue f c base m t xs q = q

mem_copy_lem :
    (t : Procs) (f c base : ℕ) (m : Mem)
    → base ≢ 0
    → kmem_alloc (region_size (t.pcb f)) t.mem ≡ (some base, m)
    → mem_copy f c t ≡ (true, copied f c base m t)
unfolding mem_copy copied place_copy
mem_copy_lem t f c base m pos e =
    let test : (base == 0) ≡ false = ground arith in rw (e, place_copy, test) refl

pub clone-mem : (im : Image) (c f : ℕ) (s : Procs) → (clone im c f s).mem ≡ s.mem
unfolding clone
clone-mem im c f s = refl

pub clone-father : (im : Image) (c f : ℕ) (s : Procs) → f ≢ c → (clone im c f s).pcb f ≡ s.pcb f
unfolding clone
clone-father im c f s ne = let other : (f == c) ≡ false = ground arith in rw other refl

clone-bytes : (im : Image) (c f : ℕ) (s : Procs) → (clone im c f s).bytes ≡ s.bytes
unfolding clone
clone-bytes im c f s = refl

-- The state in which `do_fork` wakes the child up.
pub made : Image → ℕ → ℕ → ℕ → Mem → Procs → Procs
made im f c base m s = start c (copied f c base m (clone im c f s))

pub fork_into_lem :
    (im : Image) (s : Procs) (t : State) (c base : ℕ) (m : Mem)
    → base ≢ 0
    → s.sched.current ≢ c
    → kmem_alloc (region_size (s.pcb s.sched.current)) s.mem ≡ (some base, m)
    → wake_up_process (some c) (made im s.sched.current c base m s).sched ≡ ok t
    → fork_into im s (some c)
      ≡ ok (some (s.pcb c).pid, record (made im s.sched.current c base m s) { sched = t })
unfolding fork_into made
fork_into_lem im s t c base m pos ne e w =
    let f : ℕ = s.sched.current in
    let cloned : Procs = clone im c f s in
    let enough : kmem_alloc (region_size (cloned.pcb f)) cloned.mem ≡ (some base, m) =
      ap (λ p. kmem_alloc (region_size p) cloned.mem) (clone-father im c f s ne)
      ∙ ap (kmem_alloc (region_size (s.pcb f))) (clone-mem im c f s)
      ∙ e in
    rw (mem_copy_lem cloned f c base m pos enough, w) refl

clone-child :
    (im : Image) (c f : ℕ) (s : Procs) → (clone im c f s).pcb c ≡ clone_pcb im c (s.pcb f) (s.pcb c)
unfolding clone
clone-child im c f s = update_self s.pcb c (clone_pcb im c (s.pcb f) (s.pcb c))

-- The child's `struct proc` and registers before and after `alloc_segments`.
abbrev unsegmented : Image → ℕ → ℕ → ℕ → Procs → Pcb
unsegmented im f c base s =
    let q : Pcb = clone_pcb im c (s.pcb f) (s.pcb c) in
    record (moved_to base (s.pcb f) q) { flags = bit_or q.flags p_in_use }

pub child : Image → ℕ → ℕ → ℕ → Procs → Pcb × Frame
child im f c base s = alloc_segments (unsegmented im f c base s) (record (s.regs f) { eax = 0 })

start-child :
    (c : ℕ) (t : Procs)
    → ((start c t).pcb c, (start c t).regs c)
      ≡ alloc_segments (record (t.pcb c) { flags = bit_or (t.pcb c).flags p_in_use }) (t.regs c)
unfolding start
start-child c t =
    let used : Pcb = record (t.pcb c) { flags = bit_or (t.pcb c).flags p_in_use } in
    let (p, r) = alloc_segments used (t.regs c) in
    λ i. (update_self t.pcb c p i, update_self t.regs c r i)

copied-child :
    (f c base : ℕ) (m : Mem) (t : Procs)
    → (copied f c base m t).pcb c ≡ moved_to base (t.pcb f) (t.pcb c)
unfolding copied
copied-child f c base m t = update_self t.pcb c (moved_to base (t.pcb f) (t.pcb c))

copied-regs : (f c base : ℕ) (m : Mem) (t : Procs) → (copied f c base m t).regs ≡ t.regs
unfolding copied
copied-regs f c base m t = refl

clone-regs :
    (im : Image) (c f : ℕ) (s : Procs) → (clone im c f s).regs c ≡ record (s.regs f) { eax = 0 }
unfolding clone
clone-regs im c f s = update_self s.regs c (record (s.regs f) { eax = 0 })

pub made-child :
    (im : Image) (f c base : ℕ) (m : Mem) (s : Procs)
    → f ≢ c
    → ((made im f c base m s).pcb c, (made im f c base m s).regs c) ≡ child im f c base s
unfolding made child
made-child im f c base m s ne =
    let cloned : Procs = clone im c f s in
    let q : Pcb = clone_pcb im c (s.pcb f) (s.pcb c) in
    let pcb : (copied f c base m cloned).pcb c ≡ moved_to base (s.pcb f) q =
      copied-child f c base m cloned
      ∙ (λ i. moved_to base (clone-father im c f s ne i) (clone-child im c f s i)) in
    let regs : (copied f c base m cloned).regs c ≡ record (s.regs f) { eax = 0 } =
      ap (λ r. r c) (copied-regs f c base m cloned) ∙ clone-regs im c f s in
    start-child c (copied f c base m cloned)
    ∙ (λ i. alloc_segments (record (pcb i) { flags = bit_or (pcb i).flags p_in_use }) (regs i))

made-other :
    (im : Image) (f c base : ℕ) (m : Mem) (s : Procs) (p : ℕ)
    → (p == c) ≡ false
    → (made im f c base m s).pcb p ≡ s.pcb p
unfolding made start copied clone
made-other im f c base m s p other = rw other refl

pub made-others :
    (im : Image) (f c base : ℕ) (m : Mem) (s : Procs) (p : ℕ)
    → (made im f c base m s).pcb p ≡ (if p == c then (made im f c base m s).pcb c else s.pcb p)
made-others im f c base m s p = elim (Bool-cases (p == c)) [
  | inl same ↦ let e : p ≡ c = ground arith in rw same (ap (λ q. (made im f c base m s).pcb q) e)
  | inr other ↦ let old = made-other im f c base m s p other in rw other old
]

pub child-segments :
    (im : Image) (f c base : ℕ) (s : Procs)
    → base < 2 ^ 32
    → length (s.pcb f).ldt ≡ 3
    → (s.pcb f).text.phys < 2 ^ 32
    → (s.pcb f).text.size < 2 ^ 32
    → Segmented (child im f c base s).0 (child im f c base s).0 (child im f c base s).1
unfolding child alloc_segments clone_pcb
child-segments im f c base s wide len tb ts =
    let g =
      alloc_segments-Segmented (unsegmented im f c base s) (record (s.regs f) { eax = 0 }) len tb ts
        wide in
    record {
      code_base = g.code_base;
      code_limit = g.code_limit;
      data_base = g.data_base;
      data_limit = g.data_limit;
      code_selector = g.code_selector;
      data_selector = g.data_selector;
      stack_selector = g.stack_selector;
    }

-- The fields of the child that do not depend on the allocator.
pub child-fields :
    (im : Image) (f c base : ℕ) (s : Procs)
    → (s.pcb f).flags ≡ p_in_use
    → let (p, r) = child im f c base s in
      (p.flags ≡ p_in_use)
      × (p.pid ≡ (s.pcb c).pid)
      × (p.ldt_selector ≡ (s.pcb c).ldt_selector)
      × (r.eax ≡ 0)
      × (r.eip ≡ (s.regs f).eip)
      × (p.dat ≡ record (s.pcb f).dat { phys = base })
unfolding child alloc_segments clone_pcb
child-fields im f c base s flag = rw flag (refl, refl, refl, refl, refl, refl)

pub made-bytes :
    (im : Image) (f c base : ℕ) (m : Mem) (s : Procs) (a : ℕ)
    → f ≢ c
    → Apart (s.pcb f).dat.phys base (region_size (s.pcb f))
    → (made im f c base m s).bytes a ≡ (
        if leb base a && ltb a (base + region_size (s.pcb f))
        then s.bytes ((s.pcb f).dat.phys + (a - base))
        else s.bytes a)
unfolding made start copied
made-bytes im f c base m s a ne apart =
    let same : (clone im c f s).bytes ≡ s.bytes = clone-bytes im c f s in
    rw (clone-father im c f s ne, same)
      (copy_lem (s.pcb f).dat.phys base (region_size (s.pcb f)) s.bytes a apart)

pub made-mem :
    (im : Image) (f c base : ℕ) (m : Mem) (s : Procs)
    → (made im f c base m s).mem ≡ record m { irq = s.mem.irq }
unfolding made start copied clone
made-mem im f c base m s = refl

pub made-IsQueue :
    (im : Image) (f c base : ℕ) (m : Mem) (s : Procs) (xs : List ℕ)
    → IsQueue s.sched xs
    → has c xs ≡ false
    → IsQueue (made im f c base m s).sched xs
unfolding made
made-IsQueue im f c base m s xs q out =
    start-IsQueue c (copied f c base m (clone im c f s)) xs
      (copied-IsQueue f c base m (clone im c f s) xs (clone-IsQueue im c f s xs q out))
