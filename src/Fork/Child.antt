-- ===== src/Fork/Child.antt =====
-- The child that `do_fork` of ker/fork.c makes.
use myos_ia.Prelude.{
  ℕ, ◌+◌, ◌-◌, ◌<◌, ◌^◌, ◌≡◌, ◌≢◌, refl, ap, true, false, ◌&&◌, some, List, [], ◌∷◌, ◌++◌, arith,
  ltb, leb, ◌==◌, if◌then◌else◌, length, u32, sub32,
}
use myos_ia.Sched.{ok, idle_task}
use myos_ia.Sched.Chain.{has, IsQueue}
use myos_ia.Sched.Woken.{wake_up_process-Woken}
use myos_ia.Mem.Holes.{Mem, kmem_alloc}
use myos_ia.Fork.Segments.{Segmented}
use myos_ia.Fork.{
  Pcb, Procs, Image, is_used, get_free_proc_struct, region_size, do_fork, get_proc_kstack, p_in_use,
  nr_task,
}
use myos_ia.Fork.Copy.{Apart}
use myos_ia.Fork.Slots.{find_free-FirstFree}
use myos_ia.Fork.Parts.Frames.{Launched, made-regs, made-tss, made-Launched, child-pcb}
use myos_ia.Fork.Parts.{
  made, fork_into_lem, child, made-child, made-others, child-segments, child-fields, made-bytes,
  made-mem, made-IsQueue,
}

-- What `do_fork` relies on of the process that calls it.
pub record IsFather (p : Pcb) : Type 0 where
  pub flag : p.flags ≡ p_in_use
  pub table : length p.ldt ≡ 3
  pub text_base : p.text.phys < 2 ^ 32
  pub text_size : p.text.size < 2 ^ 32

pub IsFather-ne : (pcb : ℕ → Pcb) (f c : ℕ) → IsFather (pcb f) → is_used (pcb c) ≡ false → f ≢ c
IsFather-ne pcb f c father free e =
    let used : is_used (pcb f) ≡ true = rw father.flag refl in
    let same : is_used (pcb f) ≡ is_used (pcb c) = ap (λ p. is_used (pcb p)) e in cc

-- What `do_fork` of the process `f` makes of the free entry `c`, with its memory at `base`.
pub record Forked (im : Image) (s : Procs) (f c base : ℕ) (m : Mem) (xs : List ℕ) (t : Procs)
    : Type 0 where
  pub queue : IsQueue t.sched (xs ++ (c ∷ []))
  pub bytes :
      (a : ℕ)
      → t.bytes a ≡ (
          if leb base a && ltb a (base + region_size (s.pcb f))
          then s.bytes ((s.pcb f).dat.phys + (a - base))
          else s.bytes a)
  pub mem : t.mem ≡ record m { irq = s.mem.irq }
  pub flags : (t.pcb c).flags ≡ p_in_use
  pub pid : (t.pcb c).pid ≡ (s.pcb c).pid
  pub selector : (t.pcb c).ldt_selector ≡ (s.pcb c).ldt_selector
  pub text : (t.pcb c).text ≡ (s.pcb f).text
  pub files : (t.pcb c).files ≡ (s.pcb f).files
  pub root : (t.pcb c).root ≡ (s.pcb f).root
  pub thread : (t.pcb c).thread ≡ record {
    esp0 = u32 (get_proc_kstack im c + 68);
    eip = im.ret_with_schedule;
    esp = get_proc_kstack im c;
  }
  pub regs :
      (p : ℕ)
      → t.regs p ≡ (
          if p == c
          then record (s.regs f) { eax = 0; cs = 7; ds = 15; es = 15; fs = 15; gs = 15; ss = 15 }
          else s.regs p)
  pub stack :
      (t.pcb c).stack
      ≡ record (s.pcb f).stack { phys = u32 (base + sub32 (s.pcb f).stack.vir (s.pcb f).dat.vir) }
  pub region : (t.pcb c).dat ≡ record (s.pcb f).dat { phys = base }
  pub segments : Segmented (t.pcb c) (t.pcb c) (t.regs c)
  pub others : (p : ℕ) → t.pcb p ≡ (if p == c then t.pcb c else s.pcb p)
  pub sched : Launched s.sched f c xs t.sched
  pub tss_esp0 : t.tss_esp0 ≡ s.tss_esp0

-- The process that calls `do_fork` has exactly the flag for being in use, three descriptors, and a text
-- whose address and size are below 2^32. When an entry of the process table is free, `Kmem_alloc` finds
-- memory below 2^32 and not at 0 that does not overlap the father's, and the entry is neither idle nor
-- in the ready queue, `do_fork` returns the pid of the entry. The child is then the last in the ready
-- queue. It has a copy of the father's memory, his text, files and root, a stack in the copy, and the
-- pid and the selector that the entry had; all the father's registers but for a 0 in eax and the
-- selectors of its code segment, over the text, and of its data segment, over the copy; and a kernel
-- thread that begins at `ret_with_schedule`. No other byte changes, nor `struct proc` or the registers of another process. Of
-- the scheduler's fields, those of the child are the father's but for a whole time slice and its place
-- in the queue, and `do_fork` writes two more: `wake_up_process` marks the father as running, and `next`
-- of the last ready process is the child.
pub do_fork-Forked :
    (im : Image) (s : Procs) (c base : ℕ) (m : Mem) (xs : List ℕ)
    → let f : ℕ = s.sched.current in
      get_free_proc_struct s.pcb ≡ some c
      → kmem_alloc (region_size (s.pcb f)) s.mem ≡ (some base, m)
      → Apart (s.pcb f).dat.phys base (region_size (s.pcb f))
      → 0 < base
      → base < 2 ^ 32
      → IsFather (s.pcb f)
      → IsQueue s.sched xs
      → c ≢ idle_task
      → has c xs ≡ false
      → (t : Procs) × (do_fork im s ≡ ok (some (s.pcb c).pid, t)) × Forked im s f c base m xs t
unfolding do_fork get_free_proc_struct
do_fork-Forked im s c base m xs found memory apart pos wide father q busy out =
    let f : ℕ = s.sched.current in
    let free = (find_free-FirstFree s.pcb 0 nr_task c found).open_ in
    let ne : f ≢ c = IsFather-ne s.pcb f c father free in
    let (t, run, w) =
      wake_up_process-Woken (made im f c base m s).sched xs c
        (made-IsQueue im f c base m s xs q out) busy out in
    let pcb_is : (made im f c base m s).pcb c ≡ (child im f c base s).0 =
      ap (λ x. x.0) (made-child im f c base m s ne) in
    let regs_is : (made im f c base m s).regs c ≡ (child im f c base s).1 =
      ap (λ x. x.1) (made-child im f c base m s ne) in
    let (flags, pid, selector, _, _, region) = child-fields im f c base s father.flag in
    let (text, stack, files, root, thread) = child-pcb im f c base s in
    (
      record (made im f c base m s) { sched = t },
      rw found (fork_into_lem im s t c base m (omega arith) ne memory run),
      record {
        queue = w.queue;
        bytes = λ a. made-bytes im f c base m s a ne apart;
        mem = made-mem im f c base m s;
        flags = rw pcb_is flags;
        pid = rw pcb_is pid;
        selector = rw pcb_is selector;
        text = rw pcb_is text;
        files = rw pcb_is files;
        root = rw pcb_is root;
        thread = rw pcb_is thread;
        regs = λ p. made-regs im f c base m s p ne;
        stack = rw pcb_is stack;
        region = rw pcb_is region;
        segments =
            rw (pcb_is, regs_is)
              (child-segments im f c base s wide father.table father.text_base father.text_size);
        others = made-others im f c base m s;
        sched = made-Launched im c base m s xs t w;
        tss_esp0 = made-tss im f c base m s;
      },
    )
