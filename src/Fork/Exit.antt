-- ===== src/Fork/Exit.antt =====
-- `do_exit` of ker/exit.c, and what it does with the entry and the memory that `do_fork` gave.
use myos_ia.Prelude.{
  ℕ, ◌+◌, ltb, ◌<◌, ◌^◌, ◌≡◌, ◌≢◌, refl, sym, ap, ◌∙◌, false, some, List, ◌∷◌, arith, ◌==◌, leb,
  ◌&&◌, ◌||◌, if◌then◌else◌, length,
}
use myos_ia.Sched.{State, ok, idle_task, task_stoped}
use myos_ia.Sched.Chain.{has, IsQueue, erase}
use myos_ia.Sched.Ready.{rotated}
use myos_ia.Sched.Switch.{head_or}
use myos_ia.Sched.Frame.{schedule-Scheduled}
use myos_ia.Mem.Holes.{Mem, kmem_alloc, kmem_free}
use myos_ia.Mem.Holes.Valid.{IsValid}
use myos_ia.Mem.Holes.Alloc.{kmem_alloc-Allocated}
use myos_ia.Mem.Holes.Cycle.{kmem_free-kmem_alloc}
use myos_ia.Fork.{
  Procs, Image, is_used, p_in_use, get_free_proc_struct, region_size, do_fork, leave, do_exit,
}
use myos_ia.Fork.Copy.{Apart}
use myos_ia.Fork.Child.{IsFather, Forked, do_fork-Forked}
use myos_ia.Fork.Leave.{
  leave-pcb, leave-others, leave-mem, leave-IsQueue, leave-remaining, leave-same, leave-Scheduled,
  entry_cases, kept_regs, kept_byte,
}

-- What the exit of the process `c` leaves.
pub record Exited (s : Procs) (c : ℕ) (xs : List ℕ) (t : Procs) : Type 0 where
  pub queue : IsQueue t.sched (erase c (rotated (s.sched.counter c) xs))
  pub current : t.sched.current ≡ head_or idle_task (erase c (rotated (s.sched.counter c) xs))
  pub free : is_used (t.pcb c) ≡ false
  pub selector : (t.pcb c).ldt_selector ≡ 0
  pub mem : t.mem ≡ kmem_free (s.pcb c).dat.phys s.mem
  pub others : (p : ℕ) → t.pcb p ≡ (if p == c then t.pcb c else s.pcb p)
  pub regs : t.regs ≡ s.regs
  pub bytes : t.bytes ≡ s.bytes
  pub tss_esp0 : t.tss_esp0 ≡ s.tss_esp0
  pub status : (p : ℕ) → t.sched.status p ≡ (if p == c then task_stoped else s.sched.status p)
  pub counter :
      (p : ℕ)
      → t.sched.counter p ≡ (if (p == c) && (s.sched.counter c == 0) then 10 else s.sched.counter p)
  pub need_resched :
      (p : ℕ)
      → t.sched.need_resched p
        ≡ (if (p == c) || (p == t.sched.current) then 0 else s.sched.need_resched p)
  pub next : (p : ℕ) → t.sched.next p ≡ (if has p xs then t.sched.next p else s.sched.next p)

-- A process in use with a pid above 1 leaves with `do_exit`, on a ready queue that is not empty and with a
-- round of fuel for each process behind its first: its entry is free, its memory is given back, it is
-- off the ready queue, which is rotated first if its time slice is used up, and the next process or
-- idle runs. Its selector is 0 from then on and its status says that it is stopped. The entry, the
-- registers and the status of every other process, and the bytes of the memory, are as they were; the
-- scheduler writes no `counter` but that of the leaving process, no `need_resched` but that of it and
-- of the next one, and no `next` but in the processes that were ready.
pub do_exit-Exited :
    (fuel : ℕ) (s : Procs) (x : ℕ) (xs : List ℕ)
    → 1 < (s.pcb s.sched.current).pid
    → (s.pcb s.sched.current).flags ≡ p_in_use
    → IsQueue s.sched (x ∷ xs)
    → length xs < fuel
    → (t : Procs) × (do_exit fuel s ≡ ok (some t)) × Exited s s.sched.current (x ∷ xs) t
unfolding do_exit
do_exit-Exited fuel s x xs user flag q f =
    let c : ℕ = s.sched.current in
    let (t, run, queue, now, frame) =
      schedule-Scheduled fuel (leave s).sched x xs (leave-IsQueue s (x ∷ xs) q) f in
    let rest = leave-remaining s (x ∷ xs) in
    let goes_on : leb (s.pcb c).pid 1 ≡ false = ground arith in
    let pcb = leave-pcb s in
    let (regs, bytes, tss) = leave-same s in
    let (status, counter, need_resched, next) = leave-Scheduled s (x ∷ xs) t frame in
    (
      record (leave s) { sched = t },
      rw (goes_on, run) refl,
      record {
        queue = rw (← rest) queue;
        current = rw (← rest) now;
        free = rw (pcb, flag) refl;
        selector = rw pcb refl;
        mem = leave-mem s;
        others = leave-others s;
        regs = regs;
        bytes = bytes;
        tss_esp0 = tss;
        status = status;
        counter = counter;
        need_resched = need_resched;
        next = next;
      },
    )

-- Where `do_fork` goes through, from a state whose hole list keeps its invariant and under the same
-- conditions, and its child runs with the memory as `do_fork` left it, whatever state the scheduler is
-- in by then, the child's `do_exit` gives back what `do_fork` took: the holes are those from before
-- `do_fork`, and so are `struct proc` and the registers of every process but the child, and every byte
-- of the memory outside the child's region. The ready queue may not be empty by then, with a round of
-- fuel for each process behind its first, and the child's pid is above 1.
pub do_exit-do_fork :
    (fuel lo hi : ℕ) (im : Image) (s t : Procs) (c base : ℕ) (m : Mem) (xs : List ℕ) (now : State)
    (y : ℕ) (ys : List ℕ)
    → let f : ℕ = s.sched.current in
      let size : ℕ = region_size (s.pcb f) in
      IsValid lo hi s.mem
      → get_free_proc_struct s.pcb ≡ some c
      → kmem_alloc size s.mem ≡ (some base, m)
      → Apart (s.pcb f).dat.phys base size
      → 0 < base
      → base < 2 ^ 32
      → IsFather (s.pcb f)
      → IsQueue s.sched xs
      → c ≢ idle_task
      → has c xs ≡ false
      → do_fork im s ≡ ok (some (s.pcb c).pid, t)
      → now.current ≡ c
      → IsQueue now (y ∷ ys)
      → length ys < fuel
      → 1 < (s.pcb c).pid
      → (v : Procs) × (do_exit fuel (record t { sched = now }) ≡ ok (some v))
        × (v.mem ≡ s.mem)
        × ((p : ℕ) → v.pcb p ≡ (if p == c then v.pcb c else s.pcb p))
        × ((p : ℕ) → v.regs p ≡ (if p == c then v.regs c else s.regs p))
        × ((a : ℕ)
            → v.bytes a ≡ (if leb base a && ltb a (base + size) then v.bytes a else s.bytes a))
do_exit-do_fork fuel lo hi im s t c base m xs now y ys valid found memory apart pos wide father
      ready busy out forks runs q enough user =
    let f : ℕ = s.sched.current in
    let (t', fork_run, forked') =
      do_fork-Forked im s c base m xs found memory apart pos wide father ready busy out in
    let same : t' ≡ t = cc in
    let forked : Forked im s f c base m xs t = rw same at forked' in
    let u : Procs = record t { sched = now } in
    let pid : 1 < (t.pcb now.current).pid = rw (runs, forked.pid) user in
    let (v, run, exited) = do_exit-Exited fuel u y ys pid (rw runs forked.flags) q enough in
    let taken = kmem_alloc-Allocated lo hi (region_size (s.pcb f)) s.mem base m valid memory in
    let held : t.mem ≡ m = forked.mem ∙ ap (λ b. record m { irq = b }) (sym taken.same_irq) in
    let at_base : (t.pcb now.current).dat.phys ≡ base =
      ap (λ p. (t.pcb p).dat.phys) runs ∙ ap (λ d. d.phys) forked.region in
    (
      v,
      run,
      exited.mem
          ∙ (λ i. kmem_free (at_base i) (held i))
          ∙ kmem_free-kmem_alloc lo hi (region_size (s.pcb f)) base s.mem m valid memory,
      λ p. entry_cases v.pcb t.pcb s.pcb now.current c p runs (exited.others p) (forked.others p),
      λ p. kept_regs v.regs t.regs (s.regs p) c p _ exited.regs (forked.regs p),
      λ a.
          kept_byte (v.bytes a) (t.bytes a) (s.bytes a)
            (leb base a && ltb a (base + region_size (s.pcb f))) _ (ap (λ b. b a) exited.bytes)
            (forked.bytes a),
    )

-- The entry of a process that has left is given to a child again with the selector 0: when `do_fork`
-- chooses the entry of the process whose exit came before, the child has no descriptor table.
pub do_fork-do_exit :
    (fuel : ℕ) (im : Image) (s v : Procs) (x : ℕ) (xs : List ℕ) (base : ℕ) (m : Mem) (ys : List ℕ)
    → let c : ℕ = s.sched.current in
      let f : ℕ = v.sched.current in
      1 < (s.pcb c).pid
      → (s.pcb c).flags ≡ p_in_use
      → IsQueue s.sched (x ∷ xs)
      → length xs < fuel
      → do_exit fuel s ≡ ok (some v)
      → get_free_proc_struct v.pcb ≡ some c
      → kmem_alloc (region_size (v.pcb f)) v.mem ≡ (some base, m)
      → Apart (v.pcb f).dat.phys base (region_size (v.pcb f))
      → 0 < base
      → base < 2 ^ 32
      → IsFather (v.pcb f)
      → IsQueue v.sched ys
      → c ≢ idle_task
      → has c ys ≡ false
      → (t : Procs) × (do_fork im v ≡ ok (some (v.pcb c).pid, t)) × ((t.pcb c).ldt_selector ≡ 0)
do_fork-do_exit fuel im s v x xs base m ys user flag q enough gone found memory apart pos wide
      father q' busy out =
    let c : ℕ = s.sched.current in
    let (w, run, exited) = do_exit-Exited fuel s x xs user flag q enough in
    let same : w ≡ v = cc in
    let (t, fork_run, forked) =
      do_fork-Forked im v c base m ys found memory apart pos wide father q' busy out in
    (t, fork_run, forked.selector ∙ ap (λ u. (u.pcb c).ldt_selector) (sym same) ∙ exited.selector)
