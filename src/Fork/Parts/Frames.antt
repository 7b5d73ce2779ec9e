-- ===== src/Fork/Parts/Frames.antt =====
-- What `do_fork` of ker/fork.c writes in the entry of the child, and in the scheduler's fields.
use mathlib.Core.Path.{subst}
use myos_ia.Prelude.{
  ℕ, ◌+◌, ◌≡◌, ◌≢◌, refl, ap, ◌∙◌, false, none, some, List, arith, ◌==◌, if◌then◌else◌, Bool-cases,
  inl, inr, u32, sub32,
}
use myos_ia.Sched.{State, update, task_running}
use myos_ia.Sched.Woken.{is_last, Woken}
use myos_ia.Mem.Holes.{Mem}
use myos_ia.Protect.{seg_selector}
use myos_ia.Fork.{Pcb, Procs, Image, clone, clone_pcb, start, alloc_segments, get_proc_kstack}
use myos_ia.Fork.Parts.{copied, made, made-child, child}

-- What `do_fork` up to `wake_up_process` does to the fields that the scheduler has.
made-sched :
    (im : Image) (f c base : ℕ) (m : Mem) (s : Procs)
    → (made im f c base m s).sched ≡ record s.sched {
      next = update s.sched.next c (s.sched.next f);
      status = update s.sched.status c (s.sched.status f);
      counter = update (update s.sched.counter c (s.sched.counter f)) c 10;
      need_resched = update s.sched.need_resched c (s.sched.need_resched f);
    }
unfolding made start copied clone
made-sched im f c base m s = refl

pub made-tss :
    (im : Image) (f c base : ℕ) (m : Mem) (s : Procs) → (made im f c base m s).tss_esp0 ≡ s.tss_esp0
unfolding made start copied clone
made-tss im f c base m s = refl

made-other_regs :
    (im : Image) (f c base : ℕ) (m : Mem) (s : Procs) (p : ℕ)
    → (p == c) ≡ false
    → (made im f c base m s).regs p ≡ s.regs p
unfolding made start copied clone
made-other_regs im f c base m s p other = rw other refl

-- The child's registers, and its parts of `struct proc` that the father and the entry give.
child-regs :
    (im : Image) (f c base : ℕ) (s : Procs)
    → (child im f c base s).1
      ≡ record (s.regs f) { eax = 0; cs = 7; ds = 15; es = 15; fs = 15; gs = 15; ss = 15 }
unfolding child alloc_segments seg_selector
child-regs im f c base s = refl

pub child-pcb :
    (im : Image) (f c base : ℕ) (s : Procs)
    → let p : Pcb = (child im f c base s).0 in
      (p.text ≡ (s.pcb f).text)
      × (p.stack ≡ record (s.pcb f).stack {
        phys = u32 (base + sub32 (s.pcb f).stack.vir (s.pcb f).dat.vir);
      })
      × (p.files ≡ (s.pcb f).files)
      × (p.root ≡ (s.pcb f).root)
      × (p.thread ≡ record {
        esp0 = u32 (get_proc_kstack im c + 68);
        eip = im.ret_with_schedule;
        esp = get_proc_kstack im c;
      })
unfolding child alloc_segments clone_pcb
child-pcb im f c base s = (refl, refl, refl, refl, refl)

-- The registers of all processes once the child is made.
pub made-regs :
    (im : Image) (f c base : ℕ) (m : Mem) (s : Procs) (p : ℕ)
    → f ≢ c
    → (made im f c base m s).regs p ≡ (
        if p == c
        then record (s.regs f) { eax = 0; cs = 7; ds = 15; es = 15; fs = 15; gs = 15; ss = 15 }
        else s.regs p)
made-regs im f c base m s p ne = elim (Bool-cases (p == c)) [
  | inl same ↦
      let at : p ≡ c = ground arith in
      rw same (
        ap (made im f c base m s).regs at
        ∙ ap (λ x. x.1) (made-child im f c base m s ne)
        ∙ child-regs im f c base s)
  | inr other ↦ let old = made-other_regs im f c base m s p other in rw other old
]

-- The scheduler's fields after the child `c` of `f` is woken up, with `xs` ready before.
pub record Launched (s : State) (f c : ℕ) (xs : List ℕ) (t : State) : Type 0 where
  pub current : t.current ≡ s.current
  pub status :
      (p : ℕ)
      → t.status p ≡ (if p == f then task_running else if p == c then s.status f else s.status p)
  pub counter : (p : ℕ) → t.counter p ≡ (if p == c then 10 else s.counter p)
  pub need_resched :
      (p : ℕ) → t.need_resched p ≡ (if p == c then s.need_resched f else s.need_resched p)
  pub next :
      (p : ℕ) → t.next p ≡ (if p == c then none else if is_last p xs then some c else s.next p)

-- The state of the scheduler in which `do_fork` wakes the child up.
abbrev cloned : State → ℕ → State
cloned s c = record s {
  next = update s.next c (s.next s.current);
  status = update s.status c (s.status s.current);
  counter = update (update s.counter c (s.counter s.current)) c 10;
  need_resched = update s.need_resched c (s.need_resched s.current);
}

Woken-Launched :
    (s t : State) (c : ℕ) (xs : List ℕ) → Woken (cloned s c) xs c t → Launched s s.current c xs t
Woken-Launched s t c xs w = record {
  current = w.current;
  status = w.status;
  counter = λ p. ap (λ g. g p) w.counter ∙ ground arith;
  need_resched = λ p. ap (λ g. g p) w.need_resched;
  next = λ p. w.next p ∙ ground arith;
}

pub made-Launched :
    (im : Image) (c base : ℕ) (m : Mem) (s : Procs) (xs : List ℕ) (t : State)
    → let f : ℕ = s.sched.current in
      Woken (made im f c base m s).sched xs c t → Launched s.sched f c xs t
made-Launched im c base m s xs t w =
    let f : ℕ = s.sched.current in
    Woken-Launched s.sched t c xs (subst (λ r. Woken r xs c t) (made-sched im f c base m s) w)
