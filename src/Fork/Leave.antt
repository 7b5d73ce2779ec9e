-- ===== src/Fork/Leave.antt =====
-- What `do_exit` of ker/exit.c does up to `schedule`.
use myos_ia.Prelude.{
  ℕ, true, Bool, ◌≡◌, refl, ap, ◌∙◌, false, List, arith, ◌==◌, ◌&&◌, ◌||◌, if◌then◌else◌,
  Bool-cases, inl, inr, bit_and,
}
use myos_ia.Sched.{State, task_stoped}
use myos_ia.Sched.Chain.{has, IsQueue, erase, update_self, update_cases}
use myos_ia.Sched.Ready.{rotated}
use myos_ia.Sched.Switch.{remaining}
use myos_ia.Sched.Frame.{Scheduled}
use myos_ia.Mem.Holes.{kmem_free}
use myos_ia.Fork.{Pcb, Frame, Procs, leave}

-- `struct proc` after an exit.
abbrev pub left : Pcb → Pcb
left p = record p { flags = bit_and p.flags 0xfffffffe; ldt_selector = 0 }

pub leave-pcb : (s : Procs) → (leave s).pcb s.sched.current ≡ left (s.pcb s.sched.current)
unfolding leave
leave-pcb s = update_self s.pcb s.sched.current (left (s.pcb s.sched.current))

pub leave-others :
    (s : Procs) (p : ℕ)
    → (leave s).pcb p ≡ (if p == s.sched.current then (leave s).pcb s.sched.current else s.pcb p)
unfolding leave
leave-others s p = update_cases s.pcb s.sched.current (left (s.pcb s.sched.current)) p

pub leave-mem : (s : Procs) → (leave s).mem ≡ kmem_free (s.pcb s.sched.current).dat.phys s.mem
unfolding leave
leave-mem s = refl

pub leave-IsQueue : (s : Procs) (xs : List ℕ) → IsQueue s.sched xs → IsQueue (leave s).sched xs
unfolding leave
leave-IsQueue s xs q = record {
  chain = q.chain;
  ends = q.ends;
  distinct = q.distinct;
  no_idle = q.no_idle;
}

pub leave-remaining :
    (s : Procs) (xs : List ℕ)
    → remaining (leave s).sched xs
      ≡ erase s.sched.current (rotated (s.sched.counter s.sched.current) xs)
unfolding leave
leave-remaining s xs = rw (update_self s.sched.status s.sched.current task_stoped) refl

pub leave-same :
    (s : Procs)
    → ((leave s).regs ≡ s.regs) × ((leave s).bytes ≡ s.bytes) × ((leave s).tss_esp0 ≡ s.tss_esp0)
unfolding leave
leave-same s = (refl, refl, refl)

-- What `schedule` does behind `leave`, by the fields before both.
pub leave-Scheduled :
    (s : Procs) (xs : List ℕ) (t : State)
    → Scheduled (leave s).sched xs t
    → let c : ℕ = s.sched.current in
      ((p : ℕ) → t.status p ≡ (if p == c then task_stoped else s.sched.status p))
      × ((p : ℕ)
          → t.counter p ≡ (if (p == c) && (s.sched.counter c == 0) then 10 else s.sched.counter p))
      × ((p : ℕ)
          → t.need_resched p ≡ (if (p == c) || (p == t.current) then 0 else s.sched.need_resched p))
      × ((p : ℕ) → t.next p ≡ (if has p xs then t.next p else s.sched.next p))
unfolding leave
leave-Scheduled s xs t f = (λ p. ap (λ g. g p) f.status, f.counter, f.need_resched, f.next)

pub entry_cases :
    (g h k : ℕ → Pcb) (now c p : ℕ)
    → now ≡ c
    → g p ≡ (if p == now then g now else h p)
    → h p ≡ (if p == c then h c else k p)
    → g p ≡ (if p == c then g c else k p)
entry_cases g h k now c p runs e e' = elim (Bool-cases (p == c)) [
  | inl same ↦ let at : p ≡ c = ground arith in rw same (ap g at)
  | inr other ↦
      let mine : g p ≡ h p = rw (runs, other) at e in
      let old : h p ≡ k p = rw other at e' in rw other (mine ∙ old)
]

pub kept_regs :
    (g h : ℕ → Frame) (old : Frame) (c p : ℕ) (new : Frame)
    → g ≡ h
    → h p ≡ (if p == c then new else old)
    → g p ≡ (if p == c then g c else old)
kept_regs g h old c p new e k = elim (Bool-cases (p == c)) [
  | inl same ↦ let at : p ≡ c = ground arith in rw same (ap g at)
  | inr other ↦ let kept : h p ≡ old = rw other at k in rw other (ap (λ r. r p) e ∙ kept)
]

pub kept_byte :
    (new between old : ℕ) (b : Bool) (copy : ℕ)
    → new ≡ between
    → between ≡ (if b then copy else old)
    → new ≡ (if b then new else old)
kept_byte new between old true copy e k = refl
kept_byte new between old false copy e k = e ∙ k
