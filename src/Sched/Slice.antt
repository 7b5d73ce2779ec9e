-- ===== src/Sched/Slice.antt =====
-- The time slice: `bill_process_time` of ker/proc.c at successive clock interrupts.
use myos_ia.Prelude.{ℕ, zero, suc, ◌≡◌, ◌≢◌, refl, arith}
use myos_ia.Sched.{State, idle_task, bill_process_time}

-- `n` clock interrupts with no `schedule` between them.
abbrev pub ticks : ℕ → State → State
ticks zero s = s
ticks (suc n) s = ticks n (bill_process_time s)

bill_lem :
    (n : ℕ) (s : State)
    → s.current ≢ idle_task
    → s.counter s.current ≡ suc n
    → ((bill_process_time s).current ≡ s.current)
      × ((bill_process_time s).counter s.current ≡ n)
      × ((bill_process_time s).need_resched s.current ≡ s.need_resched s.current)
unfolding bill_process_time
bill_lem n s ne e = (ground arith, ground arith, ground arith)

expire_lem :
    (s : State)
    → s.current ≢ idle_task
    → s.counter s.current ≡ 0
    → (bill_process_time s).need_resched s.current ≡ 1
unfolding bill_process_time
expire_lem s ne e = ground arith

-- A process with `n` ticks left is not asked to give way by the next `n` clock interrupts, which use
-- its time up, and is asked to by the one after them.
pub ticks-expire :
    (n : ℕ) (s : State)
    → s.current ≢ idle_task
    → s.counter s.current ≡ n
    → ((ticks n s).need_resched s.current ≡ s.need_resched s.current)
      × ((ticks n s).counter s.current ≡ 0)
      × ((bill_process_time (ticks n s)).need_resched s.current ≡ 1)
ticks-expire zero s ne e = (refl, e, expire_lem s ne e)
ticks-expire (suc n) s ne e = ground (arith, bill_lem n s, ticks-expire n (bill_process_time s))

-- The idle task is asked to give way by every clock interrupt.
pub bill_process_time-idle :
    (s : State) → s.current ≡ idle_task → (bill_process_time s).need_resched idle_task ≡ 1
unfolding bill_process_time
bill_process_time-idle s e = ground arith
