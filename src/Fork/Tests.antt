-- ===== src/Fork/Tests.antt =====
-- A family of two processes on a machine with 1 MB of extended memory: fork and exit there.
use myos_ia.Prelude.{
  ℕ, ◌+◌, ◌-◌, ◌*◌, ◌≡◌, refl, true, none, some, Option, [], ◌∷◌, arith, ltb, ◌==◌, if◌then◌else◌,
  replicate, length, leb, ◌&&◌,
}
use myos_ia.Sched.{State, Run, ok, schedule}
use myos_ia.Sched.Chain.{IsQueue}
use myos_ia.Mem.Holes.{Hole, Mem, busy, free, kmem_alloc, kmem_free}
use myos_ia.Mem.Holes.Valid.{IsValid}
use myos_ia.Protect.{zero_seg}
use myos_ia.Fork.{
  Frame, Pcb, Procs, Image, nr_task, find_free, get_free_proc_struct, region_size, leave, do_fork,
  do_exit,
}
use myos_ia.Fork.Copy.{Apart}
use myos_ia.Fork.Slots.{free_count}
use myos_ia.Fork.Child.{IsFather, Forked, do_fork-Forked}
use myos_ia.Fork.Failure.{IsShort, forks, forks-exhaust}
use myos_ia.Fork.Exit.{Exited, do_exit-Exited, do_exit-do_fork, do_fork-do_exit}
use myos_ia.Fork.Boot.{Booted, proc_init, proc_init-Booted}

abbrev image : Image
image = record {
  proc_table = 0x20000;
  userstack = 0x18000;
  ret_with_schedule = 0x1000;
  idle_task = 0x2000;
  init_task = 0x3000;
}

abbrev frame : Frame
frame = record {
  gs = 0;
  fs = 0;
  es = 0;
  ds = 0;
  ebp = 0;
  edi = 0;
  esi = 0;
  edx = 0;
  ecx = 0;
  ebx = 0;
  eax = 7;
  retaddr = 0;
  eip = 0x3100;
  cs = 0;
  psw = 0x200;
  esp = 100;
  ss = 0;
}

abbrev pcb : ℕ → ℕ → ℕ → Pcb
pcb pid flags phys = record {
  ldt_selector = 8 * (6 + pid);
  ldt = replicate 3 zero_seg;
  thread = record { esp0 = 0; eip = 0; esp = 0 };
  pid = pid;
  flags = flags;
  text = record { vir = 0; phys = 0; size = 0x20000 };
  dat = record { vir = 0; phys = phys; size = 100 };
  stack = record { vir = 90; phys = phys + 90; size = 10 };
  files = record { openfd = 0; maxopen = 5; fd_array = λ n. none };
  root = some 0;
}

abbrev hole : Hole
hole = record { slot = 0; base = 0x100000; size = 0x100000; status = free }

abbrev open_mem : Mem
open_mem = record { holes = hole ∷ []; slots = 1 ∷ 2 ∷ []; irq = true }

abbrev taken_mem : Mem
taken_mem = record {
  holes =
      record hole { size = 100; status = busy }
      ∷ record { slot = 1; base = 0x100000 + 100; size = 0x100000 - 100; status = free }
      ∷ [];
  slots = 2 ∷ [];
  irq = true;
}

abbrev full_mem : Mem
full_mem = record { holes = record hole { status = busy } ∷ []; slots = 1 ∷ []; irq = true }

-- The process 1 runs, and those before `n` are in use.
abbrev family : ℕ → Mem → Procs
family n mem = record {
  sched = record {
    current = 1;
    ready_head = some 1;
    ready_tail = some 1;
    next = λ p. none;
    status = λ p. 1;
    counter = λ p. 10;
    need_resched = λ p. 0;
  };
  pcb = λ p. if ltb p n then pcb p 1 (if p == 2 then 0x100000 else 0) else pcb p 0 0;
  regs = λ p. frame;
  mem = mem;
  bytes = λ a. a;
  tss_esp0 = 0;
}

entry_2 : get_free_proc_struct (family 2 open_mem).pcb ≡ some 2
unfolding get_free_proc_struct find_free
entry_2 = refl

takes_100 : kmem_alloc 100 open_mem ≡ (some 0x100000, taken_mem)
unfolding kmem_alloc
takes_100 = refl

family-IsQueue : (n : ℕ) (mem : Mem) → IsQueue (family n mem).sched (1 ∷ [])
family-IsQueue n mem = ground arith

init-IsFather : IsFather (pcb 1 1 0)
init-IsFather = record {
  flag = refl;
  table = refl;
  text_base = omega arith;
  text_size = omega arith;
}

do_fork-Forked_example :
    (t : Procs) × (do_fork image (family 2 open_mem) ≡ ok (some 2, t))
    × Forked image (family 2 open_mem) 1 2 0x100000 taken_mem (1 ∷ []) t
do_fork-Forked_example =
    do_fork-Forked image (family 2 open_mem) 2 0x100000 taken_mem (1 ∷ []) entry_2 takes_100
      (omega arith) (omega arith) (omega arith) init-IsFather (family-IsQueue 2 open_mem)
      (omega arith) refl

none_left : kmem_alloc 100 full_mem ≡ (none, full_mem)
unfolding kmem_alloc
none_left = refl

refuses_100 : IsShort 100 full_mem full_mem
refuses_100 = record { refuses = none_left; same = refl }

free_8 : free_count (family 2 full_mem).pcb 0 nr_task ≡ 8
free_8 = refl

forks-exhaust_example :
    (t : Procs) × (forks image 8 (family 2 full_mem) ≡ ok t)
    × ((freed : Mem)
        → do_fork image (record t { mem = freed }) ≡ ok (none, record t { mem = freed }))
forks-exhaust_example =
    forks-exhaust image 8 (family 2 full_mem) full_mem free_8 init-IsFather refuses_100

-- The child with the pid 2 runs, and init is ready behind it.
abbrev child_sched : State
child_sched = record (family 3 taken_mem).sched {
  current = 2;
  ready_head = some 2;
  ready_tail = some 1;
  next = λ p. if p == 2 then some 1 else none;
}

child_sched-IsQueue : IsQueue child_sched (2 ∷ 1 ∷ [])
child_sched-IsQueue = ground arith

abbrev child_runs : Procs
child_runs = record (family 3 taken_mem) { sched = child_sched }

do_exit-Exited_example :
    (t : Procs) × (do_exit 3 child_runs ≡ ok (some t)) × Exited child_runs 2 (2 ∷ 1 ∷ []) t
do_exit-Exited_example =
    do_exit-Exited 3 child_runs 2 (1 ∷ []) (omega arith) refl child_sched-IsQueue (omega arith)

open_mem-IsValid : IsValid 0x100000 0x200000 open_mem
open_mem-IsValid = ground arith

forked_2 :
    (t : Procs) × (do_fork image (family 2 open_mem) ≡ ok (some 2, t))
    × Forked image (family 2 open_mem) 1 2 0x100000 taken_mem (1 ∷ []) t
forked_2 =
    do_fork-Forked image (family 2 open_mem) 2 0x100000 taken_mem (1 ∷ []) entry_2 takes_100
      (omega arith) (omega arith) (omega arith) init-IsFather (family-IsQueue 2 open_mem)
      (omega arith) refl

do_exit-do_fork_example :
    (v : Procs) × (do_exit 3 (record forked_2.0 { sched = child_sched }) ≡ ok (some v))
    × (v.mem ≡ open_mem)
    × ((p : ℕ) → v.pcb p ≡ (if p == 2 then v.pcb 2 else (family 2 open_mem).pcb p))
    × ((p : ℕ) → v.regs p ≡ (if p == 2 then v.regs 2 else frame))
    × ((a : ℕ) → v.bytes a ≡ (if leb 0x100000 a && ltb a (0x100000 + 100) then v.bytes a else a))
do_exit-do_fork_example =
    do_exit-do_fork 3 0x100000 0x200000 image (family 2 open_mem) forked_2.0 2 0x100000 taken_mem
      (1 ∷ []) child_sched 2 (1 ∷ []) open_mem-IsValid entry_2 takes_100 (omega arith) (omega arith)
      (omega arith) init-IsFather (family-IsQueue 2 open_mem) (omega arith) refl forked_2.1 refl
      child_sched-IsQueue (omega arith) (omega arith)

pcb_table : (p : ℕ) → length ((family 0 open_mem).pcb p).ldt ≡ 3
pcb_table p = ground arith

-- The state that the exit of the child leaves.
abbrev outcome : Run (Option Procs) → Procs
outcome (ok (some v)) = v
outcome _ = child_runs

abbrev after : Procs
after = outcome (do_exit 3 child_runs)

after_exit : do_exit 3 child_runs ≡ ok (some after)
unfolding do_exit leave schedule
after_exit = refl

entry_again : get_free_proc_struct after.pcb ≡ some 2
unfolding do_exit leave schedule get_free_proc_struct find_free
entry_again = refl

takes_again :
    kmem_alloc (region_size (after.pcb after.sched.current)) after.mem ≡ (some 0x100000, taken_mem)
unfolding do_exit leave schedule kmem_free kmem_alloc
takes_again = refl

after-IsQueue : IsQueue after.sched (1 ∷ [])
unfolding do_exit leave schedule
after-IsQueue = ground arith

after-IsFather : IsFather (after.pcb after.sched.current)
unfolding do_exit leave schedule
after-IsFather = init-IsFather

after-Apart :
    Apart
      (after.pcb after.sched.current).dat.phys
      0x100000
      (region_size (after.pcb after.sched.current))
unfolding do_exit leave schedule
after-Apart = omega arith

do_fork-do_exit_example :
    (t : Procs) × (do_fork image after ≡ ok (some (after.pcb 2).pid, t))
    × ((t.pcb 2).ldt_selector ≡ 0)
do_fork-do_exit_example =
    do_fork-do_exit 3 image child_runs after 2 (1 ∷ []) 0x100000 taken_mem (1 ∷ []) (omega arith)
      refl child_sched-IsQueue (omega arith) after_exit entry_again takes_again after-Apart
      (omega arith) (omega arith) after-IsFather after-IsQueue (omega arith) refl

proc_init-Booted_example :
    (t : Procs) × (proc_init image (some 0) (family 0 open_mem) ≡ ok t) × Booted image t
proc_init-Booted_example = proc_init-Booted image (some 0) (family 0 open_mem) pcb_table
