-- ===== src/Fork/Boot.antt =====
-- `proc_init` of ker/proc.c, with `proc_thread_init` and the `proc_fd_init` of fs/open.c: the process
-- table at start-up, with the idle task and init. `root` is the root directory of the super block.
use myos_ia.Prelude.{
  ℕ, zero, suc, ◌+◌, ◌*◌, ◌<◌, ◌≡◌, refl, ◌∙◌, Option, none, some, [], ◌∷◌, arith, ◌==◌, ==_iff,
  bit_or, length, length-set, set, u32,
}
use myos_ia.Prelude.Bits.{every, every-at}
use myos_ia.Sched.{Run, ok, ◌>>=◌, update, idle_task, task_running, pick_proc, proc_ready}
use myos_ia.Sched.Chain.{IsQueue}
use myos_ia.Fork.{
  Frame, Pcb, Procs, Image, nr_task, p_in_use, frame_size, get_proc_kstack, get_free_proc_struct,
  alloc_segments,
}
use myos_ia.Fork.Slots.{free_count}
use myos_ia.Fork.Child.{IsFather}

abbrev pub idle_stack : ℕ
idle_stack = 50

abbrev pub init_stack : ℕ
init_stack = 512 * 5

-- `proc_thread_init`
pub proc_thread_init : Image → ℕ → Pcb → Pcb
proc_thread_init im t p =
    let frame : ℕ = get_proc_kstack im t in
    record p {
      thread = record { esp0 = u32 (frame + frame_size); esp = frame; eip = im.ret_with_schedule };
    }

-- `proc_fd_init`
pub proc_fd_init : Option ℕ → Pcb → Pcb
proc_fd_init root p = record p { files = record p.files { openfd = 0; maxopen = 5 }; root = root }

-- The first loop of `proc_init`, from the entry `t` on, for `n` entries.
clear : (ℕ → Pcb) → ℕ → ℕ → ℕ → Pcb
clear pcb t zero = pcb
clear pcb t (suc n) = clear (update pcb t (record (pcb t) { pid = t; flags = 0 })) (t + 1) n

-- The memory map of a task of the kernel image: its stack lies at `base`, and its data segment
-- reaches from address 0 to the end of the stack.
task_maps : ℕ → ℕ → Pcb → Pcb
task_maps base size p = record p {
  text = record { phys = 0; vir = 0; size = 0x20000 };
  dat = record { phys = 0; vir = 0; size = u32 (base + size) };
  stack = record { phys = 0; vir = base; size = size };
}

-- A round of the second loop of `proc_init`, before `proc_ready`.
set_task : Image → Option ℕ → ℕ → ℕ → ℕ → ℕ → Procs → Procs
unfolding proc_thread_init proc_fd_init task_maps
set_task im root t eip size base s =
    let p : Pcb = task_maps base size (proc_fd_init root (proc_thread_init im t (s.pcb t))) in
    let frame : Frame = record (s.regs t) { eip = eip; esp = u32 (base + size); psw = 0x200 } in
    let (q, r) = alloc_segments (record p { pid = t; flags = bit_or p.flags p_in_use }) frame in
    record s {
      pcb = update s.pcb t q;
      regs = update s.regs t r;
      sched = record s.sched {
        counter = update s.sched.counter t 10;
        need_resched = update s.sched.need_resched t 0;
        status = update s.sched.status t task_running;
      };
    }

add_task : Image → Option ℕ → ℕ → ℕ → ℕ → ℕ → Procs → Run Procs
unfolding set_task
add_task im root t eip size base s = do
  let u = set_task im root t eip size base s
  queued ← proc_ready (some t) u.sched
  ok (record u { sched = queued })

-- `proc_init`
pub proc_init : Image → Option ℕ → Procs → Run Procs
unfolding clear add_task
proc_init im root s = do
  let cleared : Procs = record s {
    sched = record s.sched { ready_head = none; ready_tail = none };
    pcb = clear s.pcb 0 nr_task;
  }
  one ← add_task im root 0 im.idle_task idle_stack im.userstack cleared
  two ← add_task im root 1 im.init_task init_stack (u32 (im.userstack + idle_stack)) one
  ok (record two {
    sched = record two.sched {
      current = idle_task;
      need_resched = update two.sched.need_resched idle_task 1;
    };
    tss_esp0 = (two.pcb idle_task).thread.esp0;
  })

-- The process table that the kernel starts with.
pub record Booted (im : Image) (t : Procs) : Type 0 where
  pub queue : IsQueue t.sched (1 ∷ [])
  pub current : t.sched.current ≡ idle_task
  pub gives_way : t.sched.need_resched idle_task ≡ 1
  pub next : pick_proc t.sched ≡ 1
  pub first_free : get_free_proc_struct t.pcb ≡ some 2
  pub free : free_count t.pcb 0 nr_task ≡ 8
  pub pids : (p : ℕ) → p < nr_task → (t.pcb p).pid ≡ p
  pub entry : (t.regs 1).eip ≡ im.init_task
  pub stacks : (t.pcb 1).stack.vir ≡ u32 ((t.pcb 0).stack.vir + (t.pcb 0).stack.size)
  pub fork : IsFather (t.pcb 1)
  pub kernel_stack : t.tss_esp0 ≡ (t.pcb 0).thread.esp0

cleared : Procs → Procs
cleared s = record s {
  sched = record s.sched { ready_head = none; ready_tail = none };
  pcb = clear s.pcb 0 nr_task;
}

with_tasks : Image → Option ℕ → Procs → Procs
with_tasks im root s =
    set_task im root 1 im.init_task init_stack (u32 (im.userstack + idle_stack))
      (set_task im root 0 im.idle_task idle_stack im.userstack (cleared s))

booted : Image → Option ℕ → Procs → Procs
booted im root s =
    let t : Procs = with_tasks im root s in
    record t {
      sched = record t.sched {
        ready_head = some 1;
        ready_tail = some 1;
        next = update t.sched.next 1 none;
        current = idle_task;
        need_resched = update t.sched.need_resched idle_task 1;
      };
      tss_esp0 = (t.pcb idle_task).thread.esp0;
    }

proc_init_lem :
    (im : Image) (root : Option ℕ) (s : Procs) → proc_init im root s ≡ ok (booted im root s)
unfolding proc_init proc_ready booted with_tasks cleared
proc_init_lem im root s = refl

-- `proc_init` leaves init alone in the ready queue and the idle task as the current process, which
-- gives way to init at once; the other eight entries are free, each entry has its index as pid, the
-- stacks of the two tasks follow each other, and init may fork.
pub proc_init-Booted :
    (im : Image) (root : Option ℕ) (s : Procs)
    → ((p : ℕ) → length (s.pcb p).ldt ≡ 3)
    → (t : Procs) × (proc_init im root s ≡ ok t) × Booted im t
unfolding booted with_tasks cleared set_task clear alloc_segments get_free_proc_struct pick_proc
    every
proc_init-Booted im root s len = (
  booted im root s,
  proc_init_lem im root s,
  record {
    queue = record { chain = (refl, refl); ends = refl; distinct = (refl, tt); no_idle = refl };
    current = refl;
    gives_way = refl;
    next = refl;
    first_free = refl;
    free = refl;
    pids = λ p h.
        (==_iff ((booted im root s).pcb p).pid p).0
          (every-at (λ p. ((booted im root s).pcb p).pid == p) nr_task refl p h);
    entry = refl;
    stacks = refl;
    fork = record {
      flag = refl;
      table = length-set (set (s.pcb 1).ldt 0 _) 1 _ ∙ length-set (s.pcb 1).ldt 0 _ ∙ len 1;
      text_base = omega arith;
      text_size = omega arith;
    };
    kernel_stack = refl;
  },
)
