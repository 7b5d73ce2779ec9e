-- ===== src/Fork.antt =====
-- ker/fork.c, ker/exit.c, the process table of ker/proc.c and `alloc_segments` of ker/protect.c. A
-- process is its index in `proc_table`; what the scheduler needs of it is in `sched`, the rest of
-- `struct proc` in `pcb`, and the register frame at the top of its kernel stack in `regs`. `bytes` is
-- the memory of the user processes. The addresses of the kernel's symbols are in `Image`.
pub mod Segments
pub mod Copy
pub mod Slots
pub mod Parts
pub mod Child
pub mod Failure
pub mod Leave
pub mod Exit
pub mod Boot
mod Tests
use myos_ia.Prelude.{
  ℕ, zero, suc, ◌+◌, ◌-◌, ◌*◌, Bool, true, false, not, Option, none, some, List, [], ◌∷◌, bit_and,
  bit_or, leb, ◌==◌, if◌then◌else◌, get_or, set, u32, sub32,
}
use myos_ia.Sched.{
  State, Run, ok, ◌>>=◌, update, idle_task, task_running, task_stoped, proc_ready, schedule,
  wake_up_process,
}
use myos_ia.Mem.Holes.{Mem, kmem_alloc, kmem_free}
use myos_ia.Proc.{MemMap}
use myos_ia.Protect.{SegDesc, zero_seg, user_priv, init_codeseg, init_dataseg, seg_selector}
use myos_ia.Fs.Open.{FileStruct}

-- `struct stackframe`
pub record Frame : Type 0 where
  pub gs : ℕ
  pub fs : ℕ
  pub es : ℕ
  pub ds : ℕ
  pub ebp : ℕ
  pub edi : ℕ
  pub esi : ℕ
  pub edx : ℕ
  pub ecx : ℕ
  pub ebx : ℕ
  pub eax : ℕ
  pub retaddr : ℕ
  pub eip : ℕ
  pub cs : ℕ
  pub psw : ℕ
  pub esp : ℕ
  pub ss : ℕ

pub record Thread : Type 0 where
  pub esp0 : ℕ
  pub eip : ℕ
  pub esp : ℕ

-- `struct proc`, less the fields that the scheduler has. The root directory is an inode's index.
pub record Pcb : Type 0 where
  pub ldt_selector : ℕ
  pub ldt : List SegDesc
  pub thread : Thread
  pub pid : ℕ
  pub flags : ℕ
  pub text : MemMap
  pub dat : MemMap
  pub stack : MemMap
  pub files : FileStruct
  pub root : Option ℕ

pub record Procs : Type 0 where
  pub sched : State
  pub pcb : ℕ → Pcb
  pub regs : ℕ → Frame
  pub mem : Mem
  pub bytes : ℕ → ℕ
  pub tss_esp0 : ℕ

pub record Image : Type 0 where
  pub proc_table : ℕ
  pub userstack : ℕ
  pub ret_with_schedule : ℕ
  pub idle_task : ℕ
  pub init_task : ℕ

abbrev pub nr_task : ℕ
nr_task = 10

abbrev pub p_in_use : ℕ
p_in_use = 1

-- 17 registers of four bytes, and `FREE_STACK_SIZE`.
abbrev pub frame_size : ℕ
frame_size = 68

abbrev pub kernel_thread_size : ℕ
kernel_thread_size = frame_size + 1024 * 3

-- `GET_PROC_KSTACK`
abbrev pub get_proc_kstack : Image → ℕ → ℕ
get_proc_kstack im p =
    u32 (im.proc_table + p * kernel_thread_size + kernel_thread_size - frame_size)

abbrev pub is_used : Pcb → Bool
is_used p = not (bit_and p.flags p_in_use == 0)

-- The loop of `get_free_proc_struct`, from the process `t` on, for `n` processes.
pub find_free : (ℕ → Pcb) → ℕ → ℕ → Option ℕ
find_free pcb t zero = none
find_free pcb t (suc n) =
    let later = find_free pcb (t + 1) n in if is_used (pcb t) then later else some t

-- `get_free_proc_struct`
pub get_free_proc_struct : (ℕ → Pcb) → Option ℕ
unfolding find_free
get_free_proc_struct pcb = find_free pcb 0 nr_task

-- `memcpy` of `n` bytes to higher addresses one after the other, as `rep movsb` does it.
pub copy : ℕ → ℕ → ℕ → (ℕ → ℕ) → ℕ → ℕ
copy from to zero bytes = bytes
copy from to (suc n) bytes = copy (from + 1) (to + 1) n (update bytes to (bytes from))

-- `r_size` of `mem_copy`
abbrev pub region_size : Pcb → ℕ
region_size p = u32 (p.stack.size + sub32 p.stack.vir p.dat.vir)

-- `c->map[D].phys` and `c->map[S].phys`
abbrev pub moved_to : ℕ → Pcb → Pcb → Pcb
moved_to base p c = record c {
  dat = record c.dat { phys = base };
  stack = record c.stack { phys = u32 (base + sub32 p.stack.vir p.dat.vir) };
}

-- What `mem_copy` makes of the answer of `Kmem_alloc`; `unlock_irq_restore` puts the interrupt flag
-- back. The first part is false for -1.
place_copy : ℕ → ℕ → Procs → Option ℕ × Mem → Bool × Procs
place_copy p c s (none, m) = (false, record s { mem = record m { irq = s.mem.irq } })
place_copy p c s (some base, m) =
    let t : Procs = record s { mem = record m { irq = s.mem.irq } } in
    if base == 0 then (false, t) else (
      true,
      record t {
        bytes = copy (s.pcb p).dat.phys base (region_size (s.pcb p)) s.bytes;
        pcb = update s.pcb c (moved_to base (s.pcb p) (s.pcb c));
      },
    )

-- `mem_copy`
pub mem_copy : ℕ → ℕ → Procs → Bool × Procs
unfolding copy place_copy
mem_copy p c s = place_copy p c s (kmem_alloc (region_size (s.pcb p)) s.mem)

-- `alloc_segments`, of a process and its registers.
pub alloc_segments : Pcb → Frame → Pcb × Frame
alloc_segments p r =
    let code : SegDesc = init_codeseg (get_or p.ldt 0 zero_seg) p.text.phys p.text.size user_priv in
    let dat : SegDesc =
      init_dataseg (get_or p.ldt 1 zero_seg) p.dat.phys (u32 (p.stack.vir + p.stack.size))
        user_priv in
    let ds : ℕ = seg_selector 1 1 user_priv in
    (
      record p { ldt = set (set p.ldt 0 code) 1 dat },
      record r { cs = seg_selector 0 1 user_priv; ds = ds; es = ds; fs = ds; gs = ds; ss = ds },
    )

-- `struct proc` of the entry `c` after `*child=*father` and the assignments to it up to `mem_copy`.
pub clone_pcb : Image → ℕ → Pcb → Pcb → Pcb
clone_pcb im c father old =
    let frame : ℕ = get_proc_kstack im c in
    record father {
      pid = old.pid;
      ldt_selector = old.ldt_selector;
      thread = record { esp0 = u32 (frame + frame_size); esp = frame; eip = im.ret_with_schedule };
    }

-- `do_fork` from `*child=*father` up to `mem_copy`.
pub clone : Image → ℕ → ℕ → Procs → Procs
unfolding clone_pcb
clone im c f s = record s {
  sched = record s.sched {
    next = update s.sched.next c (s.sched.next f);
    status = update s.sched.status c (s.sched.status f);
    counter = update s.sched.counter c (s.sched.counter f);
    need_resched = update s.sched.need_resched c (s.sched.need_resched f);
  };
  pcb = update s.pcb c (clone_pcb im c (s.pcb f) (s.pcb c));
  regs = update s.regs c (record (s.regs f) { eax = 0 });
}

-- What `do_fork` does to the child after `mem_copy`, up to `wake_up_process`.
pub start : ℕ → Procs → Procs
start c s =
    let used : Pcb = record (s.pcb c) { flags = bit_or (s.pcb c).flags p_in_use } in
    let (p, r) = alloc_segments used (s.regs c) in
    record s {
      pcb = update s.pcb c p;
      regs = update s.regs c r;
      sched = record s.sched { counter = update s.sched.counter c 10 };
    }

pub fork_into : Image → Procs → Option ℕ → Run (Option ℕ × Procs)
fork_into im s none = ok (none, s)
fork_into im s (some c) =
    let (copied, t) = mem_copy s.sched.current c (clone im c s.sched.current s) in
    let u : Procs = start c t in
    if copied
    then (do
      woken ← wake_up_process (some c) u.sched
      ok (some (s.pcb c).pid, record u { sched = woken }))
    else ok (none, t)

-- `do_fork`: the pid of the child, or `none` for -1.
pub do_fork : Image → Procs → Run (Option ℕ × Procs)
unfolding fork_into
do_fork im s = fork_into im s (get_free_proc_struct s.pcb)

-- What `do_exit` does up to `schedule`. `~P_IN_USE` is all the other bits.
pub leave : Procs → Procs
unfolding kmem_free
leave s =
    let curr : ℕ = s.sched.current in
    let p : Pcb = s.pcb curr in
    record s {
      pcb = update s.pcb curr (record p { flags = bit_and p.flags 0xfffffffe; ldt_selector = 0 });
      mem = kmem_free p.dat.phys s.mem;
      sched = record s.sched { status = update s.sched.status curr task_stoped };
    }

-- `do_exit`, up to the change of stacks in `schedule`; `none` for a panic.
pub do_exit : ℕ → Procs → Run (Option Procs)
do_exit fuel s =
    if leb (s.pcb s.sched.current).pid 1
    then ok none
    else (do let t = leave s; after ← schedule fuel t.sched; ok (some (record t { sched = after })))
