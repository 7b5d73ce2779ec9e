-- ===== src/Sched.antt =====
-- ker/proc.c and ker/schedule.c: the ready queue, the clock's bill and the choice of the next
-- process. A process is its index in `proc_table`, and the fields of `struct proc` are functions of
-- it. A read or a write through NULL is `fault`; a walk that outlives its fuel is `spins`.
pub mod Chain
pub mod Ready
pub mod Block
pub mod Switch
pub mod Frame
pub mod Woken
pub mod Slice
mod Tests
use myos_ia.Prelude.{
  ℕ, zero, suc, ◌-◌, Bool, true, false, ◌||◌, Option, none, some, ltb, ◌==◌, if◌then◌else◌,
  same_ptr,
}

abbrev pub Ptr : Type 0
Ptr = Option ℕ

-- `IDLE_TASK`
abbrev pub idle_task : ℕ
idle_task = 0

abbrev pub task_running : ℕ
task_running = 1

abbrev pub task_stoped : ℕ
task_stoped = 2

abbrev pub task_interrupt : ℕ
task_interrupt = 3

-- `counter` is a `long` that is only set to 10 and decremented above 0, so it is a natural number.
pub record State : Type 0 where
  pub current : ℕ
  pub ready_head : Ptr
  pub ready_tail : Ptr
  pub next : ℕ → Ptr
  pub status : ℕ → ℕ
  pub counter : ℕ → ℕ
  pub need_resched : ℕ → ℕ

pub data Run {ℓ} (A : Type ℓ) : Type ℓ where
  ok : A → Run A
  fault : Run A
  spins : Run A

infixl 5 ◌>>=◌
abbrev pub ◌>>=◌ {ℓ κ} : {A : Type ℓ} {B : Type κ} → Run A → (A → Run B) → Run B
ok a >>= f = f a
fault >>= f = fault
spins >>= f = spins

abbrev pub update {ℓ} : {A : Type ℓ} → (ℕ → A) → ℕ → A → ℕ → A
update f i v j = if j == i then v else f j

-- `p->next = q`
abbrev pub set_next : Ptr → Ptr → State → Run State
set_next none q s = fault
set_next (some p) q s = ok (record s { next = update s.next p q })

-- `proc_ready`: appends a process to the ready queue.
proc_ready_at : ℕ → State → Run State
proc_ready_at rp s = do
  t ← elim s.ready_head [
    | some h ↦ set_next s.ready_tail (some rp) s
    | none ↦ ok (record s { ready_head = some rp })
  ]
  ok (record t { next = update t.next rp none; ready_tail = some rp })

unfoldable pub proc_ready : Ptr → State → Run State
unfolding proc_ready_at
proc_ready none s = ok s
proc_ready (some rp) s = if rp == idle_task then ok s else proc_ready_at rp s

-- `pick_proc`: the head of the queue, or else the idle task.
unfoldable pub pick_proc : State → ℕ
pick_proc s = elim s.ready_head [ some p ↦ p | none ↦ idle_task ]

-- `while (hp->next != bp) { hp = hp->next; if (hp == NULL) return; }`: the process before `bp`, or
-- `none` where the walk reaches the end.
find_prev : ℕ → ℕ → ℕ → State → Run Ptr
find_prev zero bp hp s = spins
find_prev (suc fuel) bp hp s = elim (same_ptr (s.next hp) (some bp)) [
  | true ↦ ok (some hp)
  | false ↦ elim (s.next hp) [ none ↦ ok none | some q ↦ find_prev fuel bp q s ]
]

-- `hp->next = hp->next->next; if (ready_tail == bp) ready_tail = hp;` where `hp->next` is `bp`.
unlink : ℕ → ℕ → State → State
unlink hp bp s = record s {
  next = update s.next hp (s.next bp);
  ready_tail = if same_ptr s.ready_tail (some bp) then some hp else s.ready_tail;
}

-- `ready_head = hp->next; current = pick_proc();` where `hp` is the head `bp`.
drop_head : ℕ → State → State
unfolding pick_proc
drop_head bp s =
    let t : State = record s { ready_head = s.next bp } in record t { current = pick_proc t }

proc_block_at : ℕ → ℕ → State → Run State
unfolding find_prev unlink drop_head
proc_block_at fuel bp s = elim s.ready_head [
  | none ↦ fault
  | some hp ↦ elim (hp == bp) [
    | true ↦ ok (drop_head bp s)
    | false ↦ do
      found ← find_prev fuel bp hp s
      elim found [ none ↦ ok s | some prev ↦ ok (unlink prev bp s) ]
  ]
]

-- `proc_block`: takes a process off the ready queue, wherever it stands there.
unfoldable pub proc_block : ℕ → Ptr → State → Run State
unfolding proc_block_at
proc_block fuel none s = ok s
proc_block fuel (some bp) s = if bp == idle_task then ok s else proc_block_at fuel bp s

-- `bill_process_time`: what the clock interrupt does to the current process.
unfoldable pub bill_process_time : State → State
bill_process_time s =
    if s.current == idle_task
    then record s { need_resched = update s.need_resched s.current 1 }
    else if ltb 0 (s.counter s.current)
    then record s { counter = update s.counter s.current (s.counter s.current - 1) }
    else record s { need_resched = update s.need_resched s.current 1 }

-- The four assignments to the queue, then the new time slice of `current`.
rotate : ℕ → State → Run State
rotate h s = do
  t ← set_next s.ready_tail (some h) s
  u ← set_next (some h) none (record t { ready_tail = some h; ready_head = t.next h })
  ok (record u { counter = update u.counter u.current 10 })

-- `RoundRobin`: the head of the queue goes to its end when the time slice is used up.
unfoldable pub round_robin : State → Run State
unfolding rotate
round_robin s = elim s.ready_head [
  | none ↦ ok s
  | some h ↦ if ltb 0 (s.counter s.current) then ok s else rotate h s
]

-- `case TASK_INTERRUPT: case TASK_STOPED: proc_block(curr);`, and nothing else in the `switch`.
block_unless_running : ℕ → ℕ → State → Run State
unfolding proc_block
block_unless_running fuel curr s =
    if (s.status curr == task_interrupt) || (s.status curr == task_stoped)
    then proc_block fuel (some curr) s
    else ok s

-- The end of `schedule`: `curr` gives way to the process that `pick_proc` chooses.
give_way : ℕ → State → State
unfolding pick_proc
give_way curr s =
    let t : State = record s { need_resched = update s.need_resched curr 0 } in
    let q = pick_proc t in
    if curr == q then t else record t { current = q; need_resched = update t.need_resched q 0 }

-- `schedule`, up to the change of stacks.
unfoldable pub schedule : ℕ → State → Run State
unfolding round_robin block_unless_running give_way
schedule fuel s = do
  t ← round_robin s
  u ← block_unless_running fuel s.current t
  ok (give_way s.current u)

-- `wake_up_process`: the status that it sets is that of `current`, not that of `p`.
unfoldable pub wake_up_process : Ptr → State → Run State
unfolding proc_ready
wake_up_process p s = proc_ready p (record s { status = update s.status s.current task_running })
