-- ===== src/Wait.antt =====
-- include/list.h, include/wait.h, and `sleep_on` and `wake_up` of ker/schedule.c: circular lists of
-- wait entries. A `struct list_head` is its address; `links` holds the `next` and `prev` fields, and
-- `waiter` the `proc` field of the entry that a list head is embedded in.
pub mod Ring
pub mod Sleep
mod Tests
use myos_ia.Prelude.{ℕ, zero, suc, true, false, Option, none, some, ◌==◌, if◌then◌else◌}
use myos_ia.Sched.{State, Run, ok, spins, ◌>>=◌, update, task_interrupt, schedule, wake_up_process}

pub record Links : Type 0 where
  pub next : ℕ → ℕ
  pub prev : ℕ → ℕ

pub set_next : ℕ → ℕ → Links → Links
set_next a b l = record l { next = update l.next a b }

pub set_prev : ℕ → ℕ → Links → Links
set_prev a b l = record l { prev = update l.prev a b }

-- `list_add`, one assignment after the other.
unfoldable pub list_add : ℕ → ℕ → Links → Links
unfolding set_next set_prev
list_add head new l0 =
    let l1 = set_prev (l0.next head) new l0 in
    let l2 = set_next new (l1.next head) l1 in let l3 = set_prev new head l2 in set_next head new l3

-- `list_add_tail`, one assignment after the other.
unfoldable pub list_add_tail : ℕ → ℕ → Links → Links
unfolding set_next set_prev
list_add_tail head new l0 =
    let l1 = set_prev head new l0 in
    let l2 = set_next new head l1 in
    let l3 = set_prev new (l2.prev head) l2 in set_next (l3.prev head) new l3

-- `list_del`
unfoldable pub list_del : ℕ → Links → Links
unfolding set_next set_prev
list_del old l0 =
    let l1 = set_prev (l0.next old) (l0.prev old) l0 in set_next (l1.prev old) (l1.next old) l1

-- The scheduler with the wait queues.
pub record Waits : Type 0 where
  pub sched : State
  pub links : Links
  pub waiter : ℕ → ℕ

-- `INIT_WAIT_QUEUE_HEAD`
unfoldable pub init_wait_queue_head : ℕ → Links → Links
unfolding set_next set_prev
init_wait_queue_head head l = set_next head head (set_prev head head l)

-- `sleep_on` up to the return of `schedule`: the entry `wait` lies on the stack of the caller.
unfoldable pub sleep_start : ℕ → ℕ → ℕ → Waits → Run Waits
unfolding list_add schedule
sleep_start fuel head wait w = do
  let s = w.sched
  let queued : Waits = record {
    sched = record s { status = update s.status s.current task_interrupt };
    links = list_add head wait w.links;
    waiter = update w.waiter wait s.current;
  }
  t ← schedule fuel queued.sched
  ok (record queued { sched = t })

-- `remove_wait_queue(head, &wait)`, when the sleeper runs again.
unfoldable pub sleep_end : ℕ → Waits → Waits
unfolding list_del
sleep_end wait w = record w { links = list_del wait w.links }

-- The loop of `wake_up`, from the entry `tmp` on.
wake_up_from : ℕ → ℕ → ℕ → Waits → Run Waits
wake_up_from zero head tmp w = spins
wake_up_from (suc fuel) head tmp w = elim (tmp == head) [
  | true ↦ ok w
  | false ↦ elim (wake_up_process (some (w.waiter tmp)) w.sched) [
    | ok t ↦ wake_up_from fuel head (w.links.next tmp) (record w { sched = t })
    | Run.fault ↦ Run.fault
    | Run.spins ↦ Run.spins
  ]
]

-- `wake_up`: makes the process of every entry ready, and leaves the entries in the queue.
unfoldable pub wake_up : ℕ → Option ℕ → Waits → Run Waits
unfolding wake_up_from wake_up_process
wake_up fuel none w = ok w
wake_up fuel (some head) w = wake_up_from fuel head (w.links.next head) w
