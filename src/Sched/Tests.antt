-- ===== src/Sched/Tests.antt =====
-- Runs of the scheduler on three ready processes, and its theorems at that state.
use myos_ia.Prelude.{ℕ, ◌≡◌, refl, none, some, List, [], ◌∷◌, arith, ◌==◌, if◌then◌else◌}
use myos_ia.Sched.{
  Ptr, State, Run, ok, idle_task, proc_ready, proc_block, round_robin, schedule, pick_proc,
}
use myos_ia.Sched.Chain.{IsQueue}
use myos_ia.Sched.Ready.{Readied, proc_ready-append}
use myos_ia.Sched.Block.{Blocked, proc_block-erase}
use myos_ia.Sched.Switch.{remaining, head_or, schedule-picks}

abbrev links : ℕ → Ptr
links p = if p == 1 then some 2 else if p == 2 then some 3 else none

-- 1, 2 and 3 are ready, and 1 runs with no time left.
abbrev three : State
three = record {
  current = 1;
  ready_head = some 1;
  ready_tail = some 3;
  next = links;
  status = λ p. 1;
  counter = λ p. 0;
  need_resched = λ p. 1;
}

abbrev ids : List ℕ
ids = 1 ∷ 2 ∷ 3 ∷ []

three-IsQueue : IsQueue three ids
three-IsQueue = ground arith

-- 1 waits: the queue rotates, 1 leaves it, and 2 runs.
abbrev sleeping : State
sleeping = record three { status = λ p. if p == 1 then 3 else 1 }

sleeping-IsQueue : IsQueue sleeping ids
sleeping-IsQueue = ground arith

abbrev outcome : Run State → List ℕ
outcome (ok t) = t.current ∷ pick_proc t ∷ []
outcome _ = []

after_sleep : outcome (schedule 3 sleeping) ≡ 2 ∷ 2 ∷ []
unfolding schedule round_robin proc_block pick_proc
after_sleep = refl

proc_ready-append_example : (t : State) × (proc_ready (some 4) three ≡ ok t) × Readied three ids 4 t
proc_ready-append_example = proc_ready-append three ids 4 three-IsQueue (omega arith) refl

proc_block-erase_example :
    (t : State) × (proc_block 3 (some 2) three ≡ ok t) × Blocked three ids 2 t
proc_block-erase_example =
    proc_block-erase 3 three 1 (2 ∷ 3 ∷ []) 2 three-IsQueue (omega arith) (omega arith)

schedule-picks_example :
    (t : State) × (schedule 3 sleeping ≡ ok t)
    × IsQueue t (remaining sleeping ids)
    × (t.current ≡ head_or idle_task (remaining sleeping ids))
    × (t.need_resched 1 ≡ 0)
    × (t.need_resched t.current ≡ 0)
schedule-picks_example = schedule-picks 3 sleeping 1 (2 ∷ 3 ∷ []) sleeping-IsQueue (omega arith)
