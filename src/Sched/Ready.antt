-- ===== src/Sched/Ready.antt =====
-- `proc_ready`, `wake_up_process` and `RoundRobin` of ker/proc.c and ker/schedule.c.
use myos_ia.Prelude.{
  ℕ, ◌<◌, ◌≡◌, ◌≢◌, refl, sym, ap, ◌∙◌, false, none, some, List, [], ◌∷◌, ◌++◌, arith, inl, inr,
  ltb, ◌==◌, if◌then◌else◌, Bool-cases,
}
use myos_ia.Sched.{
  State, ok, update, idle_task, task_running, proc_ready, wake_up_process, round_robin,
}
use myos_ia.Sched.Chain.{
  has, Chain, last_or, IsQueue, Distinct-snoc, last_or-snoc, Chain-snoc, has-append, has-last_or,
}

-- What a process made ready does to the queue and what it leaves alone.
pub record Readied (s : State) (xs : List ℕ) (rp : ℕ) (t : State) : Type 0 where
  pub queue : IsQueue t (xs ++ (rp ∷ []))
  pub same_current : t.current ≡ s.current
  pub same_status : (p : ℕ) → t.status p ≡ s.status p

-- A process that is neither idle nor in the queue is appended to the queue, and neither the current
-- process nor any status changes.
pub proc_ready-append :
    (s : State) (xs : List ℕ) (rp : ℕ)
    → IsQueue s xs
    → rp ≢ idle_task
    → has rp xs ≡ false
    → (t : State) × (proc_ready (some rp) s ≡ ok t) × Readied s xs rp t
unfolding proc_ready
proc_ready-append s [] rp q ne out = (
  record s { ready_head = some rp; next = update s.next rp none; ready_tail = some rp },
  ground arith,
  record {
    queue = record {
      chain = ground arith;
      ends = refl;
      distinct = (refl, tt);
      no_idle = ground arith;
    };
    same_current = refl;
    same_status = λ p. refl;
  },
)
proc_ready-append s (x ∷ xs) rp q ne out = (
  record s { next = update (update s.next (last_or x xs) (some rp)) rp none; ready_tail = some rp },
  ground arith,
  record {
    queue = record {
      chain = Chain-snoc s.next s.ready_head x xs rp q.chain q.distinct out;
      ends = ap some (sym (last_or-snoc x xs rp));
      distinct = Distinct-snoc (x ∷ xs) rp q.distinct out;
      no_idle = ground (arith, has-append idle_task xs (rp ∷ []));
    };
    same_current = refl;
    same_status = λ p. refl;
  },
)

-- Making the first process of a longer queue ready again cuts off all the processes behind it.
pub proc_ready-cuts :
    (s : State) (x y : ℕ) (ys : List ℕ)
    → IsQueue s (x ∷ y ∷ ys)
    → (t : State) × (proc_ready (some x) s ≡ ok t) × Chain t.next t.ready_head (x ∷ [])
unfolding proc_ready
proc_ready-cuts s x y ys q = (
  record s { next = update (update s.next (last_or y ys) (some x)) x none; ready_tail = some x },
  ground arith,
  ground arith,
)

-- `wake_up_process` puts a process that is not idle and not ready at the end of the ready queue,
-- and marks the process that is running: the status of any other process, that of the woken one
-- included, stays as it was.
pub wake_up_process-status :
    (s : State) (xs : List ℕ) (rp : ℕ)
    → IsQueue s xs
    → rp ≢ idle_task
    → has rp xs ≡ false
    → (t : State) × (wake_up_process (some rp) s ≡ ok t)
      × IsQueue t (xs ++ (rp ∷ []))
      × ((p : ℕ) → t.status p ≡ (if p == s.current then task_running else s.status p))
unfolding wake_up_process
wake_up_process-status s xs rp q ne out =
    let marked : State = record s { status = update s.status s.current task_running } in
    let same : IsQueue marked xs = record {
      chain = q.chain;
      ends = q.ends;
      distinct = q.distinct;
      no_idle = q.no_idle;
    } in
    let (t, run, done) = proc_ready-append marked xs rp same ne out in
    (t, run, done.queue, λ p. done.same_status p ∙ ground arith)

-- The rotated queue: the head goes to the end if the running process has no time left.
abbrev pub roll : List ℕ → List ℕ
roll [] = []
roll (x ∷ xs) = xs ++ (x ∷ [])

abbrev pub rotated : ℕ → List ℕ → List ℕ
rotated time xs = if ltb 0 time then xs else roll xs

pub record Rotated (s : State) (xs : List ℕ) (t : State) : Type 0 where
  pub queue : IsQueue t (rotated (s.counter s.current) xs)
  pub same_current : t.current ≡ s.current
  pub same_status : (p : ℕ) → t.status p ≡ s.status p
  pub time_left : s.ready_head ≢ none → 0 < t.counter s.current

-- The time slice is used up.
used_up :
    (s : State) (xs : List ℕ)
    → IsQueue s xs
    → ltb 0 (s.counter s.current) ≡ false
    → (t : State) × (round_robin s ≡ ok t) × Rotated s xs t
unfolding round_robin
used_up s [] q out = (
  s,
  ground arith,
  record {
    queue = ground arith;
    same_current = refl;
    same_status = λ p. refl;
    time_left = λ ne. absurd (ne q.chain);
  },
)
used_up s (x ∷ []) q out = (
  record s {
    next = update (update s.next x (some x)) x none;
    ready_head = some x;
    ready_tail = some x;
    counter = update s.counter s.current 10;
  },
  ground arith,
  record {
    queue =
        rw out (record {
          chain = ground arith;
          ends = refl;
          distinct = q.distinct;
          no_idle = q.no_idle;
        });
    same_current = refl;
    same_status = λ p. refl;
    time_left = λ ne. ground arith;
  },
)
used_up s (x ∷ y ∷ xs) q out = (
  record s {
    next = update (update s.next (last_or y xs) (some x)) x none;
    ready_head = some y;
    ready_tail = some x;
    counter = update s.counter s.current 10;
  },
  ground (arith, has-last_or y xs),
  record {
    queue = rw out (record {
      chain = Chain-snoc s.next (some y) y xs x (refl, q.chain.1.1) q.distinct.1 q.distinct.0;
      ends = ap some (sym (last_or-snoc y xs x));
      distinct = Distinct-snoc (y ∷ xs) x q.distinct.1 q.distinct.0;
      no_idle = ground (arith, has-append idle_task xs (x ∷ []));
    });
    same_current = refl;
    same_status = λ p. refl;
    time_left = λ ne. ground arith;
  },
)

-- With time left, or with an empty queue, `RoundRobin` changes nothing; otherwise it moves the head
-- of the queue to the end and gives the running process a new time slice.
pub round_robin-Rotated :
    (s : State) (xs : List ℕ) → IsQueue s xs → (t : State) × (round_robin s ≡ ok t) × Rotated s xs t
unfolding round_robin
round_robin-Rotated s xs q = elim (Bool-cases (ltb 0 (s.counter s.current))) [
  | inl left ↦ (
    s,
    ground arith,
    record {
      queue = rw left q;
      same_current = refl;
      same_status = λ p. refl;
      time_left = λ ne. ground arith;
    },
  )
  | inr out ↦ used_up s xs q out
]
