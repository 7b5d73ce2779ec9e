-- ===== src/Sched/Woken.antt =====
-- What `wake_up_process` of ker/proc.c writes.
use myos_ia.Prelude.{
  ℕ, ◌≡◌, ◌≢◌, refl, Bool, false, none, some, List, [], ◌∷◌, ◌++◌, arith, ◌==◌, if◌then◌else◌,
}
use myos_ia.Sched.{State, ok, update, idle_task, task_running, wake_up_process}
use myos_ia.Sched.Chain.{has, last_or, IsQueue}
use myos_ia.Sched.Ready.{wake_up_process-status}

-- `p` is the last of `xs`.
abbrev pub is_last : ℕ → List ℕ → Bool
is_last p [] = false
is_last p (x ∷ xs) = p == last_or x xs

-- What waking up the process `rp` does to the state of the scheduler, with `xs` ready.
pub record Woken (s : State) (xs : List ℕ) (rp : ℕ) (t : State) : Type 0 where
  pub queue : IsQueue t (xs ++ (rp ∷ []))
  pub current : t.current ≡ s.current
  pub status : (p : ℕ) → t.status p ≡ (if p == s.current then task_running else s.status p)
  pub counter : t.counter ≡ s.counter
  pub need_resched : t.need_resched ≡ s.need_resched
  pub next :
      (p : ℕ) → t.next p ≡ (if p == rp then none else if is_last p xs then some rp else s.next p)

-- The state after `wake_up_process`.
abbrev woken : State → List ℕ → ℕ → State
woken s [] rp = record s {
  status = update s.status s.current task_running;
  ready_head = some rp;
  next = update s.next rp none;
  ready_tail = some rp;
}
woken s (x ∷ xs) rp = record s {
  status = update s.status s.current task_running;
  next = update (update s.next (last_or x xs) (some rp)) rp none;
  ready_tail = some rp;
}

wake_up_process-woken :
    (s : State) (xs : List ℕ) (rp : ℕ)
    → IsQueue s xs
    → rp ≢ idle_task
    → wake_up_process (some rp) s ≡ ok (woken s xs rp)
unfolding wake_up_process
wake_up_process-woken s [] rp q ne = ground arith
wake_up_process-woken s (x ∷ xs) rp q ne = ground arith

woken-Woken :
    (s : State) (xs : List ℕ) (rp : ℕ)
    → IsQueue (woken s xs rp) (xs ++ (rp ∷ []))
    → Woken s xs rp (woken s xs rp)
woken-Woken s [] rp queue = record {
  queue = queue;
  current = refl;
  status = λ p. refl;
  counter = refl;
  need_resched = refl;
  next = λ p. refl;
}
woken-Woken s (x ∷ xs) rp queue = record {
  queue = queue;
  current = refl;
  status = λ p. refl;
  counter = refl;
  need_resched = refl;
  next = λ p. refl;
}

pub wake_up_process-Woken :
    (s : State) (xs : List ℕ) (rp : ℕ)
    → IsQueue s xs
    → rp ≢ idle_task
    → has rp xs ≡ false
    → (t : State) × (wake_up_process (some rp) s ≡ ok t) × Woken s xs rp t
wake_up_process-Woken s xs rp q ne out =
    let (t, run, queue, _) = wake_up_process-status s xs rp q ne out in
    let now = wake_up_process-woken s xs rp q ne in
    let same : t ≡ woken s xs rp = cc in
    (woken s xs rp, now, woken-Woken s xs rp (rw same at queue))
