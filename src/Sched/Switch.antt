-- ===== src/Sched/Switch.antt =====
-- `schedule` of ker/schedule.c and `bill_process_time` of ker/proc.c.
use myos_ia.Prelude.{
  ℕ, ◌<◌, ◌≤◌, ◌≡◌, ◌≢◌, refl, Bool, ◌||◌, List, [], ◌∷◌, ◌++◌, arith, inl, inr, ◌⊎◌, ◌==◌, length,
  if◌then◌else◌, Bool-cases, length-append,
}
use myos_ia.Sched.{
  State, ok, idle_task, task_interrupt, task_stoped, pick_proc, block_unless_running, give_way,
  schedule,
}
use myos_ia.Sched.Chain.{IsQueue, erase}
use myos_ia.Sched.Ready.{rotated, round_robin-Rotated}
use myos_ia.Sched.Block.{proc_block-erase, erase-absent}

abbrev pub head_or : ℕ → List ℕ → ℕ
head_or d [] = d
head_or d (x ∷ xs) = x

-- The process may not go on running.
abbrev pub stops : State → ℕ → Bool
stops s p = (s.status p == task_interrupt) || (s.status p == task_stoped)

-- The queue that `schedule` leaves: rotated if the time slice is used up, and without the current
-- process if that one stops.
abbrev pub remaining : State → List ℕ → List ℕ
remaining s xs =
    if stops s s.current
    then erase s.current (rotated (s.counter s.current) xs)
    else rotated (s.counter s.current) xs

pick_proc_lem : (s : State) (xs : List ℕ) → IsQueue s xs → pick_proc s ≡ head_or idle_task xs
unfolding pick_proc
pick_proc_lem s [] q = ground arith
pick_proc_lem s (x ∷ xs) q = ground arith

abbrev blocked_queue : State → ℕ → List ℕ → List ℕ
blocked_queue s p xs = if stops s p then erase p xs else xs

record Left (s : State) (p : ℕ) (xs : List ℕ) (t : State) : Type 0 where
  queue : IsQueue t (blocked_queue s p xs)
  settled : (t.current ≡ s.current) ⊎ (t.current ≡ pick_proc t)

block_unless_running_lem :
    (fuel : ℕ) (s : State) (p : ℕ) (xs : List ℕ)
    → IsQueue s xs
    → xs ≢ []
    → length xs ≤ fuel
    → (t : State) × (block_unless_running fuel p s ≡ ok t) × Left s p xs t
unfolding block_unless_running
block_unless_running_lem fuel s p [] q ne f = absurd (ne refl)
block_unless_running_lem fuel s p (x ∷ xs) q ne f = elim (Bool-cases (stops s p)) [
  | inr running ↦ (s, rw running, record { queue = rw running q; settled = inl refl })
  | inl stopped ↦ elim (Bool-cases (p == idle_task)) [
    | inl idle ↦ (
      s,
      rw (stopped, idle),
      record {
        queue = rw stopped (rw (erase-absent p (x ∷ xs) (ground (arith, q.no_idle))) q);
        settled = inl refl;
      },
    )
    | inr busy ↦
        let (t, run, b) = proc_block-erase fuel s x xs p q (ground arith) (omega arith) in
        (t, rw stopped run, record { queue = rw stopped b.queue; settled = b.settled })
  ]
]

give_way_lem :
    (p : ℕ) (s : State) (xs : List ℕ)
    → IsQueue s xs
    → (s.current ≡ p) ⊎ (s.current ≡ pick_proc s)
    → IsQueue (give_way p s) xs
      × ((give_way p s).current ≡ head_or idle_task xs)
      × ((give_way p s).need_resched p ≡ 0)
      × ((give_way p s).need_resched (give_way p s).current ≡ 0)
unfolding give_way
give_way_lem p s xs q c =
    (ground arith, ground (arith, pick_proc_lem s xs q), ground arith, ground arith)

roll-ne : (x : ℕ) (xs : List ℕ) → (xs ++ (x ∷ [])) ≢ []
roll-ne x [] h = cc
roll-ne x (y ∷ xs) h = cc

pub rotated-ne : (n x : ℕ) (xs : List ℕ) → rotated n (x ∷ xs) ≢ []
rotated-ne n x xs = ground (arith, roll-ne x xs)

pub length-rotated : (n : ℕ) (xs : List ℕ) → length (rotated n xs) ≡ length xs
length-rotated n [] = ground arith
length-rotated n (x ∷ xs) = ground (arith, length-append xs (x ∷ []))

-- On a queue that is not empty, with a round of fuel for each process in it, `schedule` returns: a
-- used up time slice sends the head to the end, a current process that is stopped or waits leaves
-- the queue, the new current process is the head of what remains or idle, and neither it nor the
-- old one is asked to give way.
pub schedule-picks :
    (fuel : ℕ) (s : State) (x : ℕ) (xs : List ℕ)
    → IsQueue s (x ∷ xs)
    → length xs < fuel
    → (t : State) × (schedule fuel s ≡ ok t)
      × IsQueue t (remaining s (x ∷ xs))
      × (t.current ≡ head_or idle_task (remaining s (x ∷ xs)))
      × (t.need_resched s.current ≡ 0)
      × (t.need_resched t.current ≡ 0)
unfolding schedule
schedule-picks fuel s x xs q f =
    let (t, rotate_run, r) = round_robin-Rotated s (x ∷ xs) q in
    let (u, block_run, b) =
      block_unless_running_lem fuel t s.current (rotated (s.counter s.current) (x ∷ xs)) r.queue
        (rotated-ne (s.counter s.current) x xs)
        (omega (arith, length-rotated (s.counter s.current) (x ∷ xs))) in
    let same : blocked_queue t s.current (rotated (s.counter s.current) (x ∷ xs))
        ≡ remaining s (x ∷ xs) =
      rw (r.same_status s.current) in
    let g =
      give_way_lem s.current u (remaining s (x ∷ xs)) (rw same at b.queue)
        (ground (arith, b.settled, r.same_current)) in
    (give_way s.current u, rw rotate_run (rw block_run), g.0, g.1, g.2, g.3)
