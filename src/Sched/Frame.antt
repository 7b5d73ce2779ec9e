-- ===== src/Sched/Frame.antt =====
-- What `schedule` of ker/schedule.c leaves alone, and what it writes where.
use myos_ia.Prelude.{
  ℕ, ◌<◌, ◌≤◌, ◌≡◌, ◌≢◌, refl, ap, ◌∙◌, Bool, true, false, ◌||◌, ◌&&◌, none, some, List, [], ◌∷◌,
  arith, inl, inr, ◌⊎◌, ltb, ◌==◌, length, if◌then◌else◌, Bool-cases,
}
use myos_ia.Sched.{
  State, Ptr, ok, update, idle_task, round_robin, block_unless_running, give_way, pick_proc,
  schedule,
}
use myos_ia.Sched.Chain.{has, last_or, has-last_or, has-append, IsQueue}
use myos_ia.Sched.Ready.{rotated, round_robin-Rotated}
use myos_ia.Sched.Block.{Kept, Kept-self, proc_block-Kept}
use myos_ia.Sched.Switch.{stops, remaining, head_or, rotated-ne, length-rotated, schedule-picks}

-- What `schedule` does to the fields of the processes, with `xs` ready before: the current process gets
-- a time slice if it has none left, neither it nor the next one is asked to give way, and `next`
-- changes in processes of the queue only.
pub record Scheduled (s : State) (xs : List ℕ) (t : State) : Type 0 where
  pub status : t.status ≡ s.status
  pub counter :
      (p : ℕ)
      → t.counter p ≡ (if (p == s.current) && (s.counter s.current == 0) then 10 else s.counter p)
  pub need_resched :
      (p : ℕ)
      → t.need_resched p ≡ (if (p == s.current) || (p == t.current) then 0 else s.need_resched p)
  pub next : (p : ℕ) → t.next p ≡ (if has p xs then t.next p else s.next p)

-- The part of it that `RoundRobin` does.
record Turned (s : State) (xs : List ℕ) (t : State) : Type 0 where
  current : t.current ≡ s.current
  status : t.status ≡ s.status
  counter :
      (p : ℕ)
      → t.counter p ≡ (if (p == s.current) && (s.counter s.current == 0) then 10 else s.counter p)
  need_resched : t.need_resched ≡ s.need_resched
  next : (p : ℕ) → t.next p ≡ (if has p xs then t.next p else s.next p)

-- The queue after its head `x` went to the end, and the new time slice.
abbrev turned : State → ℕ → List ℕ → State
turned s x xs =
    let f : ℕ → Ptr = update s.next (last_or x xs) (some x) in
    record s {
      next = update f x none;
      ready_head = f x;
      ready_tail = some x;
      counter = update s.counter s.current 10;
    }

turned-Turned :
    (s : State) (x : ℕ) (xs : List ℕ)
    → ltb 0 (s.counter s.current) ≡ false
    → Turned s (x ∷ xs) (turned s x xs)
turned-Turned s x xs out = record {
  current = refl;
  status = refl;
  counter = λ p. ground arith;
  need_resched = refl;
  next = λ p. ground (arith, has-last_or x xs);
}

round_robin-Turned :
    (s : State) (x : ℕ) (xs : List ℕ)
    → IsQueue s (x ∷ xs)
    → (t : State) × (round_robin s ≡ ok t) × Turned s (x ∷ xs) t
unfolding round_robin
round_robin-Turned s x xs q = elim (Bool-cases (ltb 0 (s.counter s.current))) [
  | inl left ↦ (
    s,
    ground arith,
    record {
      current = refl;
      status = refl;
      counter = λ p. ground arith;
      need_resched = refl;
      next = λ p. ground arith;
    },
  )
  | inr out ↦ (turned s x xs, rw (q.chain.0, out, q.ends) refl, turned-Turned s x xs out)
]

has-rotated : (p n : ℕ) (xs : List ℕ) → has p (rotated n xs) ≡ has p xs
has-rotated p n [] = ground arith
has-rotated p n (x ∷ xs) = ground (arith, has-append p xs (x ∷ []))

block_unless_running-Kept :
    (fuel : ℕ) (s : State) (p : ℕ) (xs : List ℕ)
    → IsQueue s xs
    → xs ≢ []
    → length xs ≤ fuel
    → (t : State) × (block_unless_running fuel p s ≡ ok t) × Kept s xs t
unfolding block_unless_running
block_unless_running-Kept fuel s p [] q ne f = absurd (ne refl)
block_unless_running-Kept fuel s p (x ∷ xs) q ne f = elim (Bool-cases (stops s p)) [
  | inr running ↦ (s, rw running refl, Kept-self s (x ∷ xs))
  | inl stopped ↦
      let (t, run, kept) = proc_block-Kept fuel s x xs p q (omega arith) in
      (t, rw stopped run, kept)
]

give_way-need_resched :
    (p : ℕ) (s : State) (i : ℕ)
    → (s.current ≡ p) ⊎ (s.current ≡ pick_proc s)
    → (give_way p s).need_resched i
      ≡ (if (i == p) || (i == (give_way p s).current) then 0 else s.need_resched i)
unfolding give_way
give_way-need_resched p s i c = ground arith

give_way-kept :
    (p : ℕ) (s : State)
    → ((give_way p s).status ≡ s.status)
      × ((give_way p s).counter ≡ s.counter)
      × ((give_way p s).next ≡ s.next)
unfolding give_way
give_way-kept p s = elim (Bool-cases (p == pick_proc s)) [
  | inl same ↦ rw same (refl, refl, refl)
  | inr other ↦ rw other (refl, refl, refl)
]

kept_twice :
    (f g h : ℕ → Ptr) (b c : Bool) (p : ℕ)
    → b ≡ c
    → f p ≡ (if b then f p else g p)
    → g p ≡ (if c then g p else h p)
    → f p ≡ (if c then f p else h p)
kept_twice f g h b false p e k l = rw e at k ∙ l
kept_twice f g h b true p e k l = refl

give_way-Scheduled :
    (s t u : State) (n : ℕ) (xs : List ℕ)
    → Turned s xs t
    → Kept t (rotated n xs) u
    → Scheduled s xs (give_way s.current u)
give_way-Scheduled s t u n xs turn kept =
    let settled : (u.current ≡ s.current) ⊎ (u.current ≡ pick_proc u) =
      ground (arith, kept.settled, turn.current) in
    let need : u.need_resched ≡ s.need_resched = kept.need_resched ∙ turn.need_resched in
    let (status, counter, next) = give_way-kept s.current u in
    record {
      status = status ∙ kept.status ∙ turn.status;
      counter = λ p. ap (λ g. g p) (counter ∙ kept.counter) ∙ turn.counter p;
      need_resched = λ p.
          give_way-need_resched s.current u p settled
          ∙ ap (λ g. if (p == s.current) || (p == (give_way s.current u).current) then 0 else g p)
              need;
      next = rw next (λ p.
          kept_twice u.next t.next s.next (has p (rotated n xs)) (has p xs) p (has-rotated p n xs)
            (kept.next p) (turn.next p));
    }

schedule-give_way :
    (fuel : ℕ) (s : State) (x : ℕ) (xs : List ℕ)
    → IsQueue s (x ∷ xs)
    → length xs < fuel
    → (t : State) × (schedule fuel s ≡ ok t) × Scheduled s (x ∷ xs) t
unfolding schedule
schedule-give_way fuel s x xs q f =
    let n : ℕ = s.counter s.current in
    let (t, turn_run, turn) = round_robin-Turned s x xs q in
    let (t', rotate_run, r) = round_robin-Rotated s (x ∷ xs) q in
    let one : t' ≡ t = cc in
    let ready : IsQueue t (rotated n (x ∷ xs)) = rw one at r.queue in
    let (u, block_run, kept) =
      block_unless_running-Kept fuel t s.current (rotated n (x ∷ xs)) ready (rotated-ne n x xs)
        (omega (arith, length-rotated n (x ∷ xs))) in
    (
      give_way s.current u,
      rw turn_run (rw block_run refl),
      give_way-Scheduled s t u n (x ∷ xs) turn kept,
    )

-- With a queue that is not empty and a round of fuel for each process in it, `schedule` returns, picks
-- the next process, and changes the fields of the processes as `Scheduled` says.
pub schedule-Scheduled :
    (fuel : ℕ) (s : State) (x : ℕ) (xs : List ℕ)
    → IsQueue s (x ∷ xs)
    → length xs < fuel
    → (t : State) × (schedule fuel s ≡ ok t)
      × IsQueue t (remaining s (x ∷ xs))
      × (t.current ≡ head_or idle_task (remaining s (x ∷ xs)))
      × Scheduled s (x ∷ xs) t
schedule-Scheduled fuel s x xs q f =
    let (t, run, queue, now, _, _) = schedule-picks fuel s x xs q f in
    let (t', run', frame) = schedule-give_way fuel s x xs q f in
    let same : t' ≡ t = cc in (t, run, queue, now, rw same at frame)
