-- ===== src/Wait/Sleep.antt =====
-- `sleep_on` and `wake_up` of ker/schedule.c, over the ready queue and the ring of waiters.
use mathlib.Core.List.{append_assoc, append-nil}
use myos_ia.Prelude.{
  ℕ, zero, suc, ◌<◌, ◌≡◌, ◌≢◌, ◌∙◌, refl, true, false, some, List, [], ◌∷◌, ◌++◌, map, arith, ◌==◌,
  length,
}
use myos_ia.Sched.{State, ok, update, idle_task, task_interrupt, wake_up_process}
use myos_ia.Sched.Chain.{has, erase, IsQueue}
use myos_ia.Sched.Ready.{rotated, wake_up_process-status}
use myos_ia.Sched.Switch.{remaining, head_or, schedule-picks}
use myos_ia.Wait.{Waits, list_add, sleep_start, sleep_end, wake_up, wake_up_from}
use myos_ia.Wait.Ring.{Linked, IsRing, list_add-IsRing, list_del-IsRing}

-- The queue without the current process, after the rotation that `schedule` may make.
abbrev pub without_current : State → List ℕ → List ℕ
without_current s xs = erase s.current (rotated (s.counter s.current) xs)

-- The state in which the sleeper gives way.
pub record Slept (w : Waits) (head wait : ℕ) (xs ws : List ℕ) (v : Waits) : Type 0 where
  pub ring : IsRing v.links head (wait ∷ ws)
  pub entry : v.waiter wait ≡ w.sched.current
  pub queue : IsQueue v.sched (without_current w.sched xs)
  pub runs : v.sched.current ≡ head_or idle_task (without_current w.sched xs)

-- On a ready queue that is not empty, with a round of fuel for each process behind its first, and
-- a wait queue that does not hold the entry, `sleep_on` puts the entry for the current process
-- first in the wait queue, takes the process off the ready queue, and runs the next ready process
-- or idle.
pub sleep_start-Slept :
    (fuel head wait : ℕ) (w : Waits) (x : ℕ) (xs ws : List ℕ)
    → IsQueue w.sched (x ∷ xs)
    → IsRing w.links head ws
    → has wait (head ∷ ws) ≡ false
    → length xs < fuel
    → (v : Waits) × (sleep_start fuel head wait w ≡ ok v) × Slept w head wait (x ∷ xs) ws v
unfolding sleep_start
sleep_start-Slept fuel head wait w x xs ws q r out f =
    let s = w.sched in
    let marked : State = record s { status = update s.status s.current task_interrupt } in
    let same : IsQueue marked (x ∷ xs) = record {
      chain = q.chain;
      ends = q.ends;
      distinct = q.distinct;
      no_idle = q.no_idle;
    } in
    let (t, run, queue, now, _, _) = schedule-picks fuel marked x xs same f in
    let left : remaining marked (x ∷ xs) ≡ without_current s (x ∷ xs) = ground arith in
    (
      record {
        sched = t;
        links = list_add head wait w.links;
        waiter = update w.waiter wait s.current;
      },
      rw run,
      record {
        ring = list_add-IsRing w.links head ws wait r out;
        entry = ground arith;
        queue = rw left at queue;
        runs = rw left at now;
      },
    )

-- A sleeper that runs again takes its entry out of the wait queue, wherever the entry stands in it
-- by then, and the queue of the others stays a ring in the same order.
pub sleep_end-IsRing :
    (head wait : ℕ) (w : Waits) (ws : List ℕ)
    → IsRing w.links head ws
    → has wait ws ≡ true
    → IsRing (sleep_end wait w).links head (erase wait ws)
unfolding sleep_end
sleep_end-IsRing head wait w ws r i = list_del-IsRing w.links head ws wait r i

-- Each process may be made ready in turn: it is not idle, and not in the queue by then, so neither in
-- the first queue nor before it in the list.
abbrev pub AllFresh : List ℕ → List ℕ → Type 0
AllFresh q [] = Unit
AllFresh q (p ∷ ps) = (p ≢ idle_task) × (has p q ≡ false) × AllFresh (q ++ (p ∷ [])) ps

wake_up_from-step :
    (fuel head tmp : ℕ) (w : Waits) (t : State)
    → (tmp == head) ≡ false
    → wake_up_process (some (w.waiter tmp)) w.sched ≡ ok t
    → wake_up_from (suc fuel) head tmp w
      ≡ wake_up_from fuel head (w.links.next tmp) (record w { sched = t })
unfolding wake_up_from
wake_up_from-step fuel head tmp w t miss run = ground arith

wake_up_from_lem :
    (fuel head tmp a : ℕ) (w : Waits) (q xs : List ℕ)
    → IsQueue w.sched q
    → Linked w.links a xs head
    → w.links.next a ≡ tmp
    → has head xs ≡ false
    → AllFresh q (map w.waiter xs)
    → length xs < fuel
    → (v : Waits) × (wake_up_from fuel head tmp w ≡ ok v)
      × IsQueue v.sched (q ++ map w.waiter xs)
      × (v.links ≡ w.links)
unfolding wake_up_from
wake_up_from_lem zero head tmp a w q xs iq l e out fresh f = absurd (omega arith)
wake_up_from_lem (suc fuel) head tmp a w q [] iq l e out fresh f =
    (w, ground arith, rw append-nil iq, refl)
wake_up_from_lem (suc fuel) head tmp a w q (x ∷ xs) iq l e out fresh f =
    let (t, run, more, _) = wake_up_process-status w.sched q (w.waiter x) iq fresh.0 fresh.1 in
    let (v, rest, all, same) =
      wake_up_from_lem fuel head (w.links.next x) x (record w { sched = t })
        (q ++ (w.waiter x ∷ [])) xs more l.2 refl (ground arith) fresh.2 (omega arith) in
    let here : tmp ≡ x = ground arith in
    (
      v,
      rw here (wake_up_from-step fuel head x w t (ground arith) run ∙ rest),
      rw append_assoc at all,
      same,
    )

-- On a ready queue and a ring of waiting entries whose processes are none of them idle, none of them in
-- the ready queue already, and none of them twice in the ring, with a round of fuel for each entry,
-- `wake_up` returns: the ready queue has the processes of all entries, in the order of the wait queue,
-- behind those that were ready, and the links of the wait queue are as they were.
pub wake_up-all :
    (fuel head : ℕ) (w : Waits) (q ws : List ℕ)
    → IsQueue w.sched q
    → IsRing w.links head ws
    → AllFresh q (map w.waiter ws)
    → length ws < fuel
    → (v : Waits) × (wake_up fuel (some head) w ≡ ok v)
      × IsQueue v.sched (q ++ map w.waiter ws)
      × (v.links ≡ w.links)
unfolding wake_up
wake_up-all fuel head w q ws iq r fresh f =
    wake_up_from_lem fuel head (w.links.next head) head w q ws iq r.linked refl r.distinct.0 fresh f
