-- ===== src/Wait/Tests.antt =====
-- The wait queue theorems at a head at address 100 with the entries 101 and 102.
use myos_ia.Prelude.{◌≡◌, refl, Option, some, [], ◌∷◌, arith, ◌==◌, if◌then◌else◌}
use myos_ia.Sched.{ok}
use myos_ia.Sched.Chain.{IsQueue}
use myos_ia.Wait.{Links, Waits, sleep_start, sleep_end, wake_up}
use myos_ia.Wait.Ring.{IsRing}
use myos_ia.Wait.Sleep.{Slept, sleep_start-Slept, sleep_end-IsRing, wake_up-all}

abbrev two : Links
two = record {
  next = λ a. if a == 100 then 101 else if a == 101 then 102 else 100;
  prev = λ a. if a == 100 then 102 else if a == 102 then 101 else 100;
}

two-IsRing : IsRing two 100 (101 ∷ 102 ∷ [])
two-IsRing = ground arith

-- Process 3 runs; 1 and 2 wait at the entries 101 and 102.
abbrev waits : Waits
waits = record {
  sched = record {
    current = 3;
    ready_head = some 3;
    ready_tail = some 3;
    next = λ p. Option.none;
    status = λ p. 1;
    counter = λ p. 5;
    need_resched = λ p. 0;
  };
  links = two;
  waiter = λ a. if a == 101 then 1 else 2;
}

waits-IsQueue : IsQueue waits.sched (3 ∷ [])
waits-IsQueue = ground arith

sleep_start-Slept_example :
    (v : Waits) × (sleep_start 1 100 103 waits ≡ ok v)
    × Slept waits 100 103 (3 ∷ []) (101 ∷ 102 ∷ []) v
sleep_start-Slept_example =
    sleep_start-Slept 1 100 103 waits 3 [] (101 ∷ 102 ∷ []) waits-IsQueue two-IsRing refl
      (omega arith)

sleep_end-IsRing_example : IsRing (sleep_end 101 waits).links 100 (102 ∷ [])
sleep_end-IsRing_example = sleep_end-IsRing 100 101 waits (101 ∷ 102 ∷ []) two-IsRing refl

wake_up-all_example :
    (v : Waits) × (wake_up 3 (some 100) waits ≡ ok v)
    × IsQueue v.sched (3 ∷ 1 ∷ 2 ∷ [])
    × (v.links ≡ two)
wake_up-all_example =
    wake_up-all 3 100 waits (3 ∷ []) (101 ∷ 102 ∷ []) waits-IsQueue two-IsRing
      (omega arith, refl, (omega arith, refl, tt)) (omega arith)
