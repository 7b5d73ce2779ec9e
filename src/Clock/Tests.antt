-- ===== src/Clock/Tests.antt =====
-- A clock at five to noon on the fourth of March 2004.
use myos_ia.Prelude.{ℕ, ◌≡◌, refl, true, none, some, [], arith, ◌==◌, if◌then◌else◌}
use myos_ia.Sched.{State}
use myos_ia.Sched.Slice.{ticks}
use myos_ia.Clock.{Clock, CmosTime, get_cmos_time}
use myos_ia.Clock.Time.{get_cmos_time-Holds}
use myos_ia.Clock.Ticks.{interrupts, interrupts-counts}

abbrev noon : CmosTime
noon = record { sec = 30; min = 55; hour = 11; day = 4; mon = 3; year = 4; cen = 20 }

abbrev cmos : ℕ → ℕ
cmos port =
    if port == 0x80
    then 0x30
    else if port == 0x82
    then 0x55
    else if port == 0x84
    then 0x11
    else if port == 0x87
    then 0x04
    else if port == 0x88
    then 0x03
    else if port == 0x89
    then 0x04
    else 0x20

get_cmos_time-Holds_example : get_cmos_time cmos ≡ noon
get_cmos_time-Holds_example = get_cmos_time-Holds cmos noon (record {
  sec = (refl, omega arith);
  min = (refl, omega arith);
  hour = (refl, omega arith);
  day = (refl, omega arith);
  mon = (refl, omega arith);
  year = (refl, omega arith);
  cen = (refl, omega arith);
})

abbrev sched : State
sched = record {
  ready_head = some 1;
  ready_tail = some 1;
  current = 1;
  next = λ p. none;
  status = λ p. 1;
  counter = λ p. 10;
  need_resched = λ p. 0;
}

abbrev clock : Clock
clock = record {
  clocktick = 0;
  clocktime = noon;
  control = 0x30;
  writes = [];
  sched = sched;
  pics = record { gives = λ p. 0; writes = []; flag = true; irq_table = λ i. 0 };
}

-- A minute of interrupts at 60 a second.
interrupts-counts_example :
    ((interrupts 3600 clock).clocktick ≡ 3600)
    × ((interrupts 3600 clock).clocktime ≡ noon)
    × ((interrupts 3600 clock).sched ≡ ticks 3600 sched)
interrupts-counts_example = interrupts-counts 3600 clock (omega arith)
