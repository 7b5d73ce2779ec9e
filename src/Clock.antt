-- ===== src/Clock.antt =====
-- ker/clock.c: the clock interrupt, the time of the CMOS and the speaker. `cmos` is what port 0x71
-- gives after a byte was written to port 0x70; `control` is port 0x61; `writes` has the writes to the
-- timer, last first.
pub mod Time
pub mod Ticks
pub mod Lines
mod Tests
use myos_ia.Prelude.{
  ℕ, zero, suc, ◌+◌, ◌-◌, ◌*◌, ◌/◌, ◌%◌, ◌^◌, Bool, true, false, Option, none, some, List, [], ◌∷◌,
  bit_and, bit_or, ltb, if◌then◌else◌, u8, u32, ◌<<<◌, ◌>>>◌,
}
use myos_ia.Sched.{State, bill_process_time}
use myos_ia.Irq.{Pics, put_irq_handler, enable_irq}
use myos_ia.Vsprintf.{Arg, number, vsprintf}

pub record CmosTime : Type 0 where
  pub sec : ℕ
  pub min : ℕ
  pub hour : ℕ
  pub day : ℕ
  pub mon : ℕ
  pub year : ℕ
  pub cen : ℕ

pub record Clock : Type 0 where
  pub clocktick : ℕ
  pub clocktime : CmosTime
  pub control : ℕ
  pub writes : List (ℕ × ℕ)
  pub sched : State
  pub pics : Pics

-- `CMOS_READ`
abbrev pub cmos_read : (ℕ → ℕ) → ℕ → ℕ
cmos_read cmos addr = cmos (bit_or addr 0x80)

-- `BCD_TO_BIN`
abbrev pub bcd_to_bin : ℕ → ℕ
bcd_to_bin val = bit_and val 15 + val >>> 4 * 10

-- `get_cmos_time`
pub get_cmos_time : (ℕ → ℕ) → CmosTime
get_cmos_time cmos = record {
  sec = bcd_to_bin (cmos_read cmos 0);
  min = bcd_to_bin (cmos_read cmos 2);
  hour = bcd_to_bin (cmos_read cmos 4);
  day = bcd_to_bin (cmos_read cmos 7);
  mon = bcd_to_bin (cmos_read cmos 8);
  year = bcd_to_bin (cmos_read cmos 9);
  cen = bcd_to_bin (cmos_read cmos 0x32);
}

abbrev pub timer_mode : ℕ
timer_mode = 0x43

abbrev pub timer0 : ℕ
timer0 = 0x40

abbrev pub timer2 : ℕ
timer2 = 0x42

abbrev pub beep_freq : ℕ
beep_freq = 0x533

-- `CLOCK_TICK_RATE / HZ`
abbrev pub timer_count : ℕ
timer_count = 1193182 / 60

abbrev pub write_timer : ℕ → ℕ → Clock → Clock
write_timer port value c = record c { writes = (port, u8 value) ∷ c.writes }

-- `beep`
pub beep : Clock → Clock
beep c0 =
    let c1 : Clock = record c0 { control = u8 (bit_or c0.control 3) } in
    let c2 : Clock = write_timer timer_mode 0xb6 c1 in
    let c3 : Clock = write_timer timer2 beep_freq c2 in write_timer timer2 (beep_freq >>> 8) c3

-- `unbeep`
pub unbeep : Clock → Clock
unbeep c = record c { control = u8 (bit_or c.control (2 ^ 32 - 1 - 3)) }

-- The format of the first line, and those of the second for a century below 10 and for the others.
abbrev pub time_format : List ℕ
time_format =
    0x20 ∷ 0x20 ∷ b'T' ∷ b':' ∷ 0x25 ∷ b'd' ∷ 0x20 ∷ b's' ∷ 0x20 ∷ 0x25 ∷ b'd' ∷ b':' ∷ 0x25 ∷ b'd'
    ∷ b':' ∷ 0x25 ∷ b'd' ∷ 0 ∷ []

abbrev pub date_format_zero : List ℕ
date_format_zero =
    0x20 ∷ 0x20 ∷ 0x25 ∷ b'd' ∷ b'0' ∷ 0x25 ∷ b'd' ∷ b'/' ∷ 0x25 ∷ b'd' ∷ b'/' ∷ 0x25 ∷ b'd' ∷ 0
    ∷ []

abbrev pub date_format : List ℕ
date_format =
    0x20 ∷ 0x20 ∷ 0x25 ∷ b'd' ∷ 0x25 ∷ b'd' ∷ b'/' ∷ 0x25 ∷ b'd' ∷ b'/' ∷ 0x25 ∷ b'd' ∷ 0 ∷ []

-- The two lines of the screen, as `vsprintf` makes them for `text_out`.
pub time_line : Clock → Option (List ℕ)
unfolding vsprintf
time_line c = vsprintf time_format (
    number c.clocktick
    ∷ number c.clocktime.hour
    ∷ number c.clocktime.min
    ∷ number c.clocktime.sec
    ∷ [])

pub date_line : CmosTime → Option (List ℕ)
unfolding vsprintf
date_line t =
    vsprintf (if ltb t.cen 10 then date_format_zero else date_format)
      (number t.cen ∷ number t.year ∷ number t.mon ∷ number t.day ∷ [])

-- `clock_handler`: the state, and the two lines.
pub clock_handler : Clock → Clock × Option (List ℕ) × Option (List ℕ)
unfolding time_line date_line bill_process_time
clock_handler c =
    let counted : Clock = record c {
      clocktick = u32 (c.clocktick + 1);
      sched = bill_process_time c.sched;
      pics = record c.pics { flag = true };
    } in
    (counted, time_line counted, date_line counted.clocktime)

-- `clock_init`, with the address of `clock_handler`.
pub clock_init : (ℕ → ℕ) → ℕ → Clock → Clock
unfolding get_cmos_time
clock_init cmos handler c0 =
    let c1 : Clock = write_timer timer_mode 0x34 c0 in
    let c2 : Clock = write_timer timer0 timer_count c1 in
    let c3 : Clock = write_timer timer0 (timer_count >>> 8) c2 in
    record c3 {
      clocktick = 0;
      clocktime = get_cmos_time cmos;
      pics = enable_irq 0 (put_irq_handler 0 handler c3.pics);
    }
