-- ===== src/Clock/Ticks.antt =====
-- What the clock interrupts of ker/clock.c count, and the speaker.
use myos_ia.Prelude.{
  ℕ, zero, suc, ◌+◌, ◌%◌, ◌^◌, ◌<◌, ◌≡◌, refl, ◌∙◌, arith, bit_or, ◌==◌, ==_iff, u8,
}
use myos_ia.Prelude.Bits.{every, every-at}
use myos_ia.Sched.Slice.{ticks}
use myos_ia.Clock.{Clock, clock_handler, beep, unbeep}

-- `n` clock interrupts.
pub interrupts : ℕ → Clock → Clock
interrupts zero c = c
interrupts (suc n) c = interrupts n (clock_handler c).0

-- `n` clock interrupts add `n` to the 32 bits of `clocktick`, leave the date and the time of the CMOS
-- as they were read, and bill the process that is current `n` times.
pub interrupts-counts :
    (n : ℕ) (c : Clock)
    → c.clocktick < 2 ^ 32
    → let d : Clock = interrupts n c in
      (d.clocktick ≡ (c.clocktick + n) % 2 ^ 32)
      × (d.clocktime ≡ c.clocktime)
      × (d.sched ≡ ticks n c.sched)
unfolding interrupts clock_handler
interrupts-counts zero c h = (omega arith, refl, refl)
interrupts-counts (suc n) c h =
    let (tick, time, sched) = interrupts-counts n (clock_handler c).0 (omega arith) in
    (tick ∙ omega arith, time, sched)

-- `unbeep` does not turn off what `beep` turned on: the two bits of the speaker stay set.
pub unbeep-beep : (c : Clock) → c.control < 256 → (unbeep (beep c)).control % 4 ≡ 3
unfolding unbeep beep every
unbeep-beep c h =
    let after : ℕ → ℕ = λ x. u8 (bit_or (u8 (bit_or x 3)) 0xfffffffc) % 4 in
    (==_iff (after c.control) 3).0 (every-at (λ x. after x == 3) 256 refl c.control h)
