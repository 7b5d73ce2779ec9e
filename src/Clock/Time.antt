-- ===== src/Clock/Time.antt =====
-- The time of the CMOS in ker/clock.c, and what `clock_init` makes of it.
use myos_ia.Prelude.{ℕ, ◌+◌, ◌*◌, ◌/◌, ◌%◌, ◌<◌, ◌≡◌, refl, ap, ◌∙◌, bit_or, ◌==◌, ==_iff}
use myos_ia.Prelude.Bits.{every, every-at}
use myos_ia.Clock.{CmosTime, bcd_to_bin, get_cmos_time}

-- A number below 100 as two decimal digits in a byte.
abbrev pub bcd : ℕ → ℕ
bcd n = n / 10 * 16 + n % 10

bcd_to_bin-bcd : (n : ℕ) → n < 100 → bcd_to_bin (bcd n) ≡ n
unfolding every
bcd_to_bin-bcd n h =
    (==_iff (bcd_to_bin (bcd n)) n).0 (every-at (λ n. bcd_to_bin (bcd n) == n) 100 refl n h)

-- The seven registers of the clock hold a time, in binary-coded decimal.
pub record Holds (cmos : ℕ → ℕ) (t : CmosTime) : Type 0 where
  pub sec : (cmos (bit_or 0 0x80) ≡ bcd t.sec) × (t.sec < 100)
  pub min : (cmos (bit_or 2 0x80) ≡ bcd t.min) × (t.min < 100)
  pub hour : (cmos (bit_or 4 0x80) ≡ bcd t.hour) × (t.hour < 100)
  pub day : (cmos (bit_or 7 0x80) ≡ bcd t.day) × (t.day < 100)
  pub mon : (cmos (bit_or 8 0x80) ≡ bcd t.mon) × (t.mon < 100)
  pub year : (cmos (bit_or 9 0x80) ≡ bcd t.year) × (t.year < 100)
  pub cen : (cmos (bit_or 0x32 0x80) ≡ bcd t.cen) × (t.cen < 100)

read_bcd : (v n : ℕ) → (v ≡ bcd n) × (n < 100) → bcd_to_bin v ≡ n
read_bcd v n (is, small) = ap bcd_to_bin is ∙ bcd_to_bin-bcd n small

-- `get_cmos_time` gives back the time that the clock of the CMOS holds.
pub get_cmos_time-Holds : (cmos : ℕ → ℕ) (t : CmosTime) → Holds cmos t → get_cmos_time cmos ≡ t
unfolding get_cmos_time
get_cmos_time-Holds cmos t h = λ i. record {
  sec = read_bcd (cmos (bit_or 0 0x80)) t.sec h.sec i;
  min = read_bcd (cmos (bit_or 2 0x80)) t.min h.min i;
  hour = read_bcd (cmos (bit_or 4 0x80)) t.hour h.hour i;
  day = read_bcd (cmos (bit_or 7 0x80)) t.day h.day i;
  mon = read_bcd (cmos (bit_or 8 0x80)) t.mon h.mon i;
  year = read_bcd (cmos (bit_or 9 0x80)) t.year h.year i;
  cen = read_bcd (cmos (bit_or 0x32 0x80)) t.cen h.cen i;
}
