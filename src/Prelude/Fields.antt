-- ===== src/Prelude/Fields.antt =====
-- Laws of `bit_and` on numbers that are split at a bit: the high part, the complement, the lowest
-- bit that is set.
use Prim.Native.Nat.{ℕ, zero, suc, ◌+◌, ◌-◌, ◌*◌, ◌/◌, ◌%◌, ◌^◌, ◌<◌, min, bit_and}
use mathlib.Core.Path.{◌≡◌, ap, ◌∙◌}
use native.Mathlib.Nat.{pow-suc, one-le-pow, mod-eq_of_lt}
use native.Mathlib.Omega.{arith}
use myos_ia.Prelude.Bits.{and_halve, zero-and, and-low}

pub and_step : (a b : ℕ) → bit_and a b ≡ bit_and (a / 2) (b / 2) * 2 + min (a % 2) (b % 2)
and_step zero b = omega (arith, zero-and b, zero-and (b / 2))
and_step (suc a) b = and_halve a b

-- Below the bit `k` the second operand has no bits.
pub and-field :
    (k a b r : ℕ) → r < 2 ^ k → bit_and (a * 2 ^ k + r) (b * 2 ^ k) ≡ bit_and a b * 2 ^ k
and-field zero a b r h = grind arith
and-field (suc k) a b r h = ground (
  arith,
  and_step (a * 2 ^ suc k + r) (b * 2 ^ suc k),
  ap (λ (t : ℕ). a * t) (pow-suc 2 k),
  ap (λ (t : ℕ). b * t) (pow-suc 2 k),
  ap (λ (t : ℕ). bit_and a b * t) (pow-suc 2 k),
  pow-suc 2 k,
  and-field k a b (r / 2),
)

-- Two numbers that add up to all ones below the bit `k` have no bit in common.
pub and_complement : (k m c : ℕ) → m + c ≡ 2 ^ k - 1 → bit_and m c ≡ 0
and_complement zero m c h =
    let none : m ≡ 0 = omega arith in ap (λ (t : ℕ). bit_and t c) none ∙ zero-and c
and_complement (suc k) m c h = omega (
  arith,
  and_step m c,
  pow-suc 2 k,
  one-le-pow k 2,
  and_complement k (m / 2) (c / 2) (omega (arith, pow-suc 2 k, one-le-pow k 2)),
)

-- `a & ~((1 << k) - 1)`, of a number below `2 ^ (m + k)`.
pub and-high :
    (k m q r : ℕ)
    → r < 2 ^ k
    → q < 2 ^ m
    → bit_and (q * 2 ^ k + r) ((2 ^ m - 1) * 2 ^ k) ≡ q * 2 ^ k
and-high k m q r hr hq =
    and-field k q (2 ^ m - 1) r hr ∙ ap (λ (t : ℕ). t * 2 ^ k) (and-low m q ∙ mod-eq_of_lt hq)

-- The lowest bit that is set in `2 m + 1` times a power of two.
pub and-lowest :
    (k j m c : ℕ) → m + c ≡ 2 ^ j - 1 → bit_and ((m * 2 + 1) * 2 ^ k) ((c * 2 + 1) * 2 ^ k) ≡ 2 ^ k
and-lowest k j m c sum =
    let one : bit_and (m * 2 + 1) (c * 2 + 1) ≡ 1 =
      omega (arith, and_step (m * 2 + 1) (c * 2 + 1), ap (λ (t : ℕ). t * 2) (halves)) in
    let positive : 0 < 2 ^ k = omega (arith, one-le-pow k 2) in
    let field = and-field k (m * 2 + 1) (c * 2 + 1) 0 positive in
    grind (arith, field, ap (λ (t : ℕ). t * 2 ^ k) one)
  where
    halves : bit_and ((m * 2 + 1) / 2) ((c * 2 + 1) / 2) ≡ 0
    halves = and_complement j ((m * 2 + 1) / 2) ((c * 2 + 1) / 2) (omega (arith, sum))
