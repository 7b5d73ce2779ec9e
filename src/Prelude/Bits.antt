-- ===== src/Prelude/Bits.antt =====
-- Laws of the native bit operations at variables: masks of low bits, disjoint fields, and a check
-- of all values below a bound by evaluation.
use Prim.Native.Nat.{
  ℕ, zero, suc, ◌+◌, ◌-◌, ◌*◌, ◌/◌, ◌%◌, ◌^◌, ◌≤◌, ◌<◌, min, max, bit_and, bit_or, digits,
  bit_and-bitwise, bit_or-bitwise,
}
use mathlib.Core.Path.{◌≡◌, refl, sym, ap, ◌∙◌}
use mathlib.Core.Logic.{◌⊎◌, inl, inr}
use mathlib.Core.Bool.{Bool, true, ◌&&◌}
use native.Mathlib.Nat.{
  pow-suc, one-le-pow, mul-add-mod_self_right, mod-eq_of_lt, mod-lt, div-add-mod,
}
use native.Mathlib.Omega.{arith}

unfoldable pub every : (ℕ → Bool) → ℕ → Bool
every p zero = true
every p (suc top) = every p top && p top

pub every-at : (p : ℕ → Bool) (bound : ℕ) → every p bound ≡ true → (x : ℕ) → x < bound → p x ≡ true
unfolding every
every-at p zero all x inside = absurd (omega arith)
every-at p (suc top) all x inside =
    let split : (x ≡ top) ⊎ (x < top) = omega arith in
    elim split [
      | inl last ↦ ap p last ∙ ground arith
      | inr before ↦ every-at p top (ground arith) x before
    ]

-- Any count of digits that is no less than the first number gives the same result.
module _ (z : ℕ → ℕ) (f : ℕ → ℕ → ℕ) where
  no_digits : (count b : ℕ) → digits z f count 0 b ≡ z b
  no_digits zero b = refl
  no_digits (suc count) b = refl

  enough : (n m a b : ℕ) → a ≤ n → a ≤ m → digits z f n a b ≡ digits z f m a b
  enough n m zero b p q = no_digits n b ∙ sym (no_digits m b)
  enough zero m (suc a) b p q = absurd (omega arith)
  enough (suc n) zero (suc a) b p q = absurd (omega arith)
  enough (suc n) (suc m) (suc a) b p q =
      ap (λ (t : ℕ). t * 2 + f (suc a % 2) (b % 2))
        (enough n m (suc a / 2) (b / 2) (omega arith) (omega arith))

  halve :
      (a b : ℕ)
      → digits z f (suc a) (suc a) b
        ≡ digits z f (suc a / 2) (suc a / 2) (b / 2) * 2 + f (suc a % 2) (b % 2)
  halve a b =
      ap (λ (t : ℕ). t * 2 + f (suc a % 2) (b % 2))
        (enough a (suc a / 2) (suc a / 2) (b / 2) (omega arith) (omega arith))

pub and_halve :
    (a b : ℕ) → bit_and (suc a) b ≡ bit_and (suc a / 2) (b / 2) * 2 + min (suc a % 2) (b % 2)
and_halve a b = omega (
  arith,
  bit_and-bitwise (suc a) b,
  bit_and-bitwise (suc a / 2) (b / 2),
  halve (λ b. zero) min a b,
)

or_halve : (a b : ℕ) → bit_or (suc a) b ≡ bit_or (suc a / 2) (b / 2) * 2 + max (suc a % 2) (b % 2)
or_halve a b =
    omega
      (arith, bit_or-bitwise (suc a) b, bit_or-bitwise (suc a / 2) (b / 2), halve (λ b. b) max a b)

pub zero-and : (b : ℕ) → bit_and 0 b ≡ 0
zero-and b = bit_and-bitwise 0 b

pub zero-or : (b : ℕ) → bit_or 0 b ≡ b
zero-or b = bit_or-bitwise 0 b

mod_double : (x p : ℕ) → 0 < p → x % (p * 2) ≡ x / 2 % p * 2 + x % 2
mod_double x p h =
    ap (λ (t : ℕ). t % (p * 2)) (regroup)
    ∙ mul-add-mod_self_right (x / 2 / p) (p * 2) (x / 2 % p * 2 + x % 2)
    ∙ mod-eq_of_lt (omega (arith, mod-lt (x / 2) h))
  where
    regroup : x ≡ x / 2 / p * (p * 2) + (x / 2 % p * 2 + x % 2)
    regroup = omega (arith, ap (λ (t : ℕ). t * 2) (div-add-mod (x / 2) p))

-- `a & ((1 << k) - 1)` is the remainder by `2 ^ k`.
pub and-low : (k a : ℕ) → bit_and a (2 ^ k - 1) ≡ a % 2 ^ k
and-low k zero = rw zero-and (omega (arith, one-le-pow k 2))
and-low zero (suc a) = and_zero_upto (suc a) (suc a) (omega arith)
  where
    and_zero_upto : (n x : ℕ) → x ≤ n → bit_and x 0 ≡ x % 1
    and_zero_upto n zero h = rw zero-and (omega arith)
    and_zero_upto zero (suc x) h = absurd (omega arith)
    and_zero_upto (suc n) (suc x) h =
        omega (arith, and_halve x 0, and_zero_upto n (suc x / 2) (omega arith))
and-low (suc k) (suc a) = ground (
  arith,
  and_halve a (2 ^ suc k - 1),
  pow-suc 2 k,
  one-le-pow k 2,
  and-low k (suc a / 2),
  mod_double (suc a) (2 ^ k),
)

or_step : (a b : ℕ) → bit_or a b ≡ bit_or (a / 2) (b / 2) * 2 + max (a % 2) (b % 2)
or_step zero b = omega (arith, zero-or b, zero-or (b / 2))
or_step (suc a) b = or_halve a b

or_zero_upto : (n a : ℕ) → a ≤ n → bit_or a 0 ≡ a
or_zero_upto n zero h = zero-or 0
or_zero_upto zero (suc a) h = absurd (omega arith)
or_zero_upto (suc n) (suc a) h =
    omega (arith, or_halve a 0, or_zero_upto n (suc a / 2) (omega arith))

-- `(q << k) | r` is a sum where `r` has at most `k` bits.
pub or-field : (k q r : ℕ) → r < 2 ^ k → bit_or (q * 2 ^ k) r ≡ q * 2 ^ k + r
or-field zero q r h = ground (arith, or_zero_upto q q)
or-field (suc k) q r h = ground (
  arith,
  or_step (q * 2 ^ suc k) r,
  ap (λ (t : ℕ). q * t) (pow-suc 2 k),
  pow-suc 2 k,
  or-field k q (r / 2),
)
