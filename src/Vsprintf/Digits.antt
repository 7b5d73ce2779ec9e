-- ===== src/Vsprintf/Digits.antt =====
-- The digits that ker/vsprintf.c writes for a number.
use native.Mathlib.Nat.{pow-suc}
use myos_ia.Prelude.{
  ℕ, zero, suc, ◌+◌, ◌-◌, ◌*◌, ◌/◌, ◌^◌, ◌<◌, ◌≤◌, ◌≡◌, ◌≢◌, refl, ap, ◌∙◌, true, false, List, [],
  ◌∷◌, ◌++◌, arith, ◌==◌, Bool-cases, inl, inr, length, get_or,
}
use myos_ia.Vsprintf.{digits, int_to_str}
use myos_ia.Vsprintf.Reverse.{reversed, length-reversed, get_or-reversed, in_order-reversed}

-- What a decimal text means.
abbrev pub value : ℕ → List ℕ → ℕ
value acc [] = acc
value acc (c ∷ cs) = value (acc * 10 + (c - 48)) cs

abbrev pub AllDigits : List ℕ → Type 0
AllDigits [] = Unit
AllDigits (c ∷ cs) = ((48 ≤ c) × (c ≤ 57)) × AllDigits cs

low_value : List ℕ → ℕ
low_value [] = 0
low_value (c ∷ cs) = (c - 48) + low_value cs * 10

value-snoc :
    (acc : ℕ) (xs : List ℕ) (c : ℕ) → value acc (xs ++ (c ∷ [])) ≡ value acc xs * 10 + (c - 48)
value-snoc acc [] c = refl
value-snoc acc (x ∷ xs) c = value-snoc (acc * 10 + (x - 48)) xs c

value-reversed : (xs : List ℕ) → value 0 (reversed xs) ≡ low_value xs
unfolding low_value
value-reversed [] = refl
value-reversed (c ∷ cs) = omega (arith, value-snoc 0 (reversed cs) c, value-reversed cs)

AllDigits-snoc : (xs : List ℕ) (c : ℕ) → AllDigits xs → 48 ≤ c → c ≤ 57 → AllDigits (xs ++ (c ∷ []))
AllDigits-snoc [] c a lo hi = ((lo, hi), tt)
AllDigits-snoc (x ∷ xs) c a lo hi = (a.0, AllDigits-snoc xs c a.1 lo hi)

reversed-AllDigits : (xs : List ℕ) → AllDigits xs → AllDigits (reversed xs)
reversed-AllDigits [] a = tt
reversed-AllDigits (x ∷ xs) a =
    AllDigits-snoc (reversed xs) x (reversed-AllDigits xs a.1) a.0.0 a.0.1

digits-AllDigits : (fuel d : ℕ) → AllDigits (digits fuel d)
unfolding digits
digits-AllDigits zero d = tt
digits-AllDigits (suc fuel) d = elim (Bool-cases (d == 0)) [
  | inl done ↦ rw done tt
  | inr more ↦ rw more ((omega arith, omega arith), digits-AllDigits fuel (d / 10))
]

length-digits : (fuel d : ℕ) → length (digits fuel d) ≤ fuel
unfolding digits
length-digits zero d = omega arith
length-digits (suc fuel) d = ground (arith, length-digits fuel (d / 10))

low_value-digits : (fuel d : ℕ) → d < 10 ^ fuel → low_value (digits fuel d) ≡ d
unfolding digits low_value
low_value-digits zero d h = omega arith
low_value-digits (suc fuel) d h = elim (Bool-cases (d == 0)) [
  | inl done ↦ rw done (ground arith)
  | inr more ↦
      rw more (omega (arith, low_value-digits fuel (d / 10) (omega (arith, pow-suc 10 fuel))))
]

digits_zero : (fuel : ℕ) → digits fuel 0 ≡ []
unfolding digits
digits_zero zero = refl
digits_zero (suc fuel) = refl

-- The last of the digits, the highest one, is not 0.
highest-digit :
    (fuel d : ℕ)
    → 0 < d
    → d < 10 ^ fuel
    → (0 < length (digits fuel d)) × (get_or (digits fuel d) (length (digits fuel d) - 1) 0 ≢ 48)
unfolding digits
highest-digit zero d pos h = absurd (omega arith)
highest-digit (suc fuel) d pos h =
    let more : (d == 0) ≡ false = ground arith in
    elim (Bool-cases (d / 10 == 0)) [
      | inl last ↦
          let one_digit : d / 10 ≡ 0 = ground arith in
          let rest : digits fuel (d / 10) ≡ [] = ap (digits fuel) one_digit ∙ digits_zero fuel in
          rw (more, rest) (omega arith, λ x. omega arith)
      | inr rest ↦
          let (some_digits, top) =
            highest-digit fuel (d / 10) (ground arith) (omega (arith, pow-suc 10 fuel)) in
          let shift : suc (length (digits fuel (d / 10))) - 1
              ≡ suc (length (digits fuel (d / 10)) - 1) =
            omega arith in
          rw (more, shift) (omega arith, top)
    ]

int_to_str-reversed :
    (d : ℕ) → (d == 0) ≡ false → d < 10 ^ 10 → int_to_str d ≡ reversed (digits 10 d)
unfolding int_to_str
int_to_str-reversed d more h =
    let (some_digits, top) = highest-digit 10 d (ground arith) h in
    rw more (in_order-reversed (digits 10 d) some_digits)

int_to_str_zero : (d : ℕ) → (d == 0) ≡ true → int_to_str d ≡ 48 ∷ []
unfolding int_to_str
int_to_str_zero d nothing = rw nothing refl

-- For every `unsigned`, `int_to_str` writes decimal digits, at most ten of them, whose value is the
-- number, and begins with a 0 for the number 0 only.
pub int_to_str-value :
    (d : ℕ)
    → d < 2 ^ 32
    → (value 0 (int_to_str d) ≡ d)
      × AllDigits (int_to_str d)
      × (length (int_to_str d) ≤ 10)
      × ((get_or (int_to_str d) 0 0 == 48) ≡ (d == 0))
int_to_str-value d h = elim (Bool-cases (d == 0)) [
  | inl nothing ↦
      rw (int_to_str_zero d nothing, nothing)
        (ground arith, ((omega arith, omega arith), tt), omega arith, refl)
  | inr more ↦
      let low : List ℕ = digits 10 d in
      let (some_digits, top) = highest-digit 10 d (ground arith) (omega arith) in
      let first : get_or (reversed low) 0 0 ≡ get_or low (length low - 1) 0 =
        get_or-reversed low 0 some_digits
        ∙ ap (λ i. get_or low i 0) {x = length low - 1 - 0} {y = length low - 1} (omega arith) in
      rw (int_to_str-reversed d more (omega arith), more, first)
        (
          value-reversed low ∙ low_value-digits 10 d (omega arith),
          reversed-AllDigits low (digits-AllDigits 10 d),
          omega (arith, length-reversed low, length-digits 10 d),
          ground arith,
        )
]
