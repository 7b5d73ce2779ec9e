-- ===== src/Pci/Order.antt =====
-- The functions of bus 0 in the order in which ker/pci.c asks for them, and the first 18 of those
-- that are there.
use myos_ia.Prelude.{
  ℕ, zero, suc, ◌+◌, ◌≡◌, refl, ap, sym, ◌∙◌, Bool, true, false, List, [], ◌∷◌, ◌++◌, arith, ltb,
  if◌then◌else◌, length, take, Bool-cases, inl, inr,
}
use mathlib.Core.List.{append-nil, append_assoc}
use myos_ia.Pci.{PciDev, slot_size, no_device}
use myos_ia.Pci.Host.{config_base}

-- The function `f` of the device `d` on bus 0.
abbrev pub at : PciDev → ℕ × ℕ → PciDev
at tmp (d, f) = record tmp { bus = 0; device = d; func = f }

abbrev pub absent_at : (ℕ → ℕ) → PciDev → ℕ × ℕ → Bool
absent_at regs tmp p = no_device (regs (config_base (at tmp p)))

-- The functions of a list that are there.
unfoldable pub answering : (ℕ → ℕ) → PciDev → List (ℕ × ℕ) → List (ℕ × ℕ)
answering regs tmp [] = []
answering regs tmp (p ∷ ps) =
    let rest = answering regs tmp ps in if absent_at regs tmp p then rest else p ∷ rest

-- All functions in the order of the scan: the functions from `f` on of the device `d`, and the
-- devices from `d` on.
abbrev pub functions : ℕ → ℕ → ℕ → List (ℕ × ℕ)
functions d f zero = []
functions d f (suc n) = (d, f) ∷ functions d (f + 1) n

abbrev pub devices : ℕ → ℕ → List (ℕ × ℕ)
devices d zero = []
devices d (suc n) = functions d 0 8 ++ devices (d + 1) n

-- One more of the list `ps` of at most 18 functions.
abbrev pub keep : List (ℕ × ℕ) → ℕ × ℕ → List (ℕ × ℕ)
keep ps p = if ltb (length ps) slot_size then ps ++ (p ∷ []) else ps

unfoldable pub keep_all : (ℕ → ℕ) → PciDev → List (ℕ × ℕ) → List (ℕ × ℕ) → List (ℕ × ℕ)
keep_all regs tmp ps [] = ps
keep_all regs tmp ps (q ∷ qs) =
    keep_all regs tmp (if absent_at regs tmp q then ps else keep ps q) qs

pub keep_all-append :
    (regs : ℕ → ℕ) (tmp : PciDev) (ps qs rs : List (ℕ × ℕ))
    → keep_all regs tmp (keep_all regs tmp ps qs) rs ≡ keep_all regs tmp ps (qs ++ rs)
unfolding keep_all
keep_all-append regs tmp ps [] rs = refl
keep_all-append regs tmp ps (q ∷ qs) rs =
    keep_all-append regs tmp (if absent_at regs tmp q then ps else keep ps q) qs rs

module _ {ℓ} {A : Type ℓ} where
  take_nil : (n : ℕ) → take {A = A} n [] ≡ []
  take_nil zero = refl
  take_nil (suc n) = refl

  take_snoc :
      (n : ℕ) (xs : List A) (x : A)
      → (if ltb (length (take n xs)) n then take n xs ++ (x ∷ []) else take n xs)
        ≡ take n (xs ++ (x ∷ []))
  take_snoc zero xs x = refl
  take_snoc (suc n) [] x =
      let test : ltb 0 (suc n) ≡ true = ground arith in rw (test, take_nil n) refl
  take_snoc (suc n) (y ∷ xs) x =
      let kept : List A = take n xs in
      elim (Bool-cases (ltb (length kept) n)) [
        | inl h ↦
            let test : ltb (suc (length kept)) (suc n) ≡ true = ground arith in
            rw test (ap (λ t. y ∷ t) (rw h at (take_snoc n xs x)))
        | inr h ↦
            let test : ltb (suc (length kept)) (suc n) ≡ false = ground arith in
            rw test (ap (λ t. y ∷ t) (rw h at (take_snoc n xs x)))
      ]

-- What was kept are the first 18 of the functions that are there.
pub keep_all-take :
    (regs : ℕ → ℕ) (tmp : PciDev) (xs qs : List (ℕ × ℕ))
    → keep_all regs tmp (take slot_size xs) qs ≡ take slot_size (xs ++ answering regs tmp qs)
unfolding keep_all answering
keep_all-take regs tmp xs [] = ap (take slot_size) (sym (append-nil xs))
keep_all-take regs tmp xs (q ∷ qs) =
    let rest : List (ℕ × ℕ) = answering regs tmp qs in
    elim (Bool-cases (absent_at regs tmp q)) [
      | inl h ↦ rw h (keep_all-take regs tmp xs qs)
      | inr h ↦
          rw (h, take_snoc slot_size xs q)
            (keep_all-take regs tmp (xs ++ (q ∷ [])) qs
              ∙ ap (take slot_size) (append_assoc xs (q ∷ []) rest))
    ]
