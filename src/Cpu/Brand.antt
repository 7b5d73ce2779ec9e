-- ===== src/Cpu/Brand.antt =====
-- The brand string that `get_model_name` of ker/cpu.c leaves, against the text without its leading
-- spaces.
use myos_ia.Prelude.{
  ℕ, zero, suc, ◌+◌, ◌-◌, ◌≤◌, ◌≡◌, ◌≢◌, refl, ap, sym, ◌∙◌, false, some, List, [], ◌∷◌, ◌++◌,
  arith, ◌==◌, ltb, length, length-append, length-replicate, replicate, drop, Bool-cases, inl, inr,
}
use mathlib.Core.List.{append_assoc}
use myos_ia.Cpu.{
  Registers, CpuInfo, bytes_of, skip_spaces, move_left, pad, trim, brand, get_model_name,
}
use myos_ia.Cpu.Text.{text_of, drop_spaces, NoZero, pad-zeros, move_left-moved}

-- A list with a 0 behind it is a text, a 0, and what follows it.
split_text :
    (xs : List ℕ)
    → (t : List ℕ) × (more : List ℕ) × (xs ++ (0 ∷ []) ≡ t ++ (0 ∷ more))
      × (text_of (xs ++ (0 ∷ [])) ≡ t)
      × NoZero t
unfolding text_of NoZero
split_text [] = ([], [], refl, refl, tt)
split_text (x ∷ xs) =
    let (t, more, whole, text, nz) = split_text xs in
    elim (Bool-cases (x == 0)) [
      | inl end ↦
          let is : x ≡ 0 = ground arith in
          ([], xs ++ (0 ∷ []), ap (λ v. v ∷ (xs ++ (0 ∷ []))) is, rw end refl, tt)
      | inr goes_on ↦ (
        x ∷ t,
        more,
        ap (λ r. x ∷ r) whole,
        rw goes_on (ap (λ r. x ∷ r) text),
        (ground arith, nz),
      )
    ]

-- A text that does not begin with a space.
abbrev Flush : List ℕ → Type 0
Flush [] = Unit
Flush (x ∷ s) = x ≢ 0x20

split_spaces :
    (t : List ℕ)
    → NoZero t
    → (n : ℕ) × (u : List ℕ) × (t ≡ replicate n 0x20 ++ u)
      × (drop_spaces t ≡ u)
      × NoZero u
      × Flush u
unfolding drop_spaces NoZero
split_spaces [] nz = (0, [], refl, refl, tt, tt)
split_spaces (x ∷ t) nz =
    let (n, u, whole, dropped, nz', flush) = split_spaces t nz.1 in
    elim (Bool-cases (x == 0x20)) [
      | inl space ↦
          let is : x ≡ 0x20 = ground arith in
          (suc n, u, (λ i. is i ∷ whole i), rw space dropped, nz', flush)
      | inr other ↦ (0, x ∷ t, refl, rw other refl, nz, ground arith)
    ]

skip_spaces-count :
    (n : ℕ) (u more : List ℕ) → Flush u → skip_spaces (replicate n 0x20 ++ (u ++ (0 ∷ more))) ≡ n
unfolding skip_spaces
skip_spaces-count zero [] more flush = refl
skip_spaces-count zero (x ∷ u) more flush =
    let other : (x == 0x20) ≡ false = ground (arith, flush) in rw other refl
skip_spaces-count (suc n) u more flush = ap suc (skip_spaces-count n u more flush)

text_of-front : (u more : List ℕ) → NoZero u → text_of (u ++ (0 ∷ more)) ≡ u
unfolding text_of NoZero
text_of-front [] more nz = refl
text_of-front (x ∷ u) more nz =
    let goes_on : (x == 0) ≡ false = ground (arith, nz.0) in
    rw goes_on (ap (λ r. x ∷ r) (text_of-front u more nz.1))

not_zero : (n : ℕ) → (suc n == 0) ≡ false
not_zero n = ground arith

-- What is left of 49 bytes that begin with spaces.
trim-spaces :
    (n : ℕ) (u more rest : List ℕ)
    → NoZero u
    → Flush u
    → length (replicate (suc n) 0x20 ++ (u ++ (0 ∷ more))) ≡ 49
    → text_of (trim (replicate (suc n) 0x20 ++ (u ++ (0 ∷ more))) ++ rest) ≡ u
unfolding trim
trim-spaces n u more rest nz flush len =
    let gap : List ℕ = replicate (suc n) 0x20 in
    let s : List ℕ = gap ++ (u ++ (0 ∷ more)) in
    let p : skip_spaces s ≡ suc n = skip_spaces-count (suc n) u more flush in
    let wide : length gap ≡ suc n = length-replicate (suc n) 0x20 in
    let parts : length s ≡ length gap + length (u ++ (0 ∷ more)) =
      length-append gap (u ++ (0 ∷ more)) in
    let behind : length (u ++ (0 ∷ more)) ≡ length u + suc (length more) =
      length-append u (0 ∷ more) in
    let (ys, run, left) =
      move_left-moved 50 [] gap u more nz (omega (arith, wide))
        (omega (arith, len, parts, behind)) in
    let finish : ℕ × List ℕ → List ℕ = λ r. pad (49 - r.0) r.0 r.1 in
    let test : (skip_spaces s == 0) ≡ false = ap (λ v. v == 0) p ∙ not_zero n in
    let at : skip_spaces s ≡ 0 + length gap = omega (arith, p, wide) in
    let rounds : 49 - length u ≡ length ys = omega (arith, len, parts, behind, left) in
    let trimmed : trim s ≡ u ++ replicate (length ys) 0 =
      rw (trim, test)
        (ap (λ p. finish (move_left 50 p 0 s)) at
          ∙ ap finish run
          ∙ ap (λ n. pad n (length u) (u ++ ys)) rounds
          ∙ pad-zeros u ys) in
    let k : ℕ = length gap + length more in
    let some_left : length ys ≡ suc k = omega (arith, left) in
    rw (trimmed, some_left)
      (ap text_of (append_assoc u (replicate (suc k) 0) rest)
        ∙ text_of-front u (replicate k 0 ++ rest) nz)

trim-text :
    (n : ℕ) (u more rest : List ℕ)
    → NoZero u
    → Flush u
    → length (replicate n 0x20 ++ (u ++ (0 ∷ more))) ≡ 49
    → text_of (trim (replicate n 0x20 ++ (u ++ (0 ∷ more))) ++ rest) ≡ u
unfolding trim
trim-text (suc n) u more rest nz flush len = trim-spaces n u more rest nz flush len
trim-text zero u more rest nz flush len =
    let test : skip_spaces (u ++ (0 ∷ more)) ≡ 0 = skip_spaces-count 0 u more flush in
    rw (trim, test)
      (ap text_of (append_assoc u (0 ∷ more) rest) ∙ text_of-front u (more ++ rest) nz)

-- On a processor that has a brand string, the text of `model_id` is that of the 48 bytes that
-- `cpuid` gives, up to the first 0, without its leading spaces.
pub get_model_name-brand :
    (cpuid : ℕ → Registers) (c : CpuInfo)
    → 0x80000004 ≤ (cpuid 0x80000000).eax
    → (d : CpuInfo) × (get_model_name cpuid c ≡ some d)
      × (text_of d.model_id ≡ drop_spaces (text_of (brand cpuid)))
unfolding get_model_name brand
get_model_name-brand cpuid c modern =
    let bytes : List ℕ =
      bytes_of (cpuid 0x80000002) ++ (bytes_of (cpuid 0x80000003) ++ bytes_of (cpuid 0x80000004)) in
    let (t, more, whole, text, nz) = split_text bytes in
    let (n, u, spaced, dropped, nz', flush) = split_spaces t nz in
    let rest : List ℕ = drop 49 c.model_id in
    let all : brand cpuid ≡ replicate n 0x20 ++ (u ++ (0 ∷ more)) =
      whole ∙ ap (λ v. v ++ (0 ∷ more)) spaced ∙ append_assoc (replicate n 0x20) u (0 ∷ more) in
    let reference : drop_spaces (text_of (brand cpuid)) ≡ u = ap drop_spaces text ∙ dropped in
    let branch : ltb (cpuid 0x80000000).eax 0x80000004 ≡ false = ground arith in
    (
      record c { model_id = trim (brand cpuid) ++ rest },
      rw branch refl,
      ap (λ s. text_of (trim s ++ rest)) all
          ∙ trim-text n u more rest nz' flush (ap length (sym all))
          ∙ sym reference,
    )
