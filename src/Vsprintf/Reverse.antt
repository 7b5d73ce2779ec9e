-- ===== src/Vsprintf/Reverse.antt =====
-- The loop of ker/vsprintf.c that turns the digits of a number around.

use myos_ia.Prelude.{
  get_or-front, get_or_ext, get_or-append, ℕ, zero, suc, ◌+◌, ◌-◌, ◌/◌, ◌<◌, ◌≤◌, ◌≡◌, ◌⊎◌, refl,
  ap, ◌∙◌, Bool, true, false, ◌||◌, ◌&&◌, List, [], ◌∷◌, ◌++◌, arith, ltb, leb, ◌==◌, if◌then◌else◌,
  Bool-cases, inl, inr, length, length-set, length-append, get_or, get_or-set_self, get_or-set_ne,
  set,
}
use myos_ia.Vsprintf.{swap, swap_loop, in_order}

length-swap : (i j : ℕ) (s : List ℕ) → length (swap i j s) ≡ length s
length-swap i j s =
    length-set (set s (i - j) (get_or s j 0)) j (get_or s (i - j) 0)
    ∙ length-set s (i - j) (get_or s j 0)

get_or-swap :
    (i j k : ℕ) (s : List ℕ)
    → j ≤ i
    → i < length s
    → get_or (swap i j s) k 0
      ≡ (if k == j then get_or s (i - j) 0 else if k == i - j then get_or s j 0 else get_or s k 0)
get_or-swap i j k s le h =
    let once : List ℕ = set s (i - j) (get_or s j 0) in
    let size : length once ≡ length s = length-set s (i - j) (get_or s j 0) in
    elim (Bool-cases (k == j)) [
      | inl low ↦
          let e : k ≡ j = ground arith in
          rw low (
            ap (λ m. get_or (swap i j s) m 0) e
            ∙ get_or-set_self once j (get_or s (i - j) 0) 0 (omega arith))
      | inr other ↦
          let rest : get_or (swap i j s) k 0 ≡ get_or once k 0 =
            get_or-set_ne once j k (get_or s (i - j) 0) 0 (ground arith) in
          elim (Bool-cases (k == i - j)) [
            | inl high ↦
                let e : k ≡ i - j = ground arith in
                rw (other, high)
                  (rest
                    ∙ ap (λ m. get_or once m 0) e
                    ∙ get_or-set_self s (i - j) (get_or s j 0) 0 (omega arith))
            | inr apart ↦
                rw (other, apart) (rest ∙ get_or-set_ne s (i - j) k (get_or s j 0) 0 (ground arith))
          ]
    ]

length-swap_loop : (n j i : ℕ) (s : List ℕ) → length (swap_loop n j i s) ≡ length s
unfolding swap_loop
length-swap_loop zero j i s = refl
length-swap_loop (suc n) j i s = length-swap_loop n (j + 1) i (swap i j s) ∙ length-swap i j s

-- Whether `n` rounds from `j` on move the character at `k`.
abbrev moves : ℕ → ℕ → ℕ → ℕ → Bool
moves n j i k = leb j k && (leb (j + k) i && (ltb k (j + n) || ltb i (j + n + k)))

get_or-swap_loop :
    (n j i k : ℕ) (s : List ℕ)
    → i < length s
    → j + n ≤ i / 2 + 1
    → k ≤ i
    → get_or (swap_loop n j i s) k 0 ≡ (if moves n j i k then get_or s (i - k) 0 else get_or s k 0)
unfolding swap_loop
get_or-swap_loop zero j i k s h fits inside =
    let stays : moves zero j i k ≡ false = ground arith in rw stays refl
get_or-swap_loop (suc n) j i k s h fits inside =
    let IH =
      get_or-swap_loop n (j + 1) i k (swap i j s) (omega (arith, length-swap i j s)) (omega arith)
        inside in
    let at_k = get_or-swap i j k s (omega arith) h in
    let at_mirror = get_or-swap i j (i - k) s (omega arith) h in
    IH ∙ elim (Bool-cases (k == j)) [
      | inl low ↦
          let inner : moves n (j + 1) i k ≡ false = ground arith in
          let outer : moves (suc n) j i k ≡ true = ground arith in
          let mirror : i - j ≡ i - k = ground arith in
          rw (inner, outer, at_k, low) (ap (λ m. get_or s m 0) mirror)
      | inr above ↦ elim (Bool-cases (k == i - j)) [
        | inl high ↦
            let inner : moves n (j + 1) i k ≡ false = ground arith in
            let outer : moves (suc n) j i k ≡ true = ground arith in
            let mirror : j ≡ i - k = ground arith in
            rw (inner, outer, at_k, above, high) (ap (λ m. get_or s m 0) mirror)
        | inr below ↦
            let same : moves n (j + 1) i k ≡ moves (suc n) j i k = ground arith in
            let not_low : (i - k == j) ≡ false = ground arith in
            let not_high : (i - k == i - j) ≡ false = ground arith in
            rw (same, at_k, above, below, at_mirror, not_low, not_high) refl
      ]
    ]

-- The list from its end.
abbrev pub reversed : List ℕ → List ℕ
reversed [] = []
reversed (x ∷ xs) = reversed xs ++ (x ∷ [])

pub length-reversed : (xs : List ℕ) → length (reversed xs) ≡ length xs
length-reversed [] = refl
length-reversed (x ∷ xs) = omega (arith, length-append (reversed xs) (x ∷ []), length-reversed xs)

pub get_or-reversed :
    (xs : List ℕ) (k : ℕ)
    → k < length xs
    → get_or (reversed xs) k 0 ≡ get_or xs (length xs - 1 - k) 0
get_or-reversed [] k h = absurd (omega arith)
get_or-reversed (x ∷ xs) k h =
    let size : length (reversed xs) ≡ length xs = length-reversed xs in
    let split : (k ≡ length xs) ⊎ (k < length xs) = omega arith in
    elim split [
      | inl last ↦
          let start : suc (length xs) - 1 - k ≡ 0 = omega arith in
          rw start (
            ap (λ i. get_or (reversed xs ++ (x ∷ [])) i 0) {x = k} {y = length (reversed xs)}
              (omega arith)
            ∙ get_or-append (reversed xs) x [] 0)
      | inr front ↦
          let step : suc (length xs) - 1 - k ≡ suc (length xs - 1 - k) = omega arith in
          rw step
            (get_or-front (reversed xs) (x ∷ []) k 0 (omega arith) ∙ get_or-reversed xs k front)
    ]

-- The loop that swaps in place turns the digits around.
pub in_order-reversed : (s : List ℕ) → 0 < length s → in_order s ≡ reversed s
unfolding in_order
in_order-reversed s h =
    let i : ℕ = length s - 1 in
    let n : ℕ = i / 2 + 1 in
    let size : length (swap_loop n 0 i s) ≡ length s = length-swap_loop n 0 i s in
    get_or_ext (swap_loop n 0 i s) (reversed s) 0 (omega (arith, length-reversed s)) (λ k lt.
      let all : moves n 0 i k ≡ true = ground arith in
      get_or-swap_loop n 0 i k s (omega arith) (omega arith) (omega arith)
      ∙ rw (all, get_or-reversed s k (omega arith)) refl)
