-- ===== src/Cpu/Text.antt =====
-- The loops of `get_model_name` in ker/cpu.c on a string that begins with spaces.
use myos_ia.Prelude.{
  ℕ, zero, suc, ◌+◌, ◌<◌, ◌≡◌, ◌≢◌, refl, ap, sym, ◌∙◌, true, false, List, [], ◌∷◌, ◌++◌, arith,
  ◌==◌, if◌then◌else◌, get_or, set, length, length-append, replicate, set-append, get_or-append,
}
use mathlib.Core.List.{append_assoc, append-nil}
use myos_ia.Cpu.{move_left, pad}

-- The text of a string, up to its first 0, and a text without its leading spaces.
unfoldable pub text_of : List ℕ → List ℕ
text_of [] = []
text_of (x ∷ s) = let rest = text_of s in if x == 0 then [] else x ∷ rest

unfoldable pub drop_spaces : List ℕ → List ℕ
drop_spaces [] = []
drop_spaces (x ∷ s) = let rest = drop_spaces s in if x == 0x20 then rest else x ∷ s

unfoldable pub NoZero : List ℕ → Type 0
NoZero [] = Unit
NoZero (x ∷ s) = (x ≢ 0) × NoZero s

pub pad-zeros :
    (done ys : List ℕ)
    → pad (length ys) (length done) (done ++ ys) ≡ done ++ replicate (length ys) 0
unfolding pad
pad-zeros done [] = refl
pad-zeros done (y ∷ ys) =
    let longer : length done + 1 ≡ length (done ++ (0 ∷ [])) = sym (length-append done (0 ∷ [])) in
    ap (pad (length ys) (length done + 1))
      (set-append done y ys 0 ∙ sym (append_assoc done (0 ∷ []) ys))
    ∙ ap (λ q. pad (length ys) q ((done ++ (0 ∷ [])) ++ ys)) longer
    ∙ pad-zeros (done ++ (0 ∷ [])) ys
    ∙ append_assoc done (0 ∷ []) (replicate (length ys) 0)

get_or-behind :
    (done gap : List ℕ) (x : ℕ) (m : List ℕ)
    → get_or (done ++ (gap ++ (x ∷ m))) (length done + length gap) 0 ≡ x
get_or-behind done gap x m =
    rw (sym (append_assoc done gap (x ∷ m)), sym (length-append done gap))
      (get_or-append (done ++ gap) x m 0)

-- The text `t` behind a gap is moved to the front of the gap.
pub move_left-moved :
    (fuel : ℕ) (done gap t more : List ℕ)
    → NoZero t
    → 0 < length gap
    → length t < fuel
    → (ys : List ℕ) × (move_left fuel
          (length done + length gap)
          (length done)
          (done ++ (gap ++ (t ++ (0 ∷ more))))
        ≡ (length (done ++ t), (done ++ t) ++ ys))
      × (length ys ≡ length gap + suc (length more))
unfolding move_left NoZero
move_left-moved zero done gap t more nz some_gap f = absurd (omega arith)
move_left-moved (suc fuel) done [] t more nz some_gap f = absurd (omega arith)
move_left-moved (suc fuel) done (g ∷ gap) [] more nz some_gap f =
    let gs : List ℕ = g ∷ gap in
    let ends : (get_or (done ++ (gs ++ (0 ∷ more))) (length done + length gs) 0 == 0) ≡ true =
      ap (λ v. v == 0) (get_or-behind done gs 0 more) in
    (gs ++ (0 ∷ more), rw (ends, append-nil done) refl, length-append gs (0 ∷ more))
move_left-moved (suc fuel) done (g ∷ gap) (x ∷ t) more nz some_gap f =
    let gs : List ℕ = g ∷ gap in
    let m : List ℕ = t ++ (0 ∷ more) in
    let p : ℕ = length done + length gs in
    let at : get_or (done ++ (gs ++ (x ∷ m))) p 0 ≡ x = get_or-behind done gs x m in
    let goes_on : (x == 0) ≡ false = ground (arith, nz.0) in
    let moved : set (done ++ (gs ++ (x ∷ m))) (length done) x
        ≡ (done ++ (x ∷ [])) ++ ((gap ++ (x ∷ [])) ++ m) =
      set-append done g (gap ++ (x ∷ m)) x
      ∙ ap (λ r. done ++ (x ∷ r)) (sym (append_assoc gap (x ∷ []) m))
      ∙ sym (append_assoc done (x ∷ []) ((gap ++ (x ∷ [])) ++ m)) in
    let d : length (done ++ (x ∷ [])) ≡ length done + 1 = length-append done (x ∷ []) in
    let g' : length (gap ++ (x ∷ [])) ≡ length gap + 1 = length-append gap (x ∷ []) in
    let (ys, run, len) =
      move_left-moved fuel (done ++ (x ∷ [])) (gap ++ (x ∷ [])) t more nz.1 (omega (arith, g'))
        (omega arith) in
    let q : length (done ++ (x ∷ [])) + length (gap ++ (x ∷ [])) ≡ p + 1 = omega (arith, d, g') in
    (
      ys,
      rw (at, goes_on, moved, sym q, sym d, run)
          (ap (λ r. (length r, r ++ ys)) (append_assoc done (x ∷ []) t)),
      omega (arith, len, g'),
    )
