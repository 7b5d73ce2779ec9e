-- ===== src/Console/Lines.antt =====
-- The lines of the screen that `scroll_screen` of ker/console.c moves up.
use myos_ia.Prelude.{
  get_or-front, ℕ, zero, suc, ◌+◌, ◌<◌, ◌≤◌, ◌≡◌, refl, ap, ◌∙◌, List, [], ◌∷◌, ◌++◌, arith, ltb,
  if◌then◌else◌, Bool-cases, inl, inr, length, length-append, length-take, length-drop,
  length-replicate, get_or, take, drop, replicate,
}
use myos_ia.Console.{Console, scroll_screen}

get_or-take : (n : ℕ) (xs : List ℕ) (i d : ℕ) → i < n → get_or (take n xs) i d ≡ get_or xs i d
get_or-take zero xs i d h = absurd (omega arith)
get_or-take (suc n) [] i d h = refl
get_or-take (suc n) (x ∷ xs) zero d h = refl
get_or-take (suc n) (x ∷ xs) (suc i) d h = get_or-take n xs i d (omega arith)

get_or-drop : (n : ℕ) (xs : List ℕ) (i d : ℕ) → get_or (drop n xs) i d ≡ get_or xs (n + i) d
get_or-drop zero xs i d = ap (λ j. get_or xs j d) {x = i} {y = 0 + i} (omega arith)
get_or-drop (suc n) [] i d = refl
get_or-drop (suc n) (x ∷ xs) i d =
    let step : suc n + i ≡ suc (n + i) = omega arith in rw step (get_or-drop n xs i d)

get_or-zeros : (xs : List ℕ) (n i : ℕ) → length xs ≤ i → get_or (xs ++ replicate n 0) i 0 ≡ 0
get_or-zeros [] zero i h = refl
get_or-zeros [] (suc n) zero h = refl
get_or-zeros [] (suc n) (suc i) h = get_or-zeros [] n i (omega arith)
get_or-zeros (x ∷ xs) n zero h = absurd (omega arith)
get_or-zeros (x ∷ xs) n (suc i) h = get_or-zeros xs n i (omega arith)

-- Lines of `w` bytes, `n` bytes in all, that move up by one line.
pub moved_up : ℕ → ℕ → List ℕ → List ℕ
moved_up n w xs = take n (drop w xs) ++ replicate w 0

pub length-moved_up : (n w : ℕ) (xs : List ℕ) → length xs ≡ w + n → length (moved_up n w xs) ≡ w + n
unfolding moved_up
length-moved_up n w xs h =
    let zero_byte : ℕ = 0 in
    omega (
      arith,
      length-append (take n (drop w xs)) (replicate w zero_byte),
      length-take n (drop w xs),
      length-drop w xs,
      length-replicate w zero_byte,
    )

pub get_or-moved_up :
    (n w k : ℕ) (xs : List ℕ)
    → length xs ≡ w + n
    → get_or (moved_up n w xs) k 0 ≡ (if ltb k n then get_or xs (k + w) 0 else 0)
unfolding moved_up
get_or-moved_up n w k xs h =
    let front : List ℕ = take n (drop w xs) in
    let long : length front ≡ n = omega (arith, length-take n (drop w xs), length-drop w xs) in
    elim (Bool-cases (ltb k n)) [
      | inl above ↦ rw above (
          get_or-front front (replicate w 0) k 0 (ground arith)
          ∙ get_or-take n (drop w xs) k 0 (ground arith)
          ∙ get_or-drop w xs k 0
          ∙ ap (λ j. get_or xs j 0) {x = w + k} {y = k + w} (omega arith))
      | inr last ↦ rw last (get_or-zeros front w k (ground arith))
    ]

pub scroll_screen_lem : (con : Console) → (scroll_screen con).screen ≡ moved_up 3840 160 con.screen
unfolding scroll_screen moved_up
scroll_screen_lem con = refl
