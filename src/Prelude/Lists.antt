-- ===== src/Prelude/Lists.antt =====
-- Lists measured and indexed by native numbers, under the library's names.
use Prim.Native.Nat.{ℕ, zero, suc, ◌+◌, ◌-◌, ◌≤◌, ◌<◌, min}
use mathlib.Core.Path.{◌≡◌, refl, ap, ◌∙◌}
use mathlib.Core.Logic.{◌≢◌, ◌⊎◌, inl, inr}
use mathlib.Core.List.{List, [], ◌∷◌, ◌++◌}
use mathlib.Core.Option.{Option, none, some}
use native.Mathlib.Omega.{arith}

module _ {ℓ} {A : Type ℓ} where
  abbrev pub length : List A → ℕ
  length [] = 0
  length (x ∷ xs) = suc (length xs)

  abbrev pub get_elem? : List A → ℕ → Option A
  get_elem? [] i = none
  get_elem? (x ∷ xs) zero = some x
  get_elem? (x ∷ xs) (suc i) = get_elem? xs i

  abbrev pub get_or : List A → ℕ → A → A
  get_or [] i d = d
  get_or (x ∷ xs) zero d = x
  get_or (x ∷ xs) (suc i) d = get_or xs i d

  -- A write out of bounds changes nothing.
  abbrev pub set : List A → ℕ → A → List A
  set [] i v = []
  set (x ∷ xs) zero v = v ∷ xs
  set (x ∷ xs) (suc i) v = x ∷ set xs i v

  abbrev pub take : ℕ → List A → List A
  take zero xs = []
  take (suc n) [] = []
  take (suc n) (x ∷ xs) = x ∷ take n xs

  abbrev pub drop : ℕ → List A → List A
  drop zero xs = xs
  drop (suc n) [] = []
  drop (suc n) (x ∷ xs) = drop n xs

  abbrev pub replicate : ℕ → A → List A
  replicate zero a = []
  replicate (suc n) a = a ∷ replicate n a

module _ {ℓ} {A : Type ℓ} where
  pub length-append : (xs ys : List A) → length (xs ++ ys) ≡ length xs + length ys
  length-append [] ys = omega arith
  length-append (x ∷ xs) ys = omega (arith, length-append xs ys)

  pub length-set : (xs : List A) (i : ℕ) (v : A) → length (set xs i v) ≡ length xs
  length-set [] i v = refl
  length-set (x ∷ xs) zero v = refl
  length-set (x ∷ xs) (suc i) v = ap suc (length-set xs i v)

  pub length-replicate : (n : ℕ) (a : A) → length (replicate n a) ≡ n
  length-replicate zero a = refl
  length-replicate (suc n) a = ap suc (length-replicate n a)

  pub length-take : (n : ℕ) (xs : List A) → length (take n xs) ≡ min n (length xs)
  length-take zero xs = omega arith
  length-take (suc n) [] = omega arith
  length-take (suc n) (x ∷ xs) = omega (arith, length-take n xs)

  pub length-drop : (n : ℕ) (xs : List A) → length (drop n xs) ≡ length xs - n
  length-drop zero xs = omega arith
  length-drop (suc n) [] = omega arith
  length-drop (suc n) (x ∷ xs) = omega (arith, length-drop n xs)

  pub get_or-set_self :
      (xs : List A) (i : ℕ) (v d : A) → i < length xs → get_or (set xs i v) i d ≡ v
  get_or-set_self [] i v d h = absurd (omega arith)
  get_or-set_self (x ∷ xs) zero v d h = refl
  get_or-set_self (x ∷ xs) (suc i) v d h = get_or-set_self xs i v d (omega arith)

  pub get_or-set_ne :
      (xs : List A) (i j : ℕ) (v d : A) → i ≢ j → get_or (set xs i v) j d ≡ get_or xs j d
  get_or-set_ne [] i j v d h = refl
  get_or-set_ne (x ∷ xs) zero zero v d h = absurd (h refl)
  get_or-set_ne (x ∷ xs) zero (suc j) v d h = refl
  get_or-set_ne (x ∷ xs) (suc i) zero v d h = refl
  get_or-set_ne (x ∷ xs) (suc i) (suc j) v d h = get_or-set_ne xs i j v d (λ e. h (ap suc e))

  pub set-append :
      (us : List A) (x : A) (ws : List A) (v : A)
      → set (us ++ (x ∷ ws)) (length us) v ≡ us ++ (v ∷ ws)
  set-append [] x ws v = refl
  set-append (u ∷ us) x ws v = ap (λ t. u ∷ t) (set-append us x ws v)

  pub get_or-append :
      (us : List A) (x : A) (ws : List A) (d : A) → get_or (us ++ (x ∷ ws)) (length us) d ≡ x
  get_or-append [] x ws d = refl
  get_or-append (u ∷ us) x ws d = get_or-append us x ws d

  pub take-append : (n : ℕ) (us ws : List A) → take (length us + n) (us ++ ws) ≡ us ++ take n ws
  take-append n [] ws = ap (λ m. take m ws) {x = 0 + n} {y = n} (omega arith)
  take-append n (u ∷ us) ws =
      ap (λ m. take m (u ∷ (us ++ ws))) {x = suc (length us) + n} {y = suc (length us + n)}
        (omega arith)
      ∙ ap (λ t. u ∷ t) (take-append n us ws)

  pub replicate-append : (n m : ℕ) (a : A) → replicate n a ++ replicate m a ≡ replicate (n + m) a
  replicate-append zero m a = ap (λ k. replicate k a) {x = m} {y = 0 + m} (omega arith)
  replicate-append (suc n) m a =
      ap (λ t. a ∷ t) (replicate-append n m a)
      ∙ ap (λ k. replicate k a) {x = suc (n + m)} {y = suc n + m} (omega arith)

  pub take_past :
      (n : ℕ) (us ws : List A) → length us ≤ n → take n (us ++ ws) ≡ us ++ take (n - length us) ws
  take_past n us ws h =
      ap (λ m. take m (us ++ ws)) {x = n} {y = length us + (n - length us)} (omega arith)
      ∙ take-append (n - length us) us ws

module _ {ℓ} {A : Type ℓ} where
  pub get_or-front :
      (xs ys : List A) (i : ℕ) (d : A) → i < length xs → get_or (xs ++ ys) i d ≡ get_or xs i d
  get_or-front [] ys i d h = absurd (omega arith)
  get_or-front (x ∷ xs) ys zero d h = refl
  get_or-front (x ∷ xs) ys (suc i) d h = get_or-front xs ys i d (omega arith)

  -- Lists of the same length with the same entries are equal.
  pub get_or_ext :
      (xs ys : List A) (d : A)
      → length xs ≡ length ys
      → ((i : ℕ) → i < length xs → get_or xs i d ≡ get_or ys i d)
      → xs ≡ ys
  get_or_ext [] [] d len h = refl
  get_or_ext [] (y ∷ ys) d len h = absurd (omega arith)
  get_or_ext (x ∷ xs) [] d len h = absurd (omega arith)
  get_or_ext (x ∷ xs) (y ∷ ys) d len h =
      let head : x ≡ y = h 0 (omega arith) in
      ap (λ z. z ∷ xs) head
      ∙ ap (λ t. y ∷ t) (get_or_ext xs ys d (omega arith) (λ i lt. h (suc i) (omega arith)))

-- A loop that assigns to `n` consecutive entries from `i` on.
module _ {ℓ} {A : Type ℓ} where
  abbrev pub fill : (ℕ → A) → ℕ → ℕ → List A → List A
  fill f i zero xs = xs
  fill f i (suc n) xs = fill f (i + 1) n (set xs i (f i))

  pub length-fill : (f : ℕ → A) (i n : ℕ) (xs : List A) → length (fill f i n xs) ≡ length xs
  length-fill f i zero xs = refl
  length-fill f i (suc n) xs = length-fill f (i + 1) n (set xs i (f i)) ∙ length-set xs i (f i)

  pub get_or-fill_before :
      (f : ℕ → A) (i n j : ℕ) (xs : List A) (d : A)
      → j < i
      → get_or (fill f i n xs) j d ≡ get_or xs j d
  get_or-fill_before f i zero j xs d h = refl
  get_or-fill_before f i (suc n) j xs d h =
      get_or-fill_before f (i + 1) n j (set xs i (f i)) d (omega arith)
      ∙ get_or-set_ne xs i j (f i) d (omega arith)

  pub get_or-fill_after :
      (f : ℕ → A) (i n j : ℕ) (xs : List A) (d : A)
      → i + n ≤ j
      → get_or (fill f i n xs) j d ≡ get_or xs j d
  get_or-fill_after f i zero j xs d h = refl
  get_or-fill_after f i (suc n) j xs d h =
      get_or-fill_after f (i + 1) n j (set xs i (f i)) d (omega arith)
      ∙ get_or-set_ne xs i j (f i) d (omega arith)

  pub get_or-fill :
      (f : ℕ → A) (i n j : ℕ) (xs : List A) (d : A)
      → i ≤ j
      → j < i + n
      → j < length xs
      → get_or (fill f i n xs) j d ≡ f j
  get_or-fill f i zero j xs d lo hi len = absurd (omega arith)
  get_or-fill f i (suc n) j xs d lo hi len =
      let split : (j ≡ i) ⊎ (i < j) = omega arith in
      elim split [
        | inl here ↦ rw here (
            get_or-fill_before f (i + 1) n i (set xs i (f i)) d (omega arith)
            ∙ get_or-set_self xs i (f i) d (omega arith))
        | inr later ↦
            get_or-fill f (i + 1) n j (set xs i (f i)) d (omega arith) (omega arith)
              (omega (arith, length-set xs i (f i)))
      ]
