-- ===== src/Sched/Chain.antt =====
-- The processes that the `next` pointers lead through.
use myos_ia.Prelude.{
  ℕ, ◌≡◌, refl, Bool, true, false, ◌||◌, none, some, List, [], ◌∷◌, ◌++◌, arith, ◌==◌,
  if◌then◌else◌,
}
use myos_ia.Sched.{Ptr, State, update, idle_task}

abbrev pub has : ℕ → List ℕ → Bool
has a [] = false
has a (x ∷ xs) = (a == x) || has a xs

abbrev pub Distinct : List ℕ → Type 0
Distinct [] = Unit
Distinct (x ∷ xs) = (has x xs ≡ false) × Distinct xs

-- From `p` the pointers lead through `xs` to NULL.
abbrev pub Chain : (ℕ → Ptr) → Ptr → List ℕ → Type 0
Chain next p [] = p ≡ none
Chain next p (x ∷ xs) = (p ≡ some x) × Chain next (next x) xs

abbrev pub last_or : ℕ → List ℕ → ℕ
last_or d [] = d
last_or d (x ∷ xs) = last_or x xs

-- A tail pointer is meaningful while the queue is not empty.
abbrev pub EndsAt : Ptr → List ℕ → Type 0
EndsAt t [] = Unit
EndsAt t (x ∷ xs) = t ≡ some (last_or x xs)

abbrev pub erase : ℕ → List ℕ → List ℕ
erase a [] = []
erase a (x ∷ xs) = if x == a then xs else x ∷ erase a xs

-- The ready queue of `s` holds the processes `xs`, first to run first.
pub record IsQueue (s : State) (xs : List ℕ) : Type 0 where
  pub chain : Chain s.next s.ready_head xs
  pub ends : EndsAt s.ready_tail xs
  pub distinct : Distinct xs
  pub no_idle : has idle_task xs ≡ false

pub has-append : (a : ℕ) (xs ys : List ℕ) → has a (xs ++ ys) ≡ (has a xs || has a ys)
has-append a [] ys = refl
has-append a (x ∷ xs) ys = ground (arith, has-append a xs ys)

pub has-last_or : (x : ℕ) (xs : List ℕ) → has (last_or x xs) (x ∷ xs) ≡ true
has-last_or x [] = ground arith
has-last_or x (y ∷ xs) = ground (arith, has-last_or y xs)

pub Distinct-snoc :
    (xs : List ℕ) (r : ℕ) → Distinct xs → has r xs ≡ false → Distinct (xs ++ (r ∷ []))
Distinct-snoc [] r d h = (refl, tt)
Distinct-snoc (x ∷ xs) r d h =
    (ground (arith, has-append x xs (r ∷ [])), Distinct-snoc xs r d.1 (ground arith))

pub EndsAt-tail : (t : Ptr) (x : ℕ) (xs : List ℕ) → EndsAt t (x ∷ xs) → EndsAt t xs
EndsAt-tail t x [] e = tt
EndsAt-tail t x (y ∷ xs) e = e

pub last_or-snoc : (x : ℕ) (xs : List ℕ) (r : ℕ) → last_or x (xs ++ (r ∷ [])) ≡ r
last_or-snoc x [] r = refl
last_or-snoc x (y ∷ xs) r = last_or-snoc y xs r

-- A write of `next` outside the chain leaves the chain as it is.
pub Chain-frame :
    (f : ℕ → Ptr) (p : Ptr) (xs : List ℕ) (i : ℕ) (q : Ptr)
    → Chain f p xs
    → has i xs ≡ false
    → Chain (update f i q) p xs
Chain-frame f p [] i q c h = c
Chain-frame f p (x ∷ xs) i q c h = (c.0, ground (arith, Chain-frame f (f x) xs i q))

-- Linking `r` behind the last process of a chain appends it.
pub Chain-snoc :
    (f : ℕ → Ptr) (p : Ptr) (x : ℕ) (xs : List ℕ) (r : ℕ)
    → Chain f p (x ∷ xs)
    → Distinct (x ∷ xs)
    → has r (x ∷ xs) ≡ false
    → Chain (update (update f (last_or x xs) (some r)) r none) p (x ∷ xs ++ (r ∷ []))
Chain-snoc f p x [] r c d h = ground arith
Chain-snoc f p x (y ∷ xs) r c d h =
    (c.0, ground (arith, Chain-snoc f (f x) y xs r c.1 d.1, has-last_or y xs))

pub update_self {ℓ} : {A : Type ℓ} (f : ℕ → A) (i : ℕ) (v : A) → update f i v i ≡ v
update_self f i v = let same : (i == i) ≡ true = ground arith in rw same refl

pub update_cases {ℓ} :
    {A : Type ℓ} (f : ℕ → A) (i : ℕ) (v : A) (p : ℕ)
    → update f i v p ≡ (if p == i then update f i v i else f p)
update_cases f i v p = rw (update_self f i v) refl
