-- ===== src/Protect/Layers.antt =====
-- Two loops over a table with an assignment between them, as in `trap_init` of ker/protect.c.
use myos_ia.Prelude.{
  ℕ, ◌+◌, ◌<◌, ◌≤◌, ◌≡◌, List, arith, ltb, ◌==◌, if◌then◌else◌, Bool-cases, inl, inr, ◌∙◌, length,
  length-set, get_or, get_or-set_self, get_or-set_ne, set, fill, length-fill, get_or-fill,
  get_or-fill_before, get_or-fill_after,
}

-- Two loops with an assignment between them, to parts of a table that do not overlap.
abbrev layers : {A : Type 0} → (ℕ → A) → ℕ → ℕ → A → (ℕ → A) → ℕ → ℕ → (ℕ → A) → ℕ → A
layers f n v x g a m old i =
    if ltb i n
    then f i
    else if i == v
    then x
    else if ltb i a
    then old i
    else if ltb i (a + m)
    then g i
    else old i

pub fill-layers :
    {A : Type 0} (f : ℕ → A) (n v : ℕ) (x : A) (g : ℕ → A) (a m : ℕ) (xs : List A) (d : A) (i : ℕ)
    → n ≤ a
    → a + m ≤ v
    → v < length xs
    → i < length xs
    → get_or (fill g a m (set (fill f 0 n xs) v x)) i d
      ≡ layers f n v x g a m (λ j. get_or xs j d) i
fill-layers {A} f n v x g a m xs d i na mv vl il =
    let inner : List A = fill f 0 n xs in
    let middle : List A = set inner v x in
    let long_inner : length inner ≡ length xs = length-fill f 0 n xs in
    let long : length middle ≡ length xs = length-set inner v x ∙ long_inner in
    elim (Bool-cases (ltb i n)) [
      | inl first ↦ rw first (
          get_or-fill_before g a m i middle d (ground arith)
          ∙ get_or-set_ne inner v i x d (ground arith)
          ∙ get_or-fill f 0 n i xs d (omega arith) (ground arith) il)
      | inr past ↦ elim (Bool-cases (i == v)) [
        | inl here ↦
            let at : i ≡ v = ground arith in
            rw (past, here)
              (get_or-fill_after g a m i middle d (ground arith)
                ∙ rw at (get_or-set_self inner v x d (omega arith)))
        | inr there ↦
            let old : get_or middle i d ≡ get_or xs i d =
              get_or-set_ne inner v i x d (ground arith)
              ∙ get_or-fill_after f 0 n i xs d (ground arith) in
            elim (Bool-cases (ltb i a)) [
              | inl low ↦
                  rw (past, there, low) (get_or-fill_before g a m i middle d (ground arith) ∙ old)
              | inr high ↦ elim (Bool-cases (ltb i (a + m))) [
                | inl within ↦
                    rw (past, there, high, within)
                      (get_or-fill g a m i middle d (ground arith) (ground arith) (omega arith))
                | inr beyond ↦
                    rw (past, there, high, beyond)
                      (get_or-fill_after g a m i middle d (ground arith) ∙ old)
              ]
            ]
      ]
    ]
