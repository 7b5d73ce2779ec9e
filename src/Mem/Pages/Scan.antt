-- ===== src/Mem/Pages/Scan.antt =====
-- The search loop of `kmalloc` in ker/mem.c.
use myos_ia.Prelude.{
  ℕ, zero, suc, ◌+◌, ◌-◌, ◌<◌, ◌≤◌, ◌≡◌, ◌≢◌, ap, true, false, some, List, [], ◌∷◌, ◌++◌, arith,
  ◌==◌, Bool-cases, inl, inr, ◌∙◌, length, replicate,
}
use myos_ia.Mem.Pages.{page_cont, page_free, visit, scan, start_vars}

-- Words that begin no free run.
abbrev pub NoneFree : List ℕ → Type 0
NoneFree [] = Unit
NoneFree (w ∷ ws) = (w ≢ page_free) × NoneFree ws

-- Before the first free page the loop changes no variable.
pub scan-NoneFree :
    (count : ℕ) (us ws : List ℕ) (p : ℕ)
    → NoneFree us
    → 0 < count
    → scan count (us ++ ws) p start_vars ≡ scan count ws (p + length us) start_vars
unfolding scan
scan-NoneFree count [] ws p n pos =
    ap (λ q. scan count ws q start_vars) {x = p} {y = p + 0} (omega arith)
scan-NoneFree count (u ∷ us) ws p n pos =
    let same : visit u p start_vars ≡ start_vars = ground arith in
    let going : (0 == count) ≡ false = ground arith in
    rw (same, going, scan-NoneFree count us ws (p + 1) n.1 pos)
      (ap (λ q. scan count ws q start_vars) {x = p + 1 + length us} {y = p + suc (length us)}
        (omega arith))

-- In a free run the loop counts its pages.
scan-run :
    (count k t p f : ℕ) (ws : List ℕ)
    → t < count
    → count ≤ t + k
    → scan count (replicate k page_cont ++ ws) p (record { tmp_c = t; a_flag = true; free_h = f })
      ≡ some (f, p + (count - t) - 1)
unfolding scan
scan-run count zero t p f ws lt le = absurd (omega arith)
scan-run count (suc k) t p f ws lt le = elim (Bool-cases (t + 1 == count)) [
  | inl done ↦ rw done (ap (λ q. some (f, q)) {x = p} {y = p + (count - t) - 1} (ground arith))
  | inr going ↦
      rw (going, scan-run count k (t + 1) (p + 1) f ws (ground arith) (omega arith))
        (ap (λ q. some (f, q)) {x = p + 1 + (count - (t + 1)) - 1} {y = p + (count - t) - 1}
          (omega arith))
]

-- The loop finds the first free run, where it is long enough.
pub scan-first_run :
    (count k : ℕ) (us ws : List ℕ)
    → NoneFree us
    → 0 < count
    → count ≤ k + 1
    → scan count (us ++ (page_free ∷ (replicate k page_cont ++ ws))) 0 start_vars
      ≡ some (length us, length us + count - 1)
unfolding scan
scan-first_run count k us ws n pos le =
    scan-NoneFree count us (page_free ∷ (replicate k page_cont ++ ws)) 0 n pos
    ∙ elim (Bool-cases (1 == count)) [
      | inl done ↦ rw done (ground arith)
      | inr going ↦
          rw
            (
              going,
              scan-run count k 1 (0 + length us + 1) (0 + length us) ws (ground arith)
                  (omega arith),
            )
            (ground arith)
    ]
