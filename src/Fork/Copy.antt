-- ===== src/Fork/Copy.antt =====
-- The copy of a memory region in `mem_copy` of ker/fork.c.
use myos_ia.Prelude.{
  ℕ, zero, suc, ◌+◌, ◌-◌, ◌≤◌, ◌<◌, ◌≡◌, ◌⊎◌, inl, inr, ◌∙◌, true, ◌&&◌, arith, ltb, leb,
  if◌then◌else◌,
}
use myos_ia.Sched.{update}
use myos_ia.Fork.{copy}

abbrev pub Apart : ℕ → ℕ → ℕ → Type 0
Apart a b n = (a + n ≤ b) ⊎ (b + n ≤ a)

-- Between regions that do not overlap, the copy has the old bytes of the source, and no other byte
-- changes.
pub copy_lem :
    (from to n : ℕ) (bytes : ℕ → ℕ) (a : ℕ)
    → Apart from to n
    → copy from to n bytes a
      ≡ (if leb to a && ltb a (to + n) then bytes (from + (a - to)) else bytes a)
unfolding copy
copy_lem from to zero bytes a apart = ground arith
copy_lem from to (suc n) bytes a apart =
    let bytes' : ℕ → ℕ = update bytes to (bytes from) in
    let rest = copy_lem (from + 1) (to + 1) n bytes' a (omega arith) in
    let where_ : (a < to) ⊎ (a ≡ to) ⊎ ((to < a) × (a < to + suc n)) ⊎ (to + suc n ≤ a) =
      omega arith in
    elim where_ [
      | inl before ↦ ground arith
      | inr other ↦ elim other [
        | inl here ↦ let source : from + (a - to) ≡ from = omega arith in rw source (ground arith)
        | inr beyond ↦ elim beyond [
          | inl inside ↦
              let source : from + 1 + (a - (to + 1)) ≡ from + (a - to) = omega arith in
              let old : bytes' (from + (a - to)) ≡ bytes (from + (a - to)) = ground arith in
              let test : (leb (to + 1) a && ltb a (to + 1 + n)) ≡ true = ground arith in
              let outer : (leb to a && ltb a (to + suc n)) ≡ true = ground arith in
              rest ∙ rw (test, outer, source) old
          | inr after ↦ ground arith
        ]
      ]
    ]
