-- ===== src/Fork/Slots.antt =====
-- The free entries of the process table, as `get_free_proc_struct` of ker/proc.c looks for them.
use myos_ia.Prelude.{
  ℕ, zero, suc, ◌+◌, ◌≤◌, ◌<◌, ◌≡◌, refl, ap, true, false, none, some, arith, ◌==◌, if◌then◌else◌,
  Bool-cases, inl, inr,
}
use myos_ia.Fork.{Pcb, is_used, find_free}

-- How many of the `n` entries from `t` on are free.
abbrev pub free_count : (ℕ → Pcb) → ℕ → ℕ → ℕ
free_count pcb t zero = 0
free_count pcb t (suc n) =
    if is_used (pcb t) then free_count pcb (t + 1) n else suc (free_count pcb (t + 1) n)

-- The first free entry, with all entries before it in use.
pub record FirstFree (pcb : ℕ → Pcb) (t n c : ℕ) : Type 0 where
  pub from : t ≤ c
  pub below : c < t + n
  pub open_ : is_used (pcb c) ≡ false
  pub first : (j : ℕ) → t ≤ j → j < c → is_used (pcb j) ≡ true

pub find_free-FirstFree :
    (pcb : ℕ → Pcb) (t n c : ℕ) → find_free pcb t n ≡ some c → FirstFree pcb t n c
unfolding find_free
find_free-FirstFree pcb t zero c e = cc
find_free-FirstFree pcb t (suc n) c e = elim (Bool-cases (is_used (pcb t))) [
  | inl used ↦
      let rest = find_free-FirstFree pcb (t + 1) n c (rw used at e) in
      record {
        from = omega (arith, rest.from);
        below = omega (arith, rest.below);
        open_ = rest.open_;
        first = λ j lo hi. elim (Bool-cases (j == t)) [
          | inl here ↦ ground (arith, used)
          | inr later ↦ rest.first j (ground arith) hi
        ];
      }
  | inr vacant ↦
      let here : some t ≡ some c = rw vacant at e in
      let same : t ≡ c = cc in
      record {
        from = omega arith;
        below = omega arith;
        open_ = rw (← same) vacant;
        first = λ j lo hi. absurd (omega arith);
      }
]

free_count_frame :
    (pcb pcb' : ℕ → Pcb) (t n c : ℕ)
    → c < t
    → ((j : ℕ) → is_used (pcb' j) ≡ (if j == c then true else is_used (pcb j)))
    → free_count pcb' t n ≡ free_count pcb t n
free_count_frame pcb pcb' t zero c h same = refl
free_count_frame pcb pcb' t (suc n) c h same =
    let here : is_used (pcb' t) ≡ is_used (pcb t) = ground (arith, same t) in
    rw (here, free_count_frame pcb pcb' (t + 1) n c (omega arith) same)

-- Taking the first free entry leaves one free entry less.
pub find_free-count :
    (pcb pcb' : ℕ → Pcb) (t n c : ℕ)
    → find_free pcb t n ≡ some c
    → ((j : ℕ) → is_used (pcb' j) ≡ (if j == c then true else is_used (pcb j)))
    → suc (free_count pcb' t n) ≡ free_count pcb t n
unfolding find_free
find_free-count pcb pcb' t zero c e same = cc
find_free-count pcb pcb' t (suc n) c e same = elim (Bool-cases (is_used (pcb t))) [
  | inl used ↦
      let rest : find_free pcb (t + 1) n ≡ some c = rw used at e in
      let found = find_free-FirstFree pcb (t + 1) n c rest in
      let still : is_used (pcb' t) ≡ true = ground (arith, same t) in
      rw (used, still) (find_free-count pcb pcb' (t + 1) n c rest same)
  | inr vacant ↦
      let here : some t ≡ some c = rw vacant at e in
      let now : t ≡ c = cc in
      let taken : is_used (pcb' t) ≡ true = rw now (ground (arith, same c)) in
      rw (vacant, taken) (ap suc (free_count_frame pcb pcb' (t + 1) n c (omega arith) same))
]

pub find_free-none : (pcb : ℕ → Pcb) (t n : ℕ) → free_count pcb t n ≡ 0 → find_free pcb t n ≡ none
unfolding find_free
find_free-none pcb t zero e = refl
find_free-none pcb t (suc n) e = ground (arith, find_free-none pcb (t + 1) n)

pub find_free-some :
    (pcb : ℕ → Pcb) (t n k : ℕ)
    → free_count pcb t n ≡ suc k
    → (c : ℕ) × (find_free pcb t n ≡ some c)
unfolding find_free
find_free-some pcb t zero k e = absurd (omega arith)
find_free-some pcb t (suc n) k e = elim (Bool-cases (is_used (pcb t))) [
  | inl used ↦ rw used (find_free-some pcb (t + 1) n k (rw used at e))
  | inr vacant ↦ (t, rw vacant refl)
]
