-- ===== src/Slot/Free.antt =====
-- The free list of include/slot.h as a list of slots.
use myos_ia.Prelude.{
  ℕ, zero, suc, ◌+◌, ◌-◌, ◌<◌, ◌≤◌, ◌≡◌, refl, ap, ◌∙◌, true, false, Option, none, some, List, [],
  ◌∷◌, arith, ◌==◌, Bool-cases, inl, inr,
}
use myos_ia.Sched.{Ptr, update}
use myos_ia.Sched.Chain.{has, Distinct, Chain, Chain-frame}
use myos_ia.Slot.{Slots, link_up, init_slot, alloc_slot, free_slot}

-- The free list holds the slots `xs`, the next to be taken first.
pub record IsFree (s : Slots) (xs : List ℕ) : Type 0 where
  pub chain : Chain s.link s.head xs
  pub distinct : Distinct xs

abbrev pub count_up : ℕ → ℕ → List ℕ
count_up i zero = []
count_up i (suc n) = i ∷ count_up (i + 1) n

has-count_up : (a i n : ℕ) → has a (count_up i n) ≡ true → (i ≤ a) × (a < i + n)
has-count_up a i zero h = cc
has-count_up a i (suc n) h = ground (arith, has-count_up a (i + 1) n)

has_not-count_up : (a i n : ℕ) → a < i → has a (count_up i n) ≡ false
has_not-count_up a i zero h = refl
has_not-count_up a i (suc n) h = ground (arith, has_not-count_up a (i + 1) n)

count_up-Distinct : (i n : ℕ) → Distinct (count_up i n)
count_up-Distinct i zero = tt
count_up-Distinct i (suc n) =
    (has_not-count_up i (i + 1) n (omega arith), count_up-Distinct (i + 1) n)

link_up-before : (i n j : ℕ) (link : ℕ → Ptr) → j < i → link_up i n link j ≡ link j
unfolding link_up
link_up-before i zero j link h = refl
link_up-before i (suc n) j link h =
    ground (arith, link_up-before (i + 1) n j (update link i (some (i + 1))))

link_up-within :
    (i n j : ℕ) (link : ℕ → Ptr) → i ≤ j → j < i + n → link_up i n link j ≡ some (j + 1)
unfolding link_up
link_up-within i zero j link lo hi = absurd (omega arith)
link_up-within i (suc n) j link lo hi = elim (Bool-cases (i == j)) [
  | inl here ↦ ground (arith, link_up-before (i + 1) n j (update link i (some (i + 1))))
  | inr later ↦
      link_up-within (i + 1) n j (update link i (some (i + 1))) (ground arith) (omega arith)
]

-- Links that lead from each slot to the next lead through all of them.
count_up-Chain :
    (link : ℕ → Ptr) (i n : ℕ)
    → ((j : ℕ) → i ≤ j → j < i + n → link j ≡ some (j + 1))
    → link (i + n) ≡ none
    → Chain link (some i) (count_up i (suc n))
count_up-Chain link i zero steps last = (refl, ap link {x = i} {y = i + 0} (omega arith) ∙ last)
count_up-Chain link i (suc n) steps last = (
  refl,
  rw (steps i (omega arith) (omega arith)) (
      count_up-Chain link (i + 1) n (λ j lo hi. steps j (omega arith) (omega arith))
        (ap link {x = i + 1 + n} {y = i + suc n} (omega arith) ∙ last)),
)

-- An array that is initialised is free from its first slot to its last.
pub init_slot-IsFree : (m : ℕ) (s : Slots) → IsFree (init_slot (suc m) s) (count_up 0 (suc m))
unfolding init_slot
init_slot-IsFree m s = record {
  chain =
      let linked : ℕ → Ptr = update (link_up 0 (suc m - 1) s.link) (suc m - 1) none in
      count_up-Chain linked 0 m
        (λ j lo hi.
          let between : (j == suc m - 1) ≡ false = ground arith in
          rw between (link_up-within 0 (suc m - 1) j s.link lo (omega arith)))
        (ground arith);
  distinct = count_up-Distinct 0 (suc m);
}

-- The result of taking a slot from the free slots `xs`.
abbrev pub Taken : Slots → List ℕ → Option ℕ × Slots → Type 0
Taken s [] r = r ≡ (none, s)
Taken s (x ∷ xs) (o, t) = (o ≡ some x) × IsFree t xs × (has x xs ≡ false)

-- `alloc_slot` gives out the first free slot, which is then free no more, and NULL where no slot is
-- free.
pub alloc_slot-Taken : (s : Slots) (xs : List ℕ) → IsFree s xs → Taken s xs (alloc_slot s)
unfolding alloc_slot
alloc_slot-Taken s [] f = rw f.chain refl
alloc_slot-Taken s (x ∷ xs) f =
    let (first, others) = f.chain in
    let (new, distinct) = f.distinct in
    rw (first, alloc_slot) (refl, record { chain = others; distinct = distinct }, new)

-- A slot that is given back is the next one to be taken.
pub free_slot-IsFree :
    (s : Slots) (xs : List ℕ) (h : ℕ)
    → IsFree s xs
    → has h xs ≡ false
    → IsFree (free_slot h s) (h ∷ xs)
unfolding free_slot
free_slot-IsFree s xs h f new = record {
  chain = (refl, ground (arith, Chain-frame s.link s.head xs h s.head));
  distinct = (new, f.distinct);
}
