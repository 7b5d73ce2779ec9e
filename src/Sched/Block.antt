-- ===== src/Sched/Block.antt =====
-- `proc_block` of ker/proc.c.
use myos_ia.Prelude.{
  ◌⊎◌, inl, inr, ◌↔◌, ℕ, zero, suc, ◌<◌, ◌≡◌, ◌≢◌, refl, true, false, none, some, List, [], ◌∷◌,
  arith, inl, inr, ◌==◌, length, if◌then◌else◌, Bool-cases,
}
use myos_ia.Sched.{
  Ptr, State, ok, fault, update, idle_task, find_prev, unlink, drop_head, proc_block, pick_proc,
}
use myos_ia.Sched.Chain.{
  has, Distinct, Chain, last_or, EndsAt-tail, IsQueue, Chain-frame, has-last_or, erase,
}

-- The process before `bp` in `hp ∷ ys`.
abbrev before : ℕ → ℕ → List ℕ → ℕ
before bp hp [] = hp
before bp hp (y ∷ ys) = if y == bp then hp else before bp y ys

find_prev_lem :
    (fuel bp hp : ℕ) (s : State) (ys : List ℕ)
    → Chain s.next (s.next hp) ys
    → length ys < fuel
    → find_prev fuel bp hp s ≡ ok (if has bp ys then some (before bp hp ys) else none)
unfolding find_prev
find_prev_lem zero bp hp s ys c f = absurd (omega arith)
find_prev_lem (suc fuel) bp hp s [] c f = ground arith
find_prev_lem (suc fuel) bp hp s (y ∷ ys) c f = ground (arith, find_prev_lem fuel bp y s ys c.1)

has-before : (bp x : ℕ) (ys : List ℕ) → has (before bp x ys) (x ∷ ys) ≡ true
has-before bp x [] = ground arith
has-before bp x (y ∷ ys) = ground (arith, has-before bp y ys)

-- The pointer past `bp` closes the chain.
Chain-unlink :
    (f : ℕ → Ptr) (p : Ptr) (bp x : ℕ) (ys : List ℕ)
    → Chain f p (x ∷ ys)
    → Distinct (x ∷ ys)
    → has bp ys ≡ true
    → Chain (update f (before bp x ys) (f bp)) p (x ∷ erase bp ys)
Chain-unlink f p bp x [] c d h = cc
Chain-unlink f p bp x (y ∷ ys) c d h = elim (Bool-cases (y == bp)) [
  | inl hit ↦ ground (arith, Chain-frame f (f y) ys x (f bp))
  | inr miss ↦ ground (arith, Chain-unlink f (f x) bp y ys c.1 d.1, has-before bp y ys)
]

pub has-erase : (a bp : ℕ) (xs : List ℕ) → has a xs ≡ false → has a (erase bp xs) ≡ false
has-erase a bp [] h = refl
has-erase a bp (x ∷ xs) h = ground (arith, has-erase a bp xs)

pub Distinct-erase : (bp : ℕ) (xs : List ℕ) → Distinct xs → Distinct (erase bp xs)
Distinct-erase bp [] d = tt
Distinct-erase bp (x ∷ xs) d = ground (arith, has-erase x bp xs, Distinct-erase bp xs)

pub erase-absent : (bp : ℕ) (xs : List ℕ) → has bp xs ≡ false → erase bp xs ≡ xs
erase-absent bp [] h = refl
erase-absent bp (x ∷ xs) h = ground (arith, erase-absent bp xs)

last_or-erase :
    (bp x : ℕ) (ys : List ℕ)
    → Distinct (x ∷ ys)
    → has bp ys ≡ true
    → last_or x (erase bp ys) ≡ (if last_or x ys == bp then before bp x ys else last_or x ys)
last_or-erase bp x [] d h = cc
last_or-erase bp x (y ∷ []) d h = ground arith
last_or-erase bp x (y ∷ z ∷ zs) d h =
    ground (arith, last_or-erase bp y (z ∷ zs) d.1, has-last_or z zs)

pub record Blocked (s : State) (xs : List ℕ) (bp : ℕ) (t : State) : Type 0 where
  pub queue : IsQueue t (erase bp xs)
  pub same_status : (p : ℕ) → t.status p ≡ s.status p
  pub settled : (t.current ≡ s.current) ⊎ (t.current ≡ pick_proc t)

Blocked-head :
    (s : State) (x : ℕ) (xs : List ℕ) (bp : ℕ)
    → IsQueue s (x ∷ xs)
    → (x == bp) ≡ true
    → Blocked s (x ∷ xs) bp (drop_head bp s)
unfolding proc_block
Blocked-head s x xs bp q first = record {
  queue = rw first (record {
    chain = ground arith;
    ends = EndsAt-tail s.ready_tail x xs q.ends;
    distinct = q.distinct.1;
    no_idle = ground arith;
  });
  same_status = λ p. refl;
  settled = inr refl;
}

Blocked-later :
    (s : State) (x : ℕ) (xs : List ℕ) (bp : ℕ)
    → IsQueue s (x ∷ xs)
    → (x == bp) ≡ false
    → has bp xs ≡ true
    → Blocked s (x ∷ xs) bp (unlink (before bp x xs) bp s)
unfolding proc_block
Blocked-later s x xs bp q later in_queue = record {
  queue = rw later (record {
    chain = Chain-unlink s.next s.ready_head bp x xs q.chain q.distinct in_queue;
    ends = ground (arith, last_or-erase bp x xs);
    distinct = ground (arith, has-erase x bp xs, Distinct-erase bp xs);
    no_idle = ground (arith, has-erase idle_task bp xs);
  });
  same_status = λ p. refl;
  settled = inl refl;
}

-- On a queue that is not empty, for a process that is not idle, and with a round of fuel for each
-- process behind the first, `proc_block` returns, takes the process out wherever it stands, and
-- keeps the order of the others.
pub proc_block-erase :
    (fuel : ℕ) (s : State) (x : ℕ) (xs : List ℕ) (bp : ℕ)
    → IsQueue s (x ∷ xs)
    → bp ≢ idle_task
    → length xs < fuel
    → (t : State) × (proc_block fuel (some bp) s ≡ ok t) × Blocked s (x ∷ xs) bp t
unfolding proc_block
proc_block-erase fuel s x xs bp q ne f = elim (Bool-cases (x == bp)) [
  | inl first ↦ (drop_head bp s, ground arith, Blocked-head s x xs bp q first)
  | inr later ↦ elim (Bool-cases (has bp xs)) [
    | inl in_queue ↦ (
      unlink (before bp x xs) bp s,
      ground (arith, find_prev_lem fuel bp x s xs q.chain.1),
      Blocked-later s x xs bp q later in_queue,
    )
    | inr absent ↦ (
      s,
      ground (arith, find_prev_lem fuel bp x s xs q.chain.1),
      record {
        queue = rw (later, erase-absent bp xs absent) q;
        same_status = λ p. refl;
        settled = inl refl;
      },
    )
  ]
]

-- Of the fields of the processes, only `next` of those in `xs` may differ, and the current process is
-- the same or the one that `pick_proc` chooses.
pub record Kept (s : State) (xs : List ℕ) (t : State) : Type 0 where
  pub status : t.status ≡ s.status
  pub counter : t.counter ≡ s.counter
  pub need_resched : t.need_resched ≡ s.need_resched
  pub next : (p : ℕ) → t.next p ≡ (if has p xs then t.next p else s.next p)
  pub settled : (t.current ≡ s.current) ⊎ (t.current ≡ pick_proc t)

pub Kept-self : (s : State) (xs : List ℕ) → Kept s xs s
Kept-self s xs = record {
  status = refl;
  counter = refl;
  need_resched = refl;
  next = λ p. ground arith;
  settled = inl refl;
}

Kept-head : (s : State) (xs : List ℕ) (bp : ℕ) → Kept s xs (drop_head bp s)
unfolding drop_head
Kept-head s xs bp = record {
  status = refl;
  counter = refl;
  need_resched = refl;
  next = λ p. ground arith;
  settled = inr refl;
}

Kept-later :
    (s : State) (x : ℕ) (xs : List ℕ) (bp : ℕ) → Kept s (x ∷ xs) (unlink (before bp x xs) bp s)
unfolding unlink
Kept-later s x xs bp = record {
  status = refl;
  counter = refl;
  need_resched = refl;
  next = λ p. ground (arith, has-before bp x xs);
  settled = inl refl;
}

-- `proc_block` of a queue that is not empty writes `next` in processes of the queue only.
pub proc_block-Kept :
    (fuel : ℕ) (s : State) (x : ℕ) (xs : List ℕ) (bp : ℕ)
    → IsQueue s (x ∷ xs)
    → length xs < fuel
    → (t : State) × (proc_block fuel (some bp) s ≡ ok t) × Kept s (x ∷ xs) t
unfolding proc_block
proc_block-Kept fuel s x xs bp q f = elim (Bool-cases (bp == idle_task)) [
  | inl idle ↦ (s, rw idle refl, Kept-self s (x ∷ xs))
  | inr busy ↦ elim (Bool-cases (x == bp)) [
    | inl first ↦ (drop_head bp s, ground arith, Kept-head s (x ∷ xs) bp)
    | inr later ↦ elim (Bool-cases (has bp xs)) [
      | inl in_queue ↦ (
        unlink (before bp x xs) bp s,
        ground (arith, find_prev_lem fuel bp x s xs q.chain.1),
        Kept-later s x xs bp,
      )
      | inr absent ↦
          (s, ground (arith, find_prev_lem fuel bp x s xs q.chain.1), Kept-self s (x ∷ xs))
    ]
  ]
]

-- With an empty queue `proc_block` reads `next` through NULL, for every process but idle.
pub proc_block-fault :
    (fuel : ℕ) (s : State) (bp : ℕ)
    → s.ready_head ≡ none
    → (proc_block fuel (some bp) s ≡ fault) ↔ (bp ≢ idle_task)
unfolding proc_block
proc_block-fault fuel s bp e = (λ h. ground arith, λ ne. ground arith)
