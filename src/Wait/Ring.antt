-- ===== src/Wait/Ring.antt =====
-- Circular doubly linked lists: `list_add`, `list_add_tail` and `list_del` of include/list.h.
use mathlib.Core.Path.{subst}
use myos_ia.Prelude.{
  ℕ, ◌≡◌, refl, true, false, List, [], ◌∷◌, arith, ◌==◌, Bool-cases, ==_iff, inl, inr,
}
use myos_ia.Sched.Chain.{has, Distinct, erase}
use myos_ia.Sched.Block.{has-erase, Distinct-erase}
use myos_ia.Wait.{Links, list_add, list_add_tail, list_del, init_wait_queue_head}

-- `next` leads from `a` through `xs` to `b`, and `prev` leads back.
abbrev pub Linked : Links → ℕ → List ℕ → ℕ → Type 0
Linked l a [] b = (l.next a ≡ b) × (l.prev b ≡ a)
Linked l a (x ∷ xs) b = (l.next a ≡ x) × (l.prev x ≡ a) × Linked l x xs b

pub record IsRing (l : Links) (head : ℕ) (xs : List ℕ) : Type 0 where
  pub linked : Linked l head xs head
  pub distinct : Distinct (head ∷ xs)

-- `next` alone leads from `a` through `xs` to `b`.
abbrev pub Forward : Links → ℕ → List ℕ → ℕ → Type 0
Forward l a [] b = l.next a ≡ b
Forward l a (x ∷ xs) b = (l.next a ≡ x) × Forward l x xs b

Linked-Forward : (l : Links) (a : ℕ) (xs : List ℕ) (b : ℕ) → Linked l a xs b → Forward l a xs b
Linked-Forward l a [] b h = h.0
Linked-Forward l a (x ∷ xs) b h = (h.0, Linked-Forward l x xs b h.2)

Forward-frame :
    (l m : Links) (a : ℕ) (xs : List ℕ) (b : ℕ)
    → Forward l a xs b
    → ((c : ℕ) → has c (a ∷ xs) ≡ true → m.next c ≡ l.next c)
    → Forward m a xs b
Forward-frame l m a [] b h g = ground (arith, g a)
Forward-frame l m a (x ∷ xs) b h g =
    (ground (arith, g a), Forward-frame l m x xs b h.1 (λ c i. g c (ground arith)))

-- A head that is initialised is an empty ring.
pub init-IsRing : (l : Links) (head : ℕ) → IsRing (init_wait_queue_head head l) head []
unfolding init_wait_queue_head
init-IsRing l head = record { linked = (ground arith, ground arith); distinct = (refl, tt) }

-- Links that agree on what a segment reads.
record Agree (l m : Links) (a : ℕ) (xs : List ℕ) (b : ℕ) : Type 0 where
  nexts : (c : ℕ) → has c (a ∷ xs) ≡ true → m.next c ≡ l.next c
  prevs : (c : ℕ) → has c (b ∷ xs) ≡ true → m.prev c ≡ l.prev c

Linked-frame :
    (l m : Links) (a : ℕ) (xs : List ℕ) (b : ℕ)
    → Linked l a xs b
    → Agree l m a xs b
    → Linked m a xs b
Linked-frame l m a [] b h g = (ground (arith, g.nexts a), ground (arith, g.prevs b))
Linked-frame l m a (x ∷ xs) b h g = (
  ground (arith, g.nexts a),
  ground (arith, g.prevs x),
  Linked-frame l m x xs b h.2
      (record { nexts = λ c i. g.nexts c (ground arith); prevs = λ c i. g.prevs c (ground arith) }),
)

-- `list_add` puts a new entry first.
pub list_add-IsRing :
    (l : Links) (head : ℕ) (xs : List ℕ) (new : ℕ)
    → IsRing l head xs
    → has new (head ∷ xs) ≡ false
    → IsRing (list_add head new l) head (new ∷ xs)
unfolding list_add
list_add-IsRing l head [] new r out = record {
  linked = (ground arith, ground arith, (ground arith, ground arith));
  distinct = ground arith;
}
list_add-IsRing l head (x ∷ xs) new r out = record {
  linked = (
    ground arith,
    ground arith,
    (
      ground arith,
      ground arith,
      Linked-frame l (list_add head new l) x xs head r.linked.2
          (record { nexts = λ c i. ground arith; prevs = λ c i. ground arith }),
    ),
  );
  distinct = ground arith;
}

prev-mem :
    (l : Links) (a : ℕ) (xs : List ℕ) (b old : ℕ)
    → Linked l a xs b
    → has old xs ≡ true
    → has (l.prev old) (a ∷ xs) ≡ true
prev-mem l a [] b old h i = cc
prev-mem l a (x ∷ xs) b old h i = ground (arith, prev-mem l x xs b old h.2)

next-mem :
    (l : Links) (a : ℕ) (xs : List ℕ) (b old : ℕ)
    → Linked l a xs b
    → has old (a ∷ xs) ≡ true
    → has (l.next old) (b ∷ xs) ≡ true
next-mem l a [] b old h i = ground arith
next-mem l a (x ∷ xs) b old h i = ground (arith, next-mem l x xs b old h.2)

list_del-first :
    (l : Links) (a x : ℕ) (xs : List ℕ) (b : ℕ)
    → Linked l a (x ∷ xs) b
    → Distinct (x ∷ xs)
    → has a (x ∷ xs) ≡ false
    → has b (x ∷ xs) ≡ false
    → Linked (list_del x l) a xs b
unfolding list_del
list_del-first l a x [] b h d oa ob = (ground arith, ground arith)
list_del-first l a x (y ∷ ys) b h d oa ob = (
  ground arith,
  ground arith,
  Linked-frame l (list_del x l) y ys b h.2.2
      (record { nexts = λ c i. ground arith; prevs = λ c i. ground arith }),
)

list_del-Linked :
    (l : Links) (a : ℕ) (xs : List ℕ) (b old : ℕ)
    → Linked l a xs b
    → Distinct xs
    → has a xs ≡ false
    → has b xs ≡ false
    → has old xs ≡ true
    → Linked (list_del old l) a (erase old xs) b
unfolding list_del
list_del-Linked l a [] b old h d oa ob i = cc
list_del-Linked l a (x ∷ xs) b old h d oa ob i = elim (Bool-cases (x == old)) [
  | inl hit ↦ rw hit (
      subst (λ o. Linked (list_del o l) a xs b) ((==_iff x old).0 hit)
        (list_del-first l a x xs b h d oa ob))
  | inr miss ↦ rw miss (
    ground (arith, prev-mem l x xs b old h.2),
    ground (arith, next-mem l x xs b old h.2),
    list_del-Linked l x xs b old h.2 d.1 d.0 (ground arith) (ground arith),
  )
]

-- `list_del` takes an entry out, wherever it stands.
pub list_del-IsRing :
    (l : Links) (head : ℕ) (xs : List ℕ) (old : ℕ)
    → IsRing l head xs
    → has old xs ≡ true
    → IsRing (list_del old l) head (erase old xs)
unfolding list_del
list_del-IsRing l head xs old r i = record {
  linked = list_del-Linked l head xs head old r.linked r.distinct.1 r.distinct.0 r.distinct.0 i;
  distinct = (has-erase head old xs r.distinct.0, Distinct-erase old xs r.distinct.1);
}

-- On a ring that does not hold the new entry, `list_add_tail` links the entry to itself: `next`
-- and `prev` of it are itself, and walking from the head still meets only the old entries.
pub list_add_tail-loses :
    (l : Links) (head : ℕ) (xs : List ℕ) (new : ℕ)
    → IsRing l head xs
    → has new (head ∷ xs) ≡ false
    → ((list_add_tail head new l).next new ≡ new)
      × ((list_add_tail head new l).prev new ≡ new)
      × Forward (list_add_tail head new l) head xs head
unfolding list_add_tail
list_add_tail-loses l head xs new r out = (
  ground arith,
  ground arith,
  Forward-frame l (list_add_tail head new l) head xs head (Linked-Forward l head xs head r.linked)
      (λ c i. ground arith),
)
