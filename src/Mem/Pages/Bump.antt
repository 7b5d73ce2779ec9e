-- ===== src/Mem/Pages/Bump.antt =====
-- `kmalloc` and `kfree` of ker/mem.c where no page in front of the run that serves is free.
use mathlib.Core.List.{append_assoc}
use myos_ia.Prelude.{
  ℕ, zero, suc, ◌+◌, ◌-◌, ◌*◌, ◌/◌, ◌^◌, ◌<◌, ◌≤◌, ◌≡◌, ◌≢◌, refl, sym, ap, Bool, false, some, List,
  [], ◌∷◌, ◌++◌, arith, ◌==◌, Bool-cases, inl, inr, ◌∙◌, length, length-append, length-replicate,
  get_or, set, take, replicate, u32, sub32, set-append, get_or-append, take_past, replicate-append,
}
use myos_ia.Mem.Pages.{
  page_cont, page_free, page_size, nr_pages, Pages, scan, start_vars, calc_count, kmalloc, kfree,
  walk_back, free_start, join_next, take_block, free_block,
}
use myos_ia.Mem.Pages.Scan.{NoneFree, scan-first_run}

-- Used pages `us`, a run of a page marked `w` and `c` more, then a page marked `x`, `d` pages that
-- continue it, and `rest`.
abbrev pub layout : List ℕ → ℕ → ℕ → ℕ → ℕ → List ℕ → List ℕ
layout us w c x d rest =
    us ++ (w ∷ (replicate c page_cont ++ (x ∷ (replicate d page_cont ++ rest))))

-- The index of the page marked `x`.
second : (us : List ℕ) (w c : ℕ) → length (us ++ (w ∷ replicate c page_cont)) ≡ length us + suc c
second us w c =
    omega (arith, length-append us (w ∷ replicate c page_cont), length-replicate {0} c page_cont)

regroup :
    (us : List ℕ) (w c x d : ℕ) (rest : List ℕ)
    → layout us w c x d rest
      ≡ (us ++ (w ∷ replicate c page_cont)) ++ (x ∷ (replicate d page_cont ++ rest))
regroup us w c x d rest =
    sym (append_assoc us (w ∷ replicate c page_cont) (x ∷ (replicate d page_cont ++ rest)))

pub set-second :
    (us : List ℕ) (w c x d v : ℕ) (rest : List ℕ)
    → set (layout us w c x d rest) (length us + suc c) v ≡ layout us w c v d rest
set-second us w c x d v rest =
    rw (regroup us w c x d rest, regroup us w c v d rest, ← second us w c)
      (set-append (us ++ (w ∷ replicate c page_cont)) x (replicate d page_cont ++ rest) v)

pub get_or-second :
    (us : List ℕ) (w c x d v : ℕ) (rest : List ℕ)
    → get_or (layout us w c x d rest) (length us + suc c) v ≡ x
get_or-second us w c x d v rest =
    rw (regroup us w c x d rest, ← second us w c)
      (get_or-append (us ++ (w ∷ replicate c page_cont)) x (replicate d page_cont ++ rest) v)

pub kmalloc_lem :
    (kmem_base size : ℕ) (s : Pages)
    → kmalloc kmem_base size s
      ≡ take_block kmem_base size s (scan (calc_count size) (take 129 s.words) 0 start_vars)
unfolding kmalloc
kmalloc_lem kmem_base size s = refl

kfree_lem :
    (kmem_base base : ℕ) (s : Pages)
    → kfree kmem_base base s
      ≡ free_block
          (sub32 base kmem_base / page_size)
          (sub32 base kmem_base / page_size
            + calc_count (get_or s.words (sub32 base kmem_base / page_size) page_free))
          s
unfolding kfree
kfree_lem kmem_base base s = refl

pub one_run :
    (c d : ℕ) (rest : List ℕ)
    → replicate c page_cont ++ (page_cont ∷ (replicate d page_cont ++ rest))
      ≡ replicate (c + suc d) page_cont ++ rest
one_run c d rest =
    sym (append_assoc (replicate c page_cont) (replicate (suc d) page_cont) rest)
    ∙ ap (λ t. t ++ rest) (replicate-append c (suc d) page_cont)

scan-layout :
    (us : List ℕ) (c d : ℕ) (rest : List ℕ)
    → NoneFree us
    → length us + c + d + 2 ≤ 129
    → scan (suc c) (take 129 (layout us page_free c page_cont d rest)) 0 start_vars
      ≡ some (length us, length us + c)
scan-layout us c d rest n fits =
    let run : List ℕ = page_free ∷ replicate (c + suc d) page_cont in
    let long : length (us ++ run) ≤ 129 =
      omega (arith, length-append us run, length-replicate {0} (c + suc d) page_cont) in
    let left : List ℕ = take (129 - length (us ++ run)) rest in
    let words : take 129 (layout us page_free c page_cont d rest) ≡ us ++ (run ++ left) =
      rw (one_run c d rest, ← append_assoc us run rest, take_past 129 (us ++ run) rest long)
        (append_assoc us run left) in
    rw (words, scan-first_run (suc c) (c + suc d) us left n (omega arith) (omega arith))
      (ap (λ q. some (length us, q)) {x = length us + suc c - 1} {y = length us + c} (omega arith))

-- In a table that begins with used pages and then has a free run longer than the request, all
-- within the table's pages, `kmalloc` returns the first page of the run, marks it with the size,
-- leaves the rest of the run free, and returns with the interrupts disabled.
pub kmalloc-layout :
    (kmem_base size c d : ℕ) (us rest : List ℕ) (irq : Bool)
    → NoneFree us
    → length us + c + d + 2 ≤ nr_pages
    → calc_count size ≡ suc c
    → kmalloc kmem_base size (record { words = layout us page_free c page_cont d rest; irq = irq })
      ≡ (
        some (u32 (kmem_base + length us * page_size)),
        record { words = layout us size c page_free d rest; irq = false },
      )
unfolding take_block
kmalloc-layout kmem_base size c d us rest irq n fits count =
    let next : length us + c + 1 ≡ length us + suc c = omega arith in
    let tail : List ℕ = replicate c page_cont ++ (page_cont ∷ (replicate d page_cont ++ rest)) in
    rw
      (
        kmalloc_lem,
        count,
        scan-layout us c d rest n (omega arith),
        set-append us page_free tail size,
        next,
        get_or-second us size c page_cont d page_free rest,
        set-second us size c page_cont d page_free rest,
      )
      refl

-- A used table does not begin in the middle of a block.
abbrev pub Headed : List ℕ → Type 0
Headed [] = Unit
Headed (w ∷ ws) = w ≢ page_cont

used_at :
    (us ws : List ℕ) (i : ℕ)
    → NoneFree us
    → i < length us
    → get_or (us ++ ws) i page_free ≢ page_free
used_at [] ws i n lt = absurd (omega arith)
used_at (u ∷ us) ws zero n lt = n.0
used_at (u ∷ us) ws (suc i) n lt = used_at us ws i n.1 (omega arith)

walk_back-used :
    (us ws : List ℕ) (i : ℕ)
    → NoneFree us
    → Headed us
    → i < length us
    → (w : ℕ) × (walk_back (us ++ ws) i ≡ some w) × (w ≢ page_free)
unfolding walk_back
walk_back-used [] ws zero n h lt = absurd (omega arith)
walk_back-used (u ∷ us) ws zero n h lt = (u, ground arith, n.0)
walk_back-used us ws (suc i) n h lt =
    elim (Bool-cases (get_or (us ++ ws) (suc i) page_free == page_cont)) [
      | inl inside ↦
          let (w, stops, used) = walk_back-used us ws i n h (omega arith) in
          (w, rw inside stops, used)
      | inr head ↦ (get_or (us ++ ws) (suc i) page_free, rw head refl, used_at us ws (suc i) n lt)
    ]

free_start-layout :
    (us ws : List ℕ) (w : ℕ)
    → NoneFree us
    → Headed us
    → free_start (us ++ (w ∷ ws)) (length us) ≡ some (us ++ (page_free ∷ ws))
unfolding free_start
free_start-layout [] ws w n h = refl
free_start-layout (u ∷ us) ws w n h =
    let (v, stops, used) = walk_back-used (u ∷ us) (w ∷ ws) (length us) n h (omega arith) in
    let not_free : (v == page_free) ≡ false = ground arith in
    rw (stops, free_start, not_free, set-append us w ws page_free) refl

free_block-layout :
    (size c d : ℕ) (us rest : List ℕ) (irq : Bool)
    → NoneFree us
    → Headed us
    → length us + suc c ≤ nr_pages
    → free_block
        (length us)
        (length us + suc c)
        (record { words = layout us size c page_free d rest; irq = irq })
      ≡ some (record { words = layout us page_free c page_cont d rest; irq = irq })
unfolding free_block join_next
free_block-layout size c d us rest irq n h fits =
    let inside : (length us + suc c == nr_pages + 1) ≡ false = ground arith in
    let tail : List ℕ = replicate c page_cont ++ (page_free ∷ (replicate d page_cont ++ rest)) in
    rw
      (
        free_start-layout us tail size n h,
        free_block,
        inside,
        get_or-second us page_free c page_free d page_cont rest,
        set-second us page_free c page_free d page_cont rest,
      )
      refl

-- Releasing a block behind used pages that begin with the head of a block, with a free run behind
-- it, in a pool that ends below 2 ^ 32, joins the block and the run, and leaves the table as it
-- was before `kmalloc` took the block.
pub kfree-layout :
    (kmem_base size c d : ℕ) (us rest : List ℕ) (irq : Bool)
    → NoneFree us
    → Headed us
    → length us + suc c ≤ nr_pages
    → kmem_base + nr_pages * page_size < 2 ^ 32
    → calc_count size ≡ suc c
    → kfree kmem_base
        (u32 (kmem_base + length us * page_size))
        (record { words = layout us size c page_free d rest; irq = irq })
      ≡ some (record { words = layout us page_free c page_cont d rest; irq = irq })
kfree-layout kmem_base size c d us rest irq n h fits range count =
    let index : sub32 (u32 (kmem_base + length us * page_size)) kmem_base / page_size ≡ length us =
      omega arith in
    let tail : List ℕ = replicate c page_cont ++ (page_free ∷ (replicate d page_cont ++ rest)) in
    rw (kfree_lem, index, get_or-append us size tail page_free, count)
      (free_block-layout size c d us rest irq n h fits)
