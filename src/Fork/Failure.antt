-- ===== src/Fork/Failure.antt =====
-- `do_fork` of ker/fork.c without memory for the child.
use myos_ia.Prelude.{
  ℕ, zero, suc, ◌≡◌, ◌≢◌, refl, ap, ◌∙◌, true, false, none, some, arith, ◌==◌, if◌then◌else◌,
  Bool-cases, inl, inr,
}
use myos_ia.Sched.{Run, ok, ◌>>=◌}
use myos_ia.Mem.Holes.{Mem, kmem_alloc}
use myos_ia.Fork.{
  Procs, Image, is_used, get_free_proc_struct, region_size, mem_copy, place_copy, clone, fork_into,
  do_fork, nr_task, clone_pcb,
}
use myos_ia.Fork.Slots.{
  free_count, find_free-FirstFree, find_free-count, find_free-none, find_free-some,
}
use myos_ia.Fork.Parts.{clone-father, clone-mem}
use myos_ia.Fork.Child.{IsFather, IsFather-ne}

-- `Kmem_alloc` has no memory of this size: it returns NULL, and but for the interrupt flag it leaves
-- the holes as they are.
pub record IsShort (size : ℕ) (mem m : Mem) : Type 0 where
  pub refuses : kmem_alloc size mem ≡ (none, m)
  pub same : record m { irq = mem.irq } ≡ mem

-- What a `do_fork` that fails leaves behind.
pub record Lost (s t : Procs) : Type 0 where
  pub mem : t.mem ≡ s.mem
  pub current : t.sched.current ≡ s.sched.current
  pub father : t.pcb s.sched.current ≡ s.pcb s.sched.current
  pub fewer : suc (free_count t.pcb 0 nr_task) ≡ free_count s.pcb 0 nr_task

mem_copy_short :
    (t : Procs) (f c : ℕ) (m : Mem)
    → IsShort (region_size (t.pcb f)) t.mem m
    → mem_copy f c t ≡ (false, t)
unfolding mem_copy place_copy
mem_copy_short t f c m short = rw (short.refuses, place_copy, short.same) refl

fork_into_short :
    (im : Image) (s : Procs) (c : ℕ) (m : Mem)
    → s.sched.current ≢ c
    → IsShort (region_size (s.pcb s.sched.current)) s.mem m
    → fork_into im s (some c) ≡ ok (none, clone im c s.sched.current s)
unfolding fork_into
fork_into_short im s c m ne short =
    let f : ℕ = s.sched.current in
    let cloned : Procs = clone im c f s in
    let father = clone-father im c f s ne in
    let same = clone-mem im c f s in
    let short' : IsShort (region_size (cloned.pcb f)) cloned.mem m = rw (father, same) short in
    rw (mem_copy_short cloned f c m short') refl

clone-used :
    (im : Image) (c f : ℕ) (s : Procs) (j : ℕ)
    → is_used (s.pcb f) ≡ true
    → is_used ((clone im c f s).pcb j) ≡ (if j == c then true else is_used (s.pcb j))
unfolding clone clone_pcb
clone-used im c f s j used = elim (Bool-cases (j == c)) [
  | inl same ↦ rw same used
  | inr other ↦ rw other refl
]

clone-current :
    (im : Image) (c f : ℕ) (s : Procs) → (clone im c f s).sched.current ≡ s.sched.current
unfolding clone
clone-current im c f s = refl

-- A `do_fork` without memory returns -1, but the entry that it chose stays in use: there is one free
-- entry of the process table less, and nobody runs in it.
pub do_fork-Lost :
    (im : Image) (s : Procs) (k : ℕ) (m : Mem)
    → free_count s.pcb 0 nr_task ≡ suc k
    → IsFather (s.pcb s.sched.current)
    → IsShort (region_size (s.pcb s.sched.current)) s.mem m
    → (t : Procs) × (do_fork im s ≡ ok (none, t)) × Lost s t
unfolding do_fork get_free_proc_struct
do_fork-Lost im s k m some_free father short =
    let f : ℕ = s.sched.current in
    let (c, found) = find_free-some s.pcb 0 nr_task k some_free in
    let ne : f ≢ c =
      IsFather-ne s.pcb f c father (find_free-FirstFree s.pcb 0 nr_task c found).open_ in
    let used : is_used (s.pcb f) ≡ true = rw father.flag refl in
    (
      clone im c f s,
      rw found (fork_into_short im s c m ne short),
      record {
        mem = clone-mem im c f s;
        current = clone-current im c f s;
        father = clone-father im c f s ne;
        fewer =
            find_free-count s.pcb (clone im c f s).pcb 0 nr_task c found
              (λ j. clone-used im c f s j used);
      },
    )

do_fork-full :
    (im : Image) (s : Procs) → free_count s.pcb 0 nr_task ≡ 0 → do_fork im s ≡ ok (none, s)
unfolding do_fork get_free_proc_struct fork_into
do_fork-full im s none_free = rw (find_free-none s.pcb 0 nr_task none_free) refl

-- `n` calls of `do_fork`, one after the other.
pub forks : Image → ℕ → Procs → Run Procs
forks im zero s = ok s
forks im (suc n) s = do_fork im s >>= λ r. forks im n r.1

-- While there is no memory for a child, each attempt uses up an entry of the process table: after as
-- many attempts as there are free entries, `do_fork` returns -1 for good, whatever memory there is.
pub forks-exhaust :
    (im : Image) (n : ℕ) (s : Procs) (m : Mem)
    → free_count s.pcb 0 nr_task ≡ n
    → IsFather (s.pcb s.sched.current)
    → IsShort (region_size (s.pcb s.sched.current)) s.mem m
    → (t : Procs) × (forks im n s ≡ ok t)
      × ((freed : Mem)
          → do_fork im (record t { mem = freed }) ≡ ok (none, record t { mem = freed }))
unfolding forks
forks-exhaust im zero s m none_free father short =
    (s, refl, λ freed. do_fork-full im (record s { mem = freed }) none_free)
forks-exhaust im (suc n) s m some_free father short =
    let (t, run, lost) = do_fork-Lost im s n m some_free father short in
    let fewer : free_count t.pcb 0 nr_task ≡ n = omega (arith, lost.fewer) in
    let same : t.pcb t.sched.current ≡ s.pcb s.sched.current =
      ap (λ f. t.pcb f) lost.current ∙ lost.father in
    let (u, more, done) =
      forks-exhaust im n t m fewer (rw same father) (rw (same, lost.mem) short) in
    (u, rw run more, done)
