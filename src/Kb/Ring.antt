-- ===== src/Kb/Ring.antt =====
-- The circular buffer of ker/kb.c against a bounded queue of scan codes.
use myos_ia.Prelude.{
  ℕ, ◌≡◌, refl, sym, ap, ◌∙◌, Option, none, some, List, [], ◌∷◌, ◌++◌, arith, ltb, if◌then◌else◌,
  Bool-cases, Option-cases, inl, inr, length, length-set,
}
use myos_ia.Kb.{Kb, kb_buf_size, enqueue, dequeue, init, kbd_store, status_process, is_lock_release}
use myos_ia.Kb.Codes.{IsValid, contents, length-gather, next_offset, gather-push, gather-pop}

-- The empty buffer of `kb_init` is valid.
pub init-IsValid : IsValid init
init-IsValid = ground arith

-- The abstract queue: a code is kept while there are fewer than 32.
abbrev pub push : ℕ → List ℕ → List ℕ
push c q = if ltb (length q) kb_buf_size then q ++ (c ∷ []) else q

-- On a valid buffer `kbd_int` stores the code behind the others, or drops it when 32 are waiting.
pub enqueue-push :
    (k : Kb) (c : ℕ)
    → IsValid k
    → IsValid (enqueue c k) × (contents (enqueue c k) ≡ push c (contents k))
unfolding enqueue
enqueue-push k c v = elim (Bool-cases (ltb k.count 32)) [
  | inr full ↦ (ground arith, ground (arith, length-gather k.buf k.tail k.count))
  | inl room ↦ (
    ground (arith, length-set k.buf k.head c),
    rw (room, length-gather, room, v.head_at)
        (gather-push k.buf k.tail k.count c v.storage v.tail_in (ground arith)),
  )
]

abbrev pub pop : List ℕ → Option (ℕ × List ℕ)
pop [] = none
pop (c ∷ q) = some (c, q)

abbrev pub view : Option (ℕ × Kb) → Option (ℕ × List ℕ)
view none = none
view (some (c, k)) = some (c, contents k)

-- On a valid buffer `kb_read` takes the oldest code, and sleeps exactly when there is none.
pub dequeue-pop : (k : Kb) → IsValid k → view (dequeue k) ≡ pop (contents k)
unfolding dequeue
dequeue-pop k v = elim (Bool-cases (ltb 0 k.count)) [
  | inl some_left ↦
      rw
        (
          some_left,
          gather-pop k.buf k.tail k.count v.tail_in (ground arith),
          next_offset k.tail v.tail_in,
        )
        refl
  | inr empty ↦ let zero_count : k.count ≡ 0 = ground arith in rw (empty, zero_count) refl
]

-- Taking a code keeps the buffer valid.
pub dequeue-IsValid : (k : Kb) (c : ℕ) (k' : Kb) → IsValid k → dequeue k ≡ some (c, k') → IsValid k'
unfolding dequeue
dequeue-IsValid k c k' v e = ground arith

-- What the keyboard and the processes do: an interrupt that leaves a code, and a call of `kb_read`.
pub data Event : Type 0 where
  key : ℕ → Event
  read : Event

-- The codes that the calls of `kb_read` take, `none` for one that finds the buffer empty.
unfoldable pub run : Kb → List Event → List (Option ℕ)
run k [] = []
run k (key c ∷ es) = run (kbd_store c k).0 es
run k (read ∷ es) = elim (dequeue k) [
  | none ↦ none ∷ run k es
  | some (c, k') ↦ some c ∷ run (status_process c k') es
]

unfoldable pub run_queue : List ℕ → List Event → List (Option ℕ)
run_queue q [] = []
run_queue q (key c ∷ es) = run_queue (if is_lock_release c then q else push c q) es
run_queue [] (read ∷ es) = none ∷ run_queue [] es
run_queue (c ∷ q) (read ∷ es) = some c ∷ run_queue q es

-- The ring fields, which the lock keys and the ports leave alone.
record SameRing (k k' : Kb) : Type 0 where
  same_buf : k'.buf ≡ k.buf
  same_head : k'.head ≡ k.head
  same_tail : k'.tail ≡ k.tail
  same_count : k'.count ≡ k.count

status_process-SameRing : (c : ℕ) (k : Kb) → SameRing k (status_process c k)
unfolding status_process
status_process-SameRing c k = ground arith

kbd_store-SameRing :
    (c : ℕ) (k : Kb) → SameRing (if is_lock_release c then k else enqueue c k) (kbd_store c k).0
unfolding kbd_store
kbd_store-SameRing c k = ground arith

SameRing-IsValid : (k k' : Kb) → SameRing k k' → IsValid k → IsValid k' × (contents k' ≡ contents k)
SameRing-IsValid k k' s v = (ground arith, rw (s.same_buf, s.same_tail, s.same_count) refl)

kbd_store-push :
    (c : ℕ) (k : Kb)
    → IsValid k
    → IsValid (kbd_store c k).0
      × (contents (kbd_store c k).0
          ≡ (if is_lock_release c then contents k else push c (contents k)))
kbd_store-push c k v = elim (Bool-cases (is_lock_release c)) [
  | inl skip ↦
      let same = rw skip at (kbd_store-SameRing c k) in
      rw skip (SameRing-IsValid k (kbd_store c k).0 same v)
  | inr store ↦
      let same = rw store at (kbd_store-SameRing c k) in
      let (valid, pushed) = enqueue-push k c v in
      let (valid', same_codes) = SameRing-IsValid (enqueue c k) (kbd_store c k).0 same valid in
      rw store (valid', same_codes ∙ pushed)
]

pop-eq-none : (q : List ℕ) → pop q ≡ none → q ≡ []
pop-eq-none [] h = refl
pop-eq-none (c ∷ q) h = cc

pop-eq-some : (q : List ℕ) (c : ℕ) (r : List ℕ) → pop q ≡ some (c, r) → q ≡ c ∷ r
pop-eq-some [] c r h = cc
pop-eq-some (d ∷ q) c r h = cc

-- No sequence of interrupts and reads tells the circular buffer from a queue of at most 32 codes
-- that the releases of lock keys never enter.
pub run-run_queue : (es : List Event) (k : Kb) → IsValid k → run k es ≡ run_queue (contents k) es
unfolding run run_queue
run-run_queue [] k v = refl
run-run_queue (key c ∷ es) k v =
    let (valid, codes) = kbd_store-push c k v in
    rw (run-run_queue es (kbd_store c k).0 valid, codes)
run-run_queue (read ∷ es) k v = elim (Option-cases (dequeue k)) [
  | inl empty ↦
      let no_codes = pop-eq-none (contents k) (sym (dequeue-pop k v) ∙ ap view empty) in
      rw (empty, run, run-run_queue es k v, no_codes)
  | inr ((c, k'), got) ↦
      let codes = pop-eq-some (contents k) c (contents k') (sym (dequeue-pop k v) ∙ ap view got) in
      let (valid, same) =
        SameRing-IsValid k' (status_process c k') (status_process-SameRing c k')
          (dequeue-IsValid k c k' v got) in
      rw (got, run, run-run_queue es (status_process c k') valid, same, codes)
]
