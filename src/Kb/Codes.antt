-- ===== src/Kb/Codes.antt =====
-- The circular buffer of ker/kb.c as the list of the scan codes in it.
use native.Mathlib.Numerals.{add-one}
use myos_ia.Prelude.{
  ℕ, zero, suc, ◌+◌, ◌-◌, ◌%◌, ◌<◌, ◌≤◌, ◌≡◌, ◌≢◌, refl, sym, ap, ◌∙◌, List, [], ◌∷◌, ◌++◌, arith,
  ◌==◌, if◌then◌else◌, length, length-append, get_or, set, get_or-set_self, get_or-set_ne,
}
use myos_ia.Kb.{Kb, kb_buf_size}

pub record IsValid (k : Kb) : Type 0 where
  pub storage : length k.buf ≡ kb_buf_size
  pub tail_in : k.tail < kb_buf_size
  pub count_in : k.count ≤ kb_buf_size
  pub head_at : k.head ≡ (k.tail + k.count) % 32

-- The codes in the buffer, oldest first.
abbrev gather : List ℕ → ℕ → ℕ → List ℕ
gather buf t zero = []
gather buf t (suc n) = gather buf t n ++ (get_or buf ((t + n) % 32) 0 ∷ [])

abbrev pub contents : Kb → List ℕ
contents k = gather k.buf k.tail k.count

pub length-gather : (buf : List ℕ) (t n : ℕ) → length (gather buf t n) ≡ n
length-gather buf t zero = refl
length-gather buf t (suc n) = omega (
  arith,
  length-append (gather buf t n) (get_or buf ((t + n) % 32) 0 ∷ []),
  length-gather buf t n,
)

-- A write behind the gathered codes does not change them.
gather-set :
    (buf : List ℕ) (t n i v : ℕ)
    → i < 32
    → t < 32
    → ((j : ℕ) → j < n → (t + j) % 32 ≢ i)
    → gather (set buf i v) t n ≡ gather buf t n
gather-set buf t zero i v hi ht ne = refl
gather-set buf t (suc n) i v hi ht ne =
    rw
      (
        gather-set buf t n i v hi ht (λ j h. ne j (omega arith)),
        get_or-set_ne buf i ((t + n) % 32) v 0 (λ e. ne n (omega arith) (sym e)),
      )
      refl

-- The oldest code comes first.
gather-first :
    (buf : List ℕ) (t n : ℕ)
    → t < 32
    → gather buf t (suc n) ≡ get_or buf t 0 ∷ gather buf ((t + 1) % 32) n
gather-first buf t zero h = rw (in_place)
  where
    in_place : (t + 0) % 32 ≡ t
    in_place = omega arith
gather-first buf t (suc n) h = rw (gather-first buf t n h, shift) refl
  where
    shift : (t + suc n) % 32 ≡ ((t + 1) % 32 + n) % 32
    shift = omega arith

pub gather-push :
    (buf : List ℕ) (t n c : ℕ)
    → length buf ≡ 32
    → t < 32
    → n < 32
    → gather (set buf ((t + n) % 32) c) t (n + 1) ≡ gather buf t n ++ (c ∷ [])
gather-push buf t n c len ht hn =
    rw
      (
        add-one,
        gather-set buf t n ((t + n) % 32) c (omega arith) ht (λ j h. omega arith),
        get_or-set_self buf ((t + n) % 32) c 0 (omega arith),
      )
      refl

pub next_offset : (t : ℕ) → t < 32 → (if t + 1 == 32 then 0 else t + 1) ≡ (t + 1) % 32
next_offset t h = ground arith

pub gather-pop :
    (buf : List ℕ) (t n : ℕ)
    → t < 32
    → 0 < n
    → gather buf t n ≡ get_or buf t 0 ∷ gather buf ((t + 1) % 32) (n - 1)
gather-pop buf t zero h pos = absurd (omega arith)
gather-pop buf t (suc n) h pos =
    gather-first buf t n h
    ∙ ap (λ m. get_or buf t 0 ∷ gather buf ((t + 1) % 32) m) {x = n} {y = suc n - 1} (omega arith)
