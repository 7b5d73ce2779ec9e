-- ===== src/Hd/Ring.antt =====
-- The ring of requests of ker/hd.c as the list of the requests in it.
use myos_ia.Prelude.{
  ℕ, zero, suc, ◌+◌, ◌-◌, ◌<◌, ◌≤◌, ◌≡◌, ◌≢◌, refl, ap, ◌∙◌, List, [], ◌∷◌, ◌++◌, arith, ltb,
  if◌then◌else◌, length, get_or, set, get_or-set_ne,
}
use myos_ia.Hd.{buf_size, read_type, Request, no_request, Hd, next}

-- `n` requests from the index `t` on, around the end of the ring.
abbrev pub around : List Request → ℕ → ℕ → List Request
around buf t zero = []
around buf t (suc n) = get_or buf t no_request ∷ around buf (next t) n

-- The index `n` places behind `t`.
abbrev pub behind : ℕ → ℕ → ℕ
behind t n = if ltb (t + n) buf_size then t + n else t + n - buf_size

pub around-set :
    (buf : List Request) (t n i : ℕ) (r : Request)
    → t < buf_size
    → n ≤ i
    → i < buf_size
    → around (set buf (behind t i) r) t n ≡ around buf t n
around-set buf t zero i r ht le hi = refl
around-set buf t (suc n) zero r ht le hi = absurd (omega arith)
around-set buf t (suc n) (suc i) r ht le hi =
    let shift : behind t (suc i) ≡ behind (next t) i = ground arith in
    let apart : behind t (suc i) ≢ t = ground arith in
    rw (get_or-set_ne buf (behind t (suc i)) t r no_request apart) (
      ap (λ k. get_or buf t no_request ∷ around (set buf k r) (next t) n) shift
      ∙ ap (λ q. get_or buf t no_request ∷ q)
          (around-set buf (next t) n i r (ground arith) (omega arith) (omega arith)))

pub around-snoc :
    (buf : List Request) (t n : ℕ)
    → t < buf_size
    → n < buf_size
    → around buf t (n + 1) ≡ around buf t n ++ (get_or buf (behind t n) no_request ∷ [])
around-snoc buf t zero ht hn = let here : behind t 0 ≡ t = ground arith in rw here refl
around-snoc buf t (suc n) ht hn =
    let more : suc n + 1 ≡ suc (n + 1) = omega arith in
    let shift : behind t (suc n) ≡ behind (next t) n = ground arith in
    rw (more, shift)
      (ap (λ q. get_or buf t no_request ∷ q)
        (around-snoc buf (next t) n (ground arith) (omega arith)))

-- A ring that is in order: every request in it is a read.
abbrev pub AllReads : List Request → Type 0
AllReads [] = Unit
AllReads (r ∷ q) = (r.type ≡ read_type) × AllReads q

abbrev pub contents : Hd → List Request
contents h = around h.req_buf h.req_head h.req_count

pub record IsValid (h : Hd) : Type 0 where
  pub storage : length h.req_buf ≡ buf_size
  pub head_in : h.req_head < buf_size
  pub count_in : h.req_count ≤ buf_size
  pub tail_at : h.req_tail ≡ behind h.req_head h.req_count
  pub reads : AllReads (contents h)
