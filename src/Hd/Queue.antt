-- ===== src/Hd/Queue.antt =====
-- The ring of requests of ker/hd.c against a queue of at most five requests.
use myos_ia.Prelude.{
  ℕ, zero, suc, ◌+◌, ◌-◌, ◌<◌, ◌≡◌, ◌≢◌, refl, ap, ◌∙◌, true, false, Option, none, some, List, [],
  ◌∷◌, ◌++◌, arith, ltb, leb, ◌==◌, if◌then◌else◌, Bool-cases, inl, inr, length, length-set, get_or,
  set, get_or-set_self, ◌>>>◌,
}
use myos_ia.Hd.{
  buf_size, read_type, Request, no_request, Hd, Action, refused, starts, delivers, next, do_request,
  do_read, ok_read,
}
use myos_ia.Hd.Ring.{around, behind, around-set, around-snoc, AllReads, contents, IsValid}

-- The abstract queue: the first request is the one that the drive works on.
abbrev pub submit : Request → List Request → List Action × List Request
submit r q =
    if leb buf_size (length q)
    then (refused ∷ [], q)
    else (if length q == 0 then starts r ∷ [] else [], q ++ (r ∷ []))

abbrev pub start_first : List Request → List Action
start_first [] = []
start_first (r ∷ q) = starts r ∷ []

abbrev pub complete : List Request → Option (List Action × List Request)
complete [] = none
complete (r ∷ q) = some (delivers r ∷ start_first q, q)

-- The request that `do_read` makes.
abbrev pub request : ℕ → ℕ → ℕ → ℕ → Request
request current buf size block = record {
  block = block;
  count = size >>> 9;
  buf = buf;
  waiter = current;
  type = read_type;
}

length-around : (buf : List Request) (t n : ℕ) → length (around buf t n) ≡ n
length-around buf t zero = refl
length-around buf t (suc n) = ap suc (length-around buf (next t) n)

AllReads-snoc :
    (q : List Request) (r : Request) → AllReads q → r.type ≡ read_type → AllReads (q ++ (r ∷ []))
AllReads-snoc [] r a h = (h, tt)
AllReads-snoc (x ∷ q) r a h = (a.0, AllReads-snoc q r a.1 h)

-- The ring with one more request.
abbrev added : Request → Hd → Hd
added r h = record h {
  req_buf = set h.req_buf h.req_tail r;
  req_tail = next h.req_tail;
  req_count = h.req_count + 1;
}

contents-added :
    (r : Request) (h : Hd)
    → IsValid h
    → h.req_count < buf_size
    → contents (added r h) ≡ contents h ++ (r ∷ [])
contents-added r h v room =
    let tail : h.req_tail ≡ behind h.req_head h.req_count = v.tail_at in
    rw tail (
      around-snoc (set h.req_buf (behind h.req_head h.req_count) r) h.req_head h.req_count v.head_in
        room
      ∙ rw
          (
            around-set h.req_buf h.req_head h.req_count h.req_count r v.head_in (omega arith) room,
            get_or-set_self h.req_buf (behind h.req_head h.req_count) r no_request
                (ground (arith, v.storage, v.head_in)),
          )
          refl)

added-IsValid :
    (r : Request) (h : Hd)
    → IsValid h
    → h.req_count < buf_size
    → r.type ≡ read_type
    → IsValid (added r h)
added-IsValid r h v room is_read =
    let same = contents-added r h v room in
    record {
      storage = length-set h.req_buf h.req_tail r ∙ v.storage;
      head_in = v.head_in;
      count_in = omega arith;
      tail_at = ground (arith, v.tail_at, v.head_in);
      reads = rw same (AllReads-snoc (contents h) r v.reads is_read);
    }

do_read_lem :
    (current buf size block : ℕ) (h : Hd)
    → do_read current buf size block h ≡ (
        if leb buf_size h.req_count
        then (refused ∷ [], h)
        else (let g : Hd = added (request current buf size block) h in
            (if g.req_count == 1 then do_request g else [], g)))
unfolding do_read
do_read_lem current buf size block h = refl

do_request-contents : (h : Hd) → do_request h ≡ start_first (contents h)
unfolding do_request
do_request-contents h = elim (Bool-cases (ltb 0 h.req_count)) [
  | inl more ↦
      let count : h.req_count ≡ suc (h.req_count - 1) = ground arith in rw (more, count) refl
  | inr done ↦ let count : h.req_count ≡ 0 = ground arith in rw (done, count) refl
]

-- The drive is started where the new request is the only one.
first_action :
    (r : Request) (h : Hd)
    → IsValid h
    → h.req_count < buf_size
    → (if h.req_count + 1 == 1 then do_request (added r h) else [])
      ≡ (if h.req_count == 0 then starts r ∷ [] else [])
first_action r h v room = elim (Bool-cases (h.req_count == 0)) [
  | inl alone ↦
      let one : (h.req_count + 1 == 1) ≡ true = ground arith in
      let count : h.req_count ≡ 0 = ground arith in
      let empty : contents h ≡ [] = ap (around h.req_buf h.req_head) count in
      rw (alone, one)
        (do_request-contents (added r h)
          ∙ ap start_first (contents-added r h v room ∙ ap (λ q. q ++ (r ∷ [])) empty))
  | inr waiting ↦
      let more : (h.req_count + 1 == 1) ≡ false = ground arith in rw (waiting, more) refl
]

-- On a valid ring `do_read` does what the queue does: it refuses the sixth request, starts the
-- drive exactly when no request was waiting, and puts the request behind the others.
pub do_read-submit :
    (current buf size block : ℕ) (h : Hd)
    → IsValid h
    → let (actions, g) = do_read current buf size block h in
      let (expected, q) = submit (request current buf size block) (contents h) in
      (actions ≡ expected) × (contents g ≡ q) × IsValid g
do_read-submit current buf size block h v =
    let r : Request = request current buf size block in
    let long : length (contents h) ≡ h.req_count = length-around h.req_buf h.req_head h.req_count in
    rw (do_read_lem current buf size block h, long)
      (elim (Bool-cases (leb buf_size h.req_count)) [
        | inl full ↦ rw full (refl, refl, v)
        | inr room ↦
            let same = contents-added r h v (ground arith) in
            rw room
              (first_action r h v (ground arith), same, added-IsValid r h v (ground arith) refl)
      ])

-- What the ring and the queue give for an interrupt agree.
abbrev pub Completed : Option (List Action × Hd) → Option (List Action × List Request) → Type 0
Completed (some (actions, g)) (some (expected, q)) =
    (actions ≡ expected) × (contents g ≡ q) × IsValid g
Completed (some (actions, g)) none = ⊥
Completed none (some (expected, q)) = ⊥
Completed none none = Unit

ok_read-waiting :
    (h : Hd) (r : Request)
    → r ≡ get_or h.req_buf h.req_head no_request
    → r.type ≡ read_type
    → h.req_count ≢ 0
    → ok_read h ≡ (
        let g : Hd = record h { req_head = next h.req_head; req_count = h.req_count - 1 } in
        some (delivers r ∷ do_request g, g))
unfolding ok_read
ok_read-waiting h r e is_read waiting =
    let some_left : (h.req_count == 0) ≡ false = ground arith in
    let type_test : ((get_or h.req_buf h.req_head no_request).type == read_type) ≡ true =
      ground (arith, ap (λ x. x.type) e) in
    rw (type_test, some_left, e) refl

-- On a valid ring with a request in it the interrupt does what the queue does: it delivers the
-- oldest request to its process, and starts the drive on the next one if there is one.
pub ok_read-complete :
    (h : Hd) → IsValid h → h.req_count ≢ 0 → Completed (ok_read h) (complete (contents h))
ok_read-complete h v waiting =
    let r : Request = get_or h.req_buf h.req_head no_request in
    let count : h.req_count ≡ suc (h.req_count - 1) = omega arith in
    let split : contents h ≡ r ∷ around h.req_buf (next h.req_head) (h.req_count - 1) =
      ap (around h.req_buf h.req_head) count in
    let reads = rw split at v.reads in
    let g : Hd = record h { req_head = next h.req_head; req_count = h.req_count - 1 } in
    rw (ok_read-waiting h r refl reads.0 waiting, split)
      (
        ap (λ a. delivers r ∷ a) (do_request-contents g),
        refl,
        record {
          storage = v.storage;
          head_in = ground (arith, v.head_in);
          count_in = omega (arith, v.count_in);
          tail_at = ground (arith, v.tail_at, v.head_in, v.count_in);
          reads = reads.1;
        },
      )
