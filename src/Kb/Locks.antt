-- ===== src/Kb/Locks.antt =====
-- The lock keys, the reads of the key table and the interrupt's loop of ker/kb.c.
use myos_ia.Prelude.{
  ℕ, zero, suc, ◌+◌, ◌-◌, ◌*◌, ◌<◌, ◌≤◌, ◌≡◌, ◌↔◌, ◌⊎◌, refl, Bool, true, false, Option, none, some,
  List, [], ◌∷◌, ◌++◌, arith, ltb, leb, ◌==◌, if◌then◌else◌, inl, inr, bit_and, bit_or, length,
  get_elem?,
}
use myos_ia.Prelude.Bits.{every, every-at, and-low}
use myos_ia.Kb.Keymap.{keymap}
use myos_ia.Kb.{
  Kb, kbd_data_reg, capslock_code, numlock_code, scrolllock_code, drain, kbd_int, kbd_store,
  status_process, map_key, dequeue, kb_read, outside_table, Read, translate,
}

abbrev pub Flag : ℕ → Type 0
Flag n = n < 2

pub record HasFlags (k : Kb) : Type 0 where
  pub shift_flag : Flag k.shift
  pub caps_flag : Flag k.capslock
  pub num_flag : Flag k.numlock
  pub scroll_flag : Flag k.scrolllock

two_values : (n : ℕ) → n < 2 → (n ≡ 0) ⊎ (n ≡ 1)
two_values n h = omega arith

leds_table :
    (s n c : ℕ) → s < 2 → n < 2 → c < 2 → bit_or (bit_or s (n * 2)) (c * 4) ≡ s + 2 * n + 4 * c
leds_table s n c hs hn hc = elim (two_values s hs) [
  | inl es ↦ elim (two_values n hn) [
    | inl en ↦ elim (two_values c hc) [ inl ec ↦ rw (es, en, ec) | inr ec ↦ rw (es, en, ec) ]
    | inr en ↦ elim (two_values c hc) [ inl ec ↦ rw (es, en, ec) | inr ec ↦ rw (es, en, ec) ]
  ]
  | inr es ↦ elim (two_values n hn) [
    | inl en ↦ elim (two_values c hc) [ inl ec ↦ rw (es, en, ec) | inr ec ↦ rw (es, en, ec) ]
    | inr en ↦ elim (two_values c hc) [ inl ec ↦ rw (es, en, ec) | inr ec ↦ rw (es, en, ec) ]
  ]
]

-- The byte that `set_leds` sends last: a bit for each lock.
abbrev pub leds : Kb → ℕ
leds k = k.scrolllock + 2 * k.numlock + 4 * k.capslock

abbrev pub is_lock : ℕ → Bool
is_lock code =
    if code == capslock_code
    then true
    else if code == numlock_code
    then true
    else code == scrolllock_code

abbrev pub flip_if : Bool → ℕ → ℕ
flip_if true n = 1 - n
flip_if false n = n

-- A code flips the one lock that it names, a lock key sends the LED command and then a byte that
-- shows the new state of all three locks, and any other key sends nothing.
pub status_process-locks :
    (code : ℕ) (k : Kb)
    → HasFlags k
    → let k' = status_process code k in
      let key : ℕ = bit_and code 0x7f in
      HasFlags k'
      × (k'.capslock ≡ flip_if (key == capslock_code) k.capslock)
      × (k'.numlock ≡ flip_if (key == numlock_code) k.numlock)
      × (k'.scrolllock ≡ flip_if (key == scrolllock_code) k.scrolllock)
      × (k'.written ≡ (
          if is_lock key
          then (kbd_data_reg, leds k') ∷ (kbd_data_reg, 0xed) ∷ k.written
          else k.written))
unfolding status_process
status_process-locks code k f = (
  ground arith,
  ground arith,
  ground arith,
  ground arith,
  ground (
    arith,
    leds_table k.scrolllock k.numlock (1 - k.capslock),
    leds_table k.scrolllock (1 - k.numlock) k.capslock,
    leds_table (1 - k.scrolllock) k.numlock k.capslock,
  ),
)

store_code : Kb → Option ℕ → Option (Kb × Bool)
store_code k none = none
store_code k (some code) = some (kbd_store code k)

-- Bytes that are read with the output buffer still full.
abbrev pub pending : List ℕ → List (ℕ × ℕ)
pending [] = []
pending (c ∷ cs) = (c, 1) ∷ pending cs

kbd_int_lem : (reads : List (ℕ × ℕ)) (k : Kb) → kbd_int reads k ≡ store_code k (drain reads)
unfolding kbd_int store_code
kbd_int_lem reads k = ground arith

drain-last :
    (lost : List ℕ) (code : ℕ) (rest : List (ℕ × ℕ))
    → drain (pending lost ++ ((code, 0) ∷ rest)) ≡ some code
unfolding drain
drain-last [] code rest = refl
drain-last (c ∷ lost) code rest = drain-last lost code rest

-- While the controller reports a full output buffer the loop of `kbd_int` reads on, and only the
-- last byte counts: the codes read before it are lost.
pub kbd_int-last :
    (lost : List ℕ) (code : ℕ) (rest : List (ℕ × ℕ)) (k : Kb)
    → kbd_int (pending lost ++ ((code, 0) ∷ rest)) k ≡ kbd_int ((code, 0) ∷ []) k
kbd_int-last lost code rest k =
    rw (kbd_int_lem, kbd_int_lem, drain-last lost code rest, drain-last [] code [])

get_elem?-eq-none : {A : Type 0} (xs : List A) (i : ℕ) → (get_elem? xs i ≡ none) ↔ (length xs ≤ i)
get_elem?-eq-none [] i = (λ h. omega arith, λ h. refl)
get_elem?-eq-none (x ∷ xs) zero = (λ h. cc, λ h. absurd (omega arith))
get_elem?-eq-none (x ∷ xs) (suc i) =
    let (to, back) = get_elem?-eq-none xs i in (λ h. omega (arith, to h), λ h. back (omega arith))

press_table : every (λ c. if bit_and c 0x80 == 0 then ltb c 128 else leb 128 c) 256 ≡ true
unfolding every
press_table = refl

press_lem : (c : ℕ) → c < 256 → (if bit_and c 0x80 == 0 then ltb c 128 else leb 128 c) ≡ true
press_lem c h = every-at _ 256 press_table c h

length-keymap : length keymap ≡ 94
unfolding keymap
length-keymap = refl

map_key-eq-none : (scode : ℕ) (k : Kb) → (map_key scode k ≡ none) ↔ (94 ≤ scode)
unfolding map_key
map_key-eq-none scode k =
    let (short, long) = get_elem?-eq-none keymap scode in
    (
      λ h. omega (arith, length-keymap, short (ground arith)),
      λ h. ground (arith, long (omega (arith, length-keymap))),
    )

translate-outside_table :
    (k : Kb) (code : ℕ)
    → code < 256
    → (translate code k ≡ outside_table) ↔ ((94 ≤ code) × (code < 128))
unfolding translate
translate-outside_table k code byte =
    let (none_from, none_to) = map_key-eq-none (bit_and code 0x7f) (status_process code k) in
    (
      λ h. ground (arith, press_lem code, and-low 7 code, none_from),
      λ h. ground (arith, press_lem code, and-low 7 code, none_to),
    )

use_code : Option (ℕ × Kb) → Read
use_code none = Read.sleeps
use_code (some (code, k)) = translate code k

kb_read_lem : (k : Kb) → kb_read k ≡ use_code (dequeue k)
unfolding kb_read use_code
kb_read_lem k = ground arith

-- `kb_read` reads outside `keymap` exactly when the code that it takes is the press of a key with a
-- scan code from 94 to 127.
pub kb_read-outside_table :
    (k : Kb) (code : ℕ) (k' : Kb)
    → dequeue k ≡ some (code, k')
    → code < 256
    → (kb_read k ≡ outside_table) ↔ ((94 ≤ code) × (code < 128))
unfolding use_code
kb_read-outside_table k code k' got byte =
    rw (kb_read_lem k, got) (translate-outside_table k' code byte)
