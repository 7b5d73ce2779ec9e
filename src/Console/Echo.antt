-- ===== src/Console/Echo.antt =====
-- One round of `cons_echo` of ker/console.c: the screen and the cursor after a character.
use myos_ia.Prelude.{
  ◌||◌, ◌&&◌, ℕ, ◌+◌, ◌*◌, ◌<◌, ◌≡◌, min, refl, ap, ◌∙◌, Bool, List, arith, leb, ◌==◌,
  if◌then◌else◌, Bool-cases, inl, inr, length, length-set, get_or, get_or-set_self, get_or-set_ne,
  set,
}
use myos_ia.Console.{Console, sys_color, scroll_screen, char_out, set_cur, scroll_check, echo_char}
use myos_ia.Console.Lines.{scroll_screen_lem, moved_up}

-- The cursor is on the screen.
pub record IsValid (con : Console) : Type 0 where
  pub cells : length con.screen ≡ 4000
  pub row_in : con.c_row < 25
  pub col_in : con.c_col < 80

-- What a byte of the screen is after a character, before the screen scrolls.
abbrev pub shown : ℕ → Console → ℕ → ℕ
shown c con k =
    let at : ℕ = 160 * con.c_row + con.c_col * 2 in
    if c == 0x0a
    then get_or con.screen k 0
    else if k == at
    then c
    else if k == at + 1
    then sys_color
    else get_or con.screen k 0

-- Whether a character moves the screen up: a new line in the last line, or its last column.
abbrev pub scrolls : ℕ → Console → Bool
scrolls c con = con.c_row == 24 && (c == 0x0a || con.c_col == 79)

-- The cursor after a character.
abbrev pub next_row : ℕ → Console → ℕ
next_row c con = if c == 0x0a || con.c_col == 79 then min 24 (con.c_row + 1) else con.c_row

abbrev pub next_col : ℕ → Console → ℕ
next_col c con = if c == 0x0a || con.c_col == 79 then 0 else con.c_col + 1

pub written : ℕ → Console → List ℕ
written c con =
    let at : ℕ = 160 * con.c_row + con.c_col * 2 in
    if c == 0x0a then con.screen else set (set con.screen at c) (at + 1) sys_color

pub length-written : (c : ℕ) (con : Console) → length (written c con) ≡ length con.screen
unfolding written
length-written c con = elim (Bool-cases (c == 0x0a)) [
  | inl line ↦ rw line refl
  | inr char ↦
      let at : ℕ = 160 * con.c_row + con.c_col * 2 in
      rw char (length-set (set con.screen at c) (at + 1) sys_color ∙ length-set con.screen at c)
]

set_pair :
    (xs : List ℕ) (at c v k : ℕ)
    → at + 1 < length xs
    → get_or (set (set xs at c) (at + 1) v) k 0
      ≡ (if k == at then c else if k == at + 1 then v else get_or xs k 0)
set_pair xs at c v k h =
    let once : List ℕ = set xs at c in
    let size : length once ≡ length xs = length-set xs at c in
    elim (Bool-cases (k == at)) [
      | inl here ↦
          let e : k ≡ at = ground arith in
          rw here (
            ap (λ i. get_or (set once (at + 1) v) i 0) e
            ∙ get_or-set_ne once (at + 1) at v 0 (λ x. omega arith)
            ∙ get_or-set_self xs at c 0 (omega arith))
      | inr other ↦ elim (Bool-cases (k == at + 1)) [
        | inl after ↦
            let e : k ≡ at + 1 = ground arith in
            rw (other, after)
              (ap (λ i. get_or (set once (at + 1) v) i 0) e
                ∙ get_or-set_self once (at + 1) v 0 (omega arith))
        | inr apart ↦
            rw (other, apart)
              (get_or-set_ne once (at + 1) k v 0 (ground arith)
                ∙ get_or-set_ne xs at k c 0 (ground arith))
      ]
    ]

pub get_or-written :
    (c : ℕ) (con : Console) (k : ℕ) → IsValid con → get_or (written c con) k 0 ≡ shown c con k
unfolding written
get_or-written c con k v = elim (Bool-cases (c == 0x0a)) [
  | inl line ↦ rw line refl
  | inr char ↦
      let at : ℕ = 160 * con.c_row + con.c_col * 2 in
      rw char (set_pair con.screen at c sys_color k (omega (arith, v.cells, v.row_in, v.col_in)))
]

-- What `scroll_check` does, by the cursor that it finds.
checked : Console → Console
checked con =
    if leb 80 con.c_col
    then (if leb 24 con.c_row
        then record (scroll_screen (record con { c_row = con.c_row + 1; c_col = 0 })) {
          c_row = 24;
          c_col = 0;
        }
        else record con { c_row = con.c_row + 1; c_col = 0 })
    else if leb 25 con.c_row
    then record (scroll_screen con) { c_row = 24; c_col = 0 }
    else con

scroll_check_lem : (con : Console) → scroll_check con ≡ checked con
unfolding scroll_check checked
scroll_check_lem con = elim (Bool-cases (leb 80 con.c_col)) [
  | inl wide ↦
      let shift : leb 25 (con.c_row + 1) ≡ leb 24 con.c_row = ground arith in rw (wide, shift) refl
  | inr fits ↦ rw fits refl
]

-- The console that `scroll_check` gets from `echo_char`.
unchecked : ℕ → Console → Console
unfolding char_out set_cur
unchecked c con =
    if c == 0x0a
    then record con { c_row = con.c_row + 1; c_col = 0 }
    else (let shown : Console = char_out c sys_color con in
        let cur : ℕ = con.c_row * 80 + con.c_col in
        let moved : Console = set_cur cur (record shown { c_cur = cur }) in
        record moved { c_col = con.c_col + 1 })

echo_char_lem : (c : ℕ) (con : Console) → echo_char c con ≡ checked (unchecked c con)
unfolding echo_char unchecked
echo_char_lem c con = elim (Bool-cases (c == 0x0a)) [
  | inl line ↦ rw line (scroll_check_lem _)
  | inr char ↦ rw char (scroll_check_lem _)
]

unchecked-parts :
    (c : ℕ) (con : Console)
    → ((unchecked c con).screen ≡ written c con)
      × ((unchecked c con).c_row ≡ (if c == 0x0a then con.c_row + 1 else con.c_row))
      × ((unchecked c con).c_col ≡ (if c == 0x0a then 0 else con.c_col + 1))
unfolding unchecked written
unchecked-parts c con = elim (Bool-cases (c == 0x0a)) [
  | inl line ↦ rw line (refl, refl, refl)
  | inr char ↦ rw char (refl, refl, refl)
]

-- Whether `scroll_check` scrolls.
overflows : Console → Bool
overflows con = if leb 80 con.c_col then leb 24 con.c_row else leb 25 con.c_row

checked-parts :
    (con : Console)
    → ((checked con).screen ≡ (if overflows con then moved_up 3840 160 con.screen else con.screen))
      × ((checked con).c_row
          ≡ (if overflows con then 24 else if leb 80 con.c_col then con.c_row + 1 else con.c_row))
      × ((checked con).c_col
          ≡ (if overflows con then 0 else if leb 80 con.c_col then 0 else con.c_col))
unfolding checked overflows
checked-parts con = elim (Bool-cases (leb 80 con.c_col)) [
  | inl wide ↦ elim (Bool-cases (leb 24 con.c_row)) [
    | inl low ↦
        rw (wide, low)
          (scroll_screen_lem (record con { c_row = con.c_row + 1; c_col = 0 }), refl, refl)
    | inr high ↦ rw (wide, high) (refl, refl, refl)
  ]
  | inr fits ↦ elim (Bool-cases (leb 25 con.c_row)) [
    | inl low ↦ rw (fits, low) (scroll_screen_lem con, refl, refl)
    | inr high ↦ rw (fits, high) (refl, refl, refl)
  ]
]

overflows-unchecked :
    (c : ℕ) (con : Console) → IsValid con → overflows (unchecked c con) ≡ scrolls c con
unfolding overflows
overflows-unchecked c con v =
    let (screen, row, col) = unchecked-parts c con in
    rw (row, col) (ground (arith, v.row_in, v.col_in))

-- The screen, the cursor and the row after `echo_char`.
pub echo_char-parts :
    (c : ℕ) (con : Console)
    → IsValid con
    → ((echo_char c con).screen
        ≡ (if scrolls c con then moved_up 3840 160 (written c con) else written c con))
      × ((echo_char c con).c_row ≡ next_row c con)
      × ((echo_char c con).c_col ≡ next_col c con)
echo_char-parts c con v =
    let (screen, row, col) = unchecked-parts c con in
    let (screen', row', col') = checked-parts (unchecked c con) in
    rw (echo_char_lem c con, screen', row', col', overflows-unchecked c con v, screen, row, col)
      (refl, ground (arith, v.row_in, v.col_in), ground (arith, v.row_in, v.col_in))
