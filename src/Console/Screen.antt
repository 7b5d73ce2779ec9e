-- ===== src/Console/Screen.antt =====
-- The screen that `cons_echo` of ker/console.c leaves.
use myos_ia.Prelude.{
  ℕ, ◌+◌, ◌≡◌, refl, ◌∙◌, List, [], ◌∷◌, arith, ltb, ◌==◌, if◌then◌else◌, Bool-cases, inl, inr,
  length, get_or,
}
use myos_ia.Console.{Console, echo_char, cons_echo}
use myos_ia.Console.Lines.{length-moved_up, get_or-moved_up}
use myos_ia.Console.Echo.{
  IsValid, shown, scrolls, next_row, next_col, written, length-written, get_or-written,
  echo_char-parts,
}

length-screen : (c : ℕ) (con : Console) → IsValid con → length (echo_char c con).screen ≡ 4000
length-screen c con v =
    let (screen, row, col) = echo_char-parts c con v in
    let cells : length (written c con) ≡ 4000 = length-written c con ∙ v.cells in
    rw screen (elim (Bool-cases (scrolls c con)) [
      | inl up ↦ rw up (length-moved_up 3840 160 (written c con) cells)
      | inr stays ↦ rw stays cells
    ])

echo_char-IsValid : (c : ℕ) (con : Console) → IsValid con → IsValid (echo_char c con)
echo_char-IsValid c con v =
    let (screen, row, col) = echo_char-parts c con v in
    record {
      cells = length-screen c con v;
      row_in = rw row (ground (arith, v.row_in));
      col_in = rw col (ground (arith, v.col_in));
    }

-- On a screen of 25 lines with the cursor on it, a character is shown with its colour where the
-- cursor is, and no other byte changes; the cursor moves to the next column, or to the start of
-- the next line at the end of a line or for a new line; and below the last line all the lines move
-- up by one, the last becoming empty.
pub echo_char-screen :
    (c : ℕ) (con : Console) (k : ℕ)
    → IsValid con
    → (get_or (echo_char c con).screen k 0 ≡ (
        if scrolls c con then (if ltb k 3840 then shown c con (k + 160) else 0) else shown c con k))
      × ((echo_char c con).c_row ≡ next_row c con)
      × ((echo_char c con).c_col ≡ next_col c con)
echo_char-screen c con k v =
    let (screen, row, col) = echo_char-parts c con v in
    let cells : length (written c con) ≡ 160 + 3840 = length-written c con ∙ v.cells in
    (
      rw screen (elim (Bool-cases (scrolls c con)) [
        | inl up ↦
            rw
              (
                up,
                get_or-moved_up 3840 160 k (written c con) cells,
                get_or-written c con (k + 160) v,
              )
              refl
        | inr stays ↦ rw (stays, get_or-written c con k v) refl
      ]),
      row,
      col,
    )

-- Whatever the string is, `cons_echo` keeps the screen at its 4000 bytes and the cursor on it.
pub cons_echo-IsValid : (s : List ℕ) (con : Console) → IsValid con → IsValid (cons_echo s con)
unfolding cons_echo
cons_echo-IsValid [] con v = v
cons_echo-IsValid (c ∷ s) con v = elim (Bool-cases (c == 0)) [
  | inl end ↦ rw end v
  | inr more ↦ rw more (cons_echo-IsValid s (echo_char c con) (echo_char-IsValid c con v))
]
