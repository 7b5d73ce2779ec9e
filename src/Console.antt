-- ===== src/Console.antt =====
-- ker/console.c: the text screen, and the output of a string. The 4000 bytes of the screen are those
-- from `c_org` on; the writes to the cursor registers are listed, last first.
pub mod Lines
pub mod Echo
pub mod Screen
mod Tests
use myos_ia.Prelude.{
  ℕ, zero, suc, ◌+◌, ◌-◌, ◌*◌, ◌/◌, ◌%◌, Bool, true, false, List, [], ◌∷◌, ◌++◌, bit_and, leb, ◌==◌,
  if◌then◌else◌, length, get_or, set, take, drop, replicate, ◌>>>◌,
}

-- `console_t`, with the screen that it stands for.
pub record Console : Type 0 where
  pub screen : List ℕ
  pub c_cur : ℕ
  pub c_row : ℕ
  pub c_col : ℕ
  pub ports : List (ℕ × ℕ)

abbrev pub sys_color : ℕ
sys_color = 0x7

abbrev pub udv_base : ℕ
udv_base = 0x3d4

-- `scr_init`
unfoldable pub scr_init : Console → Console
scr_init con = record con { c_col = 0; c_row = 0 }

-- `scroll_screen`: the 24 lower lines move up, and the last is cleared.
unfoldable pub scroll_screen : Console → Console
scroll_screen con = record con { screen = take 3840 (drop 160 con.screen) ++ replicate 160 0 }

-- `char_out`: a character and its colour at the cursor.
unfoldable pub char_out : ℕ → ℕ → Console → Console
char_out c color con =
    let at : ℕ = 160 * con.c_row + con.c_col * 2 in
    record con { screen = set (set con.screen at c) (at + 1) color }

-- `set_cur`
unfoldable pub set_cur : ℕ → Console → Console
set_cur cur con = record con {
  ports =
      (udv_base + 1, bit_and cur 0xff)
      ∷ (udv_base, 15)
      ∷ (udv_base + 1, bit_and (cur >>> 8) 0xff)
      ∷ (udv_base, 14)
      ∷ con.ports;
}

-- The first test of `scroll_check`.
unfoldable pub wrap_line : Console → Console
wrap_line con = if leb 80 con.c_col then record con { c_row = con.c_row + 1; c_col = 0 } else con

-- The second test of `scroll_check`.
unfoldable pub wrap_screen : Console → Console
wrap_screen con =
    if leb 25 con.c_row then record (scroll_screen con) { c_row = 24; c_col = 0 } else con

-- `scroll_check`
unfoldable pub scroll_check : Console → Console
unfolding wrap_line wrap_screen
scroll_check con = wrap_screen (wrap_line con)

-- One round of the loop of `cons_echo`.
unfoldable pub echo_char : ℕ → Console → Console
unfolding scroll_check char_out set_cur
echo_char c con =
    if c == 0x0a
    then scroll_check (record con { c_row = con.c_row + 1; c_col = 0 })
    else (let shown : Console = char_out c sys_color con in
        let cur : ℕ = con.c_row * 80 + con.c_col in
        let moved : Console = set_cur cur (record shown { c_cur = cur }) in
        scroll_check (record moved { c_col = con.c_col + 1 }))

-- `cons_echo`, of a string that ends with its first 0.
unfoldable pub cons_echo : List ℕ → Console → Console
unfolding echo_char
cons_echo [] con = con
cons_echo (c ∷ s) con = let rest = cons_echo s (echo_char c con) in if c == 0 then con else rest

-- The loop of `text_out`: no line is wrapped there.
unfoldable pub text_out : ℕ → List ℕ → Console → Console
unfolding char_out
text_out color [] con = con
text_out color (c ∷ s) con =
    let shown : Console = char_out c color con in
    let rest = text_out color s (record shown { c_col = con.c_col + 1 }) in
    if c == 0 then con else rest
