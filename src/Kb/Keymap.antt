-- ===== src/Kb/Keymap.antt =====
-- `keymap` of include/keymap.h: a row for each scan code from 0 to 93, with the characters for no
-- modifier, Shift, Alt, Alt with Shift, and Ctrl.
use myos_ia.Prelude.{ℕ, List, [], ◌∷◌}

pub record Row : Type 0 where
  pub plain : ℕ
  pub shifted : ℕ
  pub alt : ℕ
  pub alt_shifted : ℕ
  pub ctrl : ℕ

unfoldable pub row : ℕ → ℕ → Row
row a b = record { plain = a; shifted = b; alt = 0; alt_shifted = 0; ctrl = 0 }

unfoldable pub keymap : List Row
unfolding row
keymap =
    row 0 0
    ∷ row 0 0
    ∷ row b'1' 0x21
    ∷ row b'2' 0x40
    ∷ row b'3' 0x23
    ∷ row b'4' 0x24
    ∷ row b'5' 0x25
    ∷ row b'6' 0x5e
    ∷ row b'7' 0x26
    ∷ row b'8' 0x2a
    ∷ row b'9' 0x28
    ∷ row b'0' 0x29
    ∷ row 0x2d 0x5f
    ∷ row 0x3d 0x2b
    ∷ row 0 0
    ∷ row 0 0
    ∷ row b'q' b'Q'
    ∷ row b'w' b'W'
    ∷ row b'e' b'E'
    ∷ row b'r' b'R'
    ∷ row b't' b'T'
    ∷ row b'y' b'Y'
    ∷ row b'u' b'U'
    ∷ row b'i' b'I'
    ∷ row b'o' b'O'
    ∷ row b'p' b'P'
    ∷ row 0x5b 0x7b
    ∷ row 0x5d 0x7d
    ∷ row 0 0
    ∷ row 0 0
    ∷ row b'a' b'A'
    ∷ row b's' b'S'
    ∷ row b'd' b'D'
    ∷ row b'f' b'F'
    ∷ row b'g' b'G'
    ∷ row b'h' b'H'
    ∷ row b'j' b'J'
    ∷ row b'k' b'K'
    ∷ row b'l' b'L'
    ∷ row 0x3b 0x3a
    ∷ row 0x27 0x22
    ∷ row 0x60 0x7e
    ∷ row 0 0
    ∷ row 0x5c 0x7c
    ∷ row b'z' b'Z'
    ∷ row b'x' b'X'
    ∷ row b'c' b'C'
    ∷ row b'v' b'V'
    ∷ row b'b' b'B'
    ∷ row b'n' b'N'
    ∷ row b'm' b'M'
    ∷ row 0x2c 0x3c
    ∷ row 0x2e 0x3e
    ∷ row 0x2f 0x3f
    ∷ row 0 0
    ∷ row 0 0
    ∷ row 0 0
    ∷ row 0x20 0x20
    ∷ row 0 0
    ∷ row 0 0
    ∷ row 0 0
    ∷ row 0 0
    ∷ row 0 0
    ∷ row 0 0
    ∷ row 0 0
    ∷ row 0 0
    ∷ row 0 0
    ∷ row 0 0
    ∷ row 0 0
    ∷ row 0 0
    ∷ row 0 0
    ∷ row 0 0
    ∷ row 0 0
    ∷ row 0 0
    ∷ row 0 0
    ∷ row 0 0
    ∷ row 0 0
    ∷ row 0 0
    ∷ row 0 0
    ∷ row 0 0
    ∷ row 0 0
    ∷ row 0 0
    ∷ row 0 0
    ∷ row 0 0
    ∷ row 0 0
    ∷ row 0 0
    ∷ row 0 0
    ∷ row 0 0
    ∷ row 0 0
    ∷ row 0 0
    ∷ row 0 0
    ∷ row 0 0
    ∷ row 0 0
    ∷ row 0 0
    ∷ []
