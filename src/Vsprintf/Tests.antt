-- ===== src/Vsprintf/Tests.antt =====
-- Formatted output of concrete formats.
use myos_ia.Prelude.{◌≤◌, ◌≡◌, refl, some, List, [], ◌∷◌, ◌++◌, arith, ◌==◌, length, get_or}
use myos_ia.Vsprintf.{int_to_str, int_to_hexstr, digits, hex_digits, in_order, vsprintf}
use myos_ia.Vsprintf.Digits.{value, AllDigits, int_to_str-value}
use myos_ia.Vsprintf.Format.{Piece, plain, dec, str, format_of, args_of, render, vsprintf-render}

decimal_1024 : int_to_str 1024 ≡ b'1' ∷ b'0' ∷ b'2' ∷ b'4' ∷ []
unfolding int_to_str digits in_order
decimal_1024 = refl

hex_b800 : int_to_hexstr 0xb800 ≡ b'b' ∷ b'8' ∷ b'0' ∷ b'0' ∷ []
unfolding int_to_hexstr hex_digits in_order
hex_b800 = refl

int_to_str-value_example :
    (value 0 (int_to_str 4294967295) ≡ 4294967295)
    × AllDigits (int_to_str 4294967295)
    × (length (int_to_str 4294967295) ≤ 10)
    × ((get_or (int_to_str 4294967295) 0 0 == 48) ≡ (4294967295 == 0))
int_to_str-value_example = int_to_str-value 4294967295 (omega arith)

-- `"pid=%d %s"`
abbrev pieces : List Piece
pieces =
    plain b'p'
    ∷ plain b'i'
    ∷ plain b'd'
    ∷ plain 0x3d
    ∷ dec 7
    ∷ plain 0x20
    ∷ str (b'o' ∷ b'k' ∷ [])
    ∷ []

vsprintf-render_example :
    vsprintf (format_of pieces ++ (0 ∷ 0x25 ∷ [])) (args_of pieces) ≡ some (render pieces)
vsprintf-render_example = vsprintf-render pieces (0x25 ∷ []) (ground arith)
