-- ===== src/Console/Tests.antt =====
-- A character in the last column of the last line.
use myos_ia.Prelude.{
  ℕ, ◌≡◌, List, [], arith, ltb, if◌then◌else◌, length, length-replicate, get_or, replicate,
}
use myos_ia.Console.{Console, echo_char}
use myos_ia.Console.Echo.{IsValid, shown, scrolls, next_row, next_col}
use myos_ia.Console.Screen.{echo_char-screen}

-- A screen of `n` bytes.
cleared : ℕ → List ℕ
cleared n = replicate n 0

abbrev corner : Console
corner = record { screen = cleared 4000; c_cur = 1998; c_row = 24; c_col = 79; ports = [] }

corner-IsValid : IsValid corner
unfolding cleared
corner-IsValid = record { cells = cells 4000; row_in = omega arith; col_in = omega arith }
  where
    cells : (n : ℕ) → length (cleared n) ≡ n
    cells n = let zero_byte : ℕ = 0 in length-replicate n zero_byte

echo_char-screen_example :
    (get_or (echo_char b'x' corner).screen 3838 0 ≡ (
      if scrolls b'x' corner
      then (if ltb 3838 3840 then shown b'x' corner 3998 else 0)
      else shown b'x' corner 3838))
    × ((echo_char b'x' corner).c_row ≡ next_row b'x' corner)
    × ((echo_char b'x' corner).c_col ≡ next_col b'x' corner)
echo_char-screen_example = echo_char-screen b'x' corner 3838 corner-IsValid
