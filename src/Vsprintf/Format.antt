-- ===== src/Vsprintf/Format.antt =====
-- Formats of ker/vsprintf.c as lists of pieces.
use myos_ia.Prelude.{
  ℕ, ◌≡◌, ◌≢◌, refl, false, Option, none, some, List, [], ◌∷◌, ◌++◌, arith, ◌==◌, u8,
}
use myos_ia.Vsprintf.{Arg, number, text, int_to_str, int_to_hexstr, directive, before, vsprintf}

-- What a format asks for: a character as it stands, a number in decimal or in hexadecimal, a string,
-- or the character with a given code.
pub data Piece : Type 0 where
  plain : ℕ → Piece
  dec : ℕ → Piece
  hex : ℕ → Piece
  str : List ℕ → Piece
  chr : ℕ → Piece

abbrev pub format_of : List Piece → List ℕ
format_of [] = []
format_of (plain c ∷ ps) = c ∷ format_of ps
format_of (dec n ∷ ps) = 0x25 ∷ b'd' ∷ format_of ps
format_of (hex n ∷ ps) = 0x25 ∷ b'x' ∷ format_of ps
format_of (str t ∷ ps) = 0x25 ∷ b's' ∷ format_of ps
format_of (chr n ∷ ps) = 0x25 ∷ b'c' ∷ format_of ps

abbrev pub args_of : List Piece → List Arg
args_of [] = []
args_of (plain c ∷ ps) = args_of ps
args_of (dec n ∷ ps) = number n ∷ args_of ps
args_of (hex n ∷ ps) = number n ∷ args_of ps
args_of (str t ∷ ps) = text t ∷ args_of ps
args_of (chr n ∷ ps) = number n ∷ args_of ps

abbrev pub render : List Piece → List ℕ
render [] = []
render (plain c ∷ ps) = c ∷ render ps
render (dec n ∷ ps) = int_to_str n ++ render ps
render (hex n ∷ ps) = int_to_hexstr n ++ render ps
render (str t ∷ ps) = t ++ render ps
render (chr n ∷ ps) = u8 n ∷ render ps

-- The characters that stand for themselves are no `%` and no 0.
abbrev pub Plain : List Piece → Type 0
Plain [] = Unit
Plain (plain c ∷ ps) = ((c ≢ 0) × (c ≢ 0x25)) × Plain ps
Plain (dec n ∷ ps) = Plain ps
Plain (hex n ∷ ps) = Plain ps
Plain (str t ∷ ps) = Plain ps
Plain (chr n ∷ ps) = Plain ps

vsprintf-plain :
    (c : ℕ) (fmt r : List ℕ) (args : List Arg)
    → c ≢ 0
    → c ≢ 0x25
    → vsprintf fmt args ≡ some r
    → vsprintf (c ∷ fmt) args ≡ some (c ∷ r)
unfolding vsprintf
vsprintf-plain c [] r args nz np h = cc
vsprintf-plain c (d ∷ fmt) r args nz np h =
    let not_end : (c == 0) ≡ false = ground arith in
    let not_percent : (c == 0x25) ≡ false = ground arith in rw (not_end, not_percent, h) refl

vsprintf-directive :
    (d : ℕ) (fmt t r : List ℕ) (args args' : List Arg)
    → directive d args ≡ some (t, args')
    → vsprintf fmt args' ≡ some r
    → vsprintf (0x25 ∷ d ∷ fmt) args ≡ some (t ++ r)
unfolding vsprintf
vsprintf-directive d fmt t r args args' e h = rw (e, vsprintf, h) refl

vsprintf-end : (beyond : List ℕ) (args : List Arg) → vsprintf (0 ∷ beyond) args ≡ some []
unfolding vsprintf
vsprintf-end [] args = refl
vsprintf-end (d ∷ beyond) args = refl

-- A format that is made of pieces, with the arguments that they ask for, prints each of them in its
-- place, whatever stands in the memory behind the final 0.
pub vsprintf-render :
    (ps : List Piece) (beyond : List ℕ)
    → Plain ps
    → vsprintf (format_of ps ++ (0 ∷ beyond)) (args_of ps) ≡ some (render ps)
unfolding directive
vsprintf-render [] beyond p = vsprintf-end beyond []
vsprintf-render (plain c ∷ ps) beyond ((nz, np), p) =
    vsprintf-plain c (format_of ps ++ (0 ∷ beyond)) (render ps) (args_of ps) nz np
      (vsprintf-render ps beyond p)
vsprintf-render (dec n ∷ ps) beyond p =
    vsprintf-directive b'd' (format_of ps ++ (0 ∷ beyond)) (int_to_str n) (render ps)
      (number n ∷ args_of ps) (args_of ps) refl (vsprintf-render ps beyond p)
vsprintf-render (hex n ∷ ps) beyond p =
    vsprintf-directive b'x' (format_of ps ++ (0 ∷ beyond)) (int_to_hexstr n) (render ps)
      (number n ∷ args_of ps) (args_of ps) refl (vsprintf-render ps beyond p)
vsprintf-render (str t ∷ ps) beyond p =
    vsprintf-directive b's' (format_of ps ++ (0 ∷ beyond)) t (render ps) (text t ∷ args_of ps)
      (args_of ps) refl (vsprintf-render ps beyond p)
vsprintf-render (chr n ∷ ps) beyond p =
    vsprintf-directive b'c' (format_of ps ++ (0 ∷ beyond)) (u8 n ∷ []) (render ps)
      (number n ∷ args_of ps) (args_of ps) refl (vsprintf-render ps beyond p)

-- A format that ends with a `%` does not end there: the conversion skips the final 0, and the memory
-- behind it is printed as if it belonged to the format.
pub vsprintf-percent_end :
    (args : List Arg) (beyond : List ℕ) → vsprintf (0x25 ∷ 0 ∷ beyond) args ≡ vsprintf beyond args
unfolding vsprintf
vsprintf-percent_end args beyond = rw (skips args, vsprintf) (again (vsprintf beyond args))
  where
    skips : (args : List Arg) → directive 0 args ≡ some ([], args)
    skips [] = refl
    skips (number n ∷ args) = refl
    skips (text t ∷ args) = refl

    again : (o : Option (List ℕ)) → before [] o ≡ o
    again none = refl
    again (some r) = refl
