-- ===== src/Clock/Lines.antt =====
-- The two lines that the clock interrupt of ker/clock.c shows.
use myos_ia.Prelude.{◌≡◌, some, [], ◌∷◌, ◌++◌, arith, ltb, if◌then◌else◌, Bool-cases, inl, inr}
use myos_ia.Vsprintf.{int_to_str}
use myos_ia.Vsprintf.Format.{Piece, plain, dec, vsprintf-render}
use myos_ia.Clock.{CmosTime, date_line}

abbrev blank : Piece
blank = plain 0x20

abbrev slash : Piece
slash = plain b'/'

-- The second line is the century, a 0 if the century is below 10, the year, the month and the day: the
-- year is never filled up to two digits.
pub date_line_lem :
    (t : CmosTime)
    → date_line t
      ≡ some (
          0x20
          ∷ 0x20
          ∷ (int_to_str t.cen
              ++ ((if ltb t.cen 10 then b'0' ∷ [] else [])
                  ++ (int_to_str t.year
                      ++ (b'/' ∷ (int_to_str t.mon ++ (b'/' ∷ (int_to_str t.day ++ []))))))))
unfolding date_line
date_line_lem t = elim (Bool-cases (ltb t.cen 10)) [
  | inl early ↦ rw early (
      vsprintf-render
        (blank
          ∷ blank
          ∷ dec t.cen
          ∷ plain b'0'
          ∷ dec t.year
          ∷ slash
          ∷ dec t.mon
          ∷ slash
          ∷ dec t.day
          ∷ [])
        [] (ground arith))
  | inr late ↦ rw late (
      vsprintf-render
        (blank ∷ blank ∷ dec t.cen ∷ dec t.year ∷ slash ∷ dec t.mon ∷ slash ∷ dec t.day ∷ []) []
        (ground arith))
]
