-- ===== src/Build/Tests.antt =====
-- An image of three short files.
use myos_ia.Prelude.{ℕ, ◌≡◌, some, List, [], ◌∷◌, ◌++◌, arith, ltb, if◌then◌else◌, get_or, length}
use myos_ia.Build.{built, main}
use myos_ia.Build.Layout.{sector_byte, main-image}

abbrev boot : List ℕ
boot = 0xea ∷ 5 ∷ 0 ∷ []

main-image_example :
    (sector : List ℕ) × (main 3 (some boot) (some (1 ∷ 2 ∷ [])) (some (3 ∷ []))
      ≡ built (sector ++ (1 ∷ 2 ∷ 3 ∷ [])))
    × (length sector ≡ 512)
    × ((k : ℕ) → get_or sector k 0 ≡ (if ltb k 512 then sector_byte boot k else 0))
main-image_example = main-image 3 boot (1 ∷ 2 ∷ []) (3 ∷ []) (omega arith) (omega arith)
