-- ===== src/Build.antt =====
-- tools/build.c: the boot image from the three files that are given to the program. A file is the list
-- of its bytes, and NULL stands for one that cannot be opened; `read` of up to 1024 bytes gives as many
-- as there are, and every `write` is taken to write all that it is given. The messages are left out.
pub mod Layout
mod Tests
use myos_ia.Prelude.{
  ℕ, zero, suc, ◌+◌, ◌-◌, Option, none, some, List, [], ◌∷◌, ◌++◌, set, take, drop, replicate,
  length,
}

abbrev pub buf_size : ℕ
buf_size = 1024

-- The loops that copy a file, for at most `fuel` rounds.
pub copy_file : ℕ → List ℕ → List ℕ
copy_file zero file = []
copy_file (suc fuel) file =
    let chunk : List ℕ = take buf_size file in
    let rest = copy_file fuel (drop buf_size file) in
    elim chunk [ [] ↦ [] | c ∷ cs ↦ (c ∷ cs) ++ rest ]

-- The first sector: the buffer after `read`, with the signature in it.
pub boot_sector : List ℕ → List ℕ
boot_sector boot =
    let buf : List ℕ = take buf_size (boot ++ replicate buf_size 0) in
    take 512 (set (set buf 510 0x55) 511 0xaa)

-- What the program has written, and whether it ends with `die`.
pub data Outcome : Type 0 where
  built : List ℕ → Outcome
  died : List ℕ → Outcome

-- `main` with three arguments.
pub main : ℕ → Option (List ℕ) → Option (List ℕ) → Option (List ℕ) → Outcome
unfolding boot_sector copy_file
main fuel none setup system = died []
main fuel (some boot) none system = died (boot_sector boot)
main fuel (some boot) (some setup) none = died (boot_sector boot ++ copy_file fuel setup)
main fuel (some boot) (some setup) (some system) =
    built (boot_sector boot ++ (copy_file fuel setup ++ copy_file fuel system))
