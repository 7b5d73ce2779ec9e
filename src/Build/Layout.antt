-- ===== src/Build/Layout.antt =====
-- The layout of the image that tools/build.c writes.
use myos_ia.Prelude.{
  ℕ, zero, suc, ◌-◌, ◌<◌, ◌≤◌, ◌≡◌, refl, ap, ◌∙◌, some, List, [], ◌∷◌, ◌++◌, arith, ltb, ◌==◌,
  false, if◌then◌else◌, set, take, drop, replicate, length, length-take, length-set, length-append,
  length-replicate, get_or, get_or-set_self, get_or-set_ne, Bool-cases, inl, inr,
}
use myos_ia.Build.{buf_size, copy_file, boot_sector, built, main}

take-drop : (n : ℕ) (xs : List ℕ) → take n xs ++ drop n xs ≡ xs
take-drop zero xs = refl
take-drop (suc n) [] = refl
take-drop (suc n) (x ∷ xs) = ap (λ t. x ∷ t) (take-drop n xs)

length-drop : (n : ℕ) (xs : List ℕ) → length (drop n xs) ≡ length xs - n
length-drop zero xs = omega arith
length-drop (suc n) [] = omega arith
length-drop (suc n) (x ∷ xs) = omega (arith, length-drop n xs)

-- With more fuel than the file has bytes the whole file is copied.
copy_file-whole : (fuel : ℕ) (file : List ℕ) → length file < fuel → copy_file fuel file ≡ file
unfolding copy_file
copy_file-whole zero file h = absurd (omega arith)
copy_file-whole (suc fuel) [] h = refl
copy_file-whole (suc fuel) (x ∷ xs) h =
    let rest : List ℕ = drop 1023 xs in
    let shorter : length rest < fuel = omega (arith, length-drop 1023 xs) in
    ap (λ t. x ∷ (take 1023 xs ++ t)) (copy_file-whole fuel rest shorter)
    ∙ ap (λ t. x ∷ t) (take-drop 1023 xs)

get_or-take : (n k : ℕ) (xs : List ℕ) → k < n → get_or (take n xs) k 0 ≡ get_or xs k 0
get_or-take zero k xs h = absurd (omega arith)
get_or-take (suc n) k [] h = refl
get_or-take (suc n) zero (x ∷ xs) h = refl
get_or-take (suc n) (suc k) (x ∷ xs) h = get_or-take n k xs (omega arith)

get_or-padded : (xs : List ℕ) (n k : ℕ) → get_or (xs ++ replicate n 0) k 0 ≡ get_or xs k 0
get_or-padded [] zero k = refl
get_or-padded [] (suc n) zero = refl
get_or-padded [] (suc n) (suc k) = get_or-padded [] n k
get_or-padded (x ∷ xs) n zero = refl
get_or-padded (x ∷ xs) n (suc k) = get_or-padded xs n k

-- The bytes of the first sector.
abbrev pub sector_byte : List ℕ → ℕ → ℕ
sector_byte boot k = if k == 510 then 0x55 else if k == 511 then 0xaa else get_or boot k 0

get_or-past : (xs : List ℕ) (k : ℕ) → length xs ≤ k → get_or xs k 0 ≡ 0
get_or-past [] k h = refl
get_or-past (x ∷ xs) zero h = absurd (omega arith)
get_or-past (x ∷ xs) (suc k) h = get_or-past xs k (omega arith)

length-buffer : (boot : List ℕ) → length (take buf_size (boot ++ replicate buf_size 0)) ≡ 1024
length-buffer boot = omega (
  arith,
  length-take 1024 (boot ++ replicate 1024 0),
  length-append boot (replicate 1024 0),
  length-replicate {A = ℕ} 1024 0,
)

-- The buffer with the signature.
signed :
    (buf : List ℕ) (k : ℕ)
    → length buf ≡ 1024
    → get_or (set (set buf 510 0x55) 511 0xaa) k 0
      ≡ (if k == 510 then 0x55 else if k == 511 then 0xaa else get_or buf k 0)
signed buf k len =
    let one : List ℕ = set buf 510 0x55 in
    let wide : length one ≡ length buf = length-set buf 510 0x55 in
    elim (Bool-cases (k == 511)) [
      | inl last ↦
          let is : k ≡ 511 = ground arith in
          rw is (get_or-set_self one 511 0xaa 0 (omega (arith, wide, len)))
      | inr other ↦
          let before : get_or (set one 511 0xaa) k 0 ≡ get_or one k 0 =
            get_or-set_ne one 511 k 0xaa 0 (ground arith) in
          before ∙ elim (Bool-cases (k == 510)) [
            | inl there ↦
                let is : k ≡ 510 = ground arith in
                rw is (get_or-set_self buf 510 0x55 0 (omega (arith, len)))
            | inr free ↦ rw (free, other) (get_or-set_ne buf 510 k 0x55 0 (ground arith))
          ]
    ]

length-sector : (boot : List ℕ) → length (boot_sector boot) ≡ 512
unfolding boot_sector
length-sector boot =
    let buf : List ℕ = take buf_size (boot ++ replicate buf_size 0) in
    omega (
      arith,
      length-take 512 (set (set buf 510 0x55) 511 0xaa),
      length-set (set buf 510 0x55) 511 0xaa,
      length-set buf 510 0x55,
      length-buffer boot,
    )

sector-past : (s : List ℕ) (k : ℕ) → length s ≡ 512 → ltb k 512 ≡ false → get_or s k 0 ≡ 0
sector-past s k len high =
    let beyond : 512 ≤ k = ground arith in get_or-past s k (omega (arith, len, beyond))

get_or-sector :
    (boot : List ℕ) (k : ℕ)
    → get_or (boot_sector boot) k 0 ≡ (if ltb k 512 then sector_byte boot k else 0)
unfolding boot_sector
get_or-sector boot k =
    let buf : List ℕ = take buf_size (boot ++ replicate buf_size 0) in
    elim (Bool-cases (ltb k 512)) [
      | inl low ↦
          let byte : get_or buf k 0 ≡ get_or boot k 0 =
            get_or-take buf_size k (boot ++ replicate buf_size 0) (ground arith)
            ∙ get_or-padded boot buf_size k in
          rw low (
            get_or-take 512 k (set (set buf 510 0x55) 511 0xaa) (ground arith)
            ∙ signed buf k (length-buffer boot)
            ∙ ap (λ v. if k == 510 then 0x55 else if k == 511 then 0xaa else v) byte)
      | inr high ↦ rw high (sector-past (boot_sector boot) k (length-sector boot) high)
    ]

-- With more fuel than either file has bytes, `main` builds an image whose first 512 bytes are those of
-- the boot file, filled up with zeros, with the signature 0x55, 0xAA in the last two, and behind which
-- the setup and the system files stand unchanged.
pub main-image :
    (fuel : ℕ) (boot setup system : List ℕ)
    → length setup < fuel
    → length system < fuel
    → (sector : List ℕ) × (main fuel (some boot) (some setup) (some system)
        ≡ built (sector ++ (setup ++ system)))
      × (length sector ≡ 512)
      × ((k : ℕ) → get_or sector k 0 ≡ (if ltb k 512 then sector_byte boot k else 0))
unfolding main
main-image fuel boot setup system hs hy = (
  boot_sector boot,
  (λ i.
      built (
        boot_sector boot ++ (copy_file-whole fuel setup hs i ++ copy_file-whole fuel system hy i))),
  length-sector boot,
  get_or-sector boot,
)
