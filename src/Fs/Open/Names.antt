-- ===== src/Fs/Open/Names.antt =====
-- The short names of fs/open.c.
use mathlib.Core.List.{append_assoc, append-nil}
use myos_ia.Prelude.{
  ℕ, zero, suc, ◌+◌, ◌-◌, ◌<◌, ◌≤◌, ◌≡◌, ◌≢◌, refl, ap, ◌∙◌, false, List, [], ◌∷◌, ◌++◌, arith,
  ◌==◌, if◌then◌else◌, length, length-append, length-take, length-replicate, get_or, get_or-append,
  take, take-append, replicate,
}
use myos_ia.Fs.Open.{space, main_length, extension, shortnamecopy}

main_length-le : (from : List ℕ) (n : ℕ) → main_length from n ≤ n
unfolding main_length
main_length-le from zero = omega arith
main_length-le from (suc n) = ground (arith, main_length-le from n)

length-extension : (from : List ℕ) (i n : ℕ) → length (extension from i n) ≤ n
unfolding extension
length-extension from i zero = omega arith
length-extension from i (suc n) = ground (arith, length-extension from (i + 1) n)

-- Whatever the eleven bytes are, the string has at most 13 characters with its final 0, which is the
-- size of the buffer of `scan_dentry_buf`.
pub shortnamecopy-fits : (from : List ℕ) → length (shortnamecopy from) ≤ 13
unfolding shortnamecopy
shortnamecopy-fits from =
    let main : List ℕ = take (main_length from 8) from in
    let dot : List ℕ = if get_or from 8 0 == space then [] else b'.' ∷ [] in
    let ext : List ℕ = extension from 8 3 in
    let short : length dot ≤ 1 = ground arith in
    omega (
      arith,
      short,
      length-append main (dot ++ (ext ++ (0 ∷ []))),
      length-append dot (ext ++ (0 ∷ [])),
      length-append ext (0 ∷ []),
      length-extension from 8 3,
      length-take (main_length from 8) from,
      main_length-le from 8,
    )

get_or-behind : (us ws : List ℕ) (i d : ℕ) → get_or (us ++ ws) (length us + i) d ≡ get_or ws i d
get_or-behind [] ws i d = ap (λ j. get_or ws j d) {x = 0 + i} {y = i} (omega arith)
get_or-behind (u ∷ us) ws i d =
    let step : suc (length us) + i ≡ suc (length us + i) = omega arith in
    rw step (get_or-behind us ws i d)

get_or-spaces : (k j : ℕ) (rest : List ℕ) → j < k → get_or (replicate k space ++ rest) j 0 ≡ space
get_or-spaces zero j rest h = absurd (omega arith)
get_or-spaces (suc k) zero rest h = refl
get_or-spaces (suc k) (suc j) rest h = get_or-spaces k j rest (omega arith)

main_length-padded :
    (us : List ℕ) (m k j n : ℕ) (rest : List ℕ)
    → m ≢ space
    → j ≤ k
    → n ≡ suc (length us + j)
    → main_length (us ++ (m ∷ (replicate k space ++ rest))) n ≡ suc (length us)
unfolding main_length
main_length-padded us m k zero zero rest full le e = absurd (omega arith)
main_length-padded us m k zero (suc n) rest full le e =
    let at : n ≡ length us = omega arith in
    let found : get_or (us ++ (m ∷ (replicate k space ++ rest))) (length us) 0 ≡ m =
      get_or-append us m (replicate k space ++ rest) 0 in
    let stop : (m == space) ≡ false = ground arith in rw (at, found, stop) refl
main_length-padded us m k (suc j) zero rest full le e = absurd (omega arith)
main_length-padded us m k (suc j) (suc n) rest full le e =
    let at : n ≡ length us + suc j = omega arith in
    let blank : get_or (us ++ (m ∷ (replicate k space ++ rest))) n 0 ≡ space =
      ap (λ i. get_or (us ++ (m ∷ (replicate k space ++ rest))) i 0) at
      ∙ get_or-behind us (m ∷ (replicate k space ++ rest)) (suc j) 0
      ∙ get_or-spaces k j rest (omega arith) in
    rw blank (main_length-padded us m k j n rest full (omega arith) (omega arith))

extension-behind :
    (us ws : List ℕ) (i j n : ℕ) → j ≡ length us + i → extension (us ++ ws) j n ≡ extension ws i n
unfolding extension
extension-behind us ws i j zero e = refl
extension-behind us ws i j (suc n) e =
    let same : get_or (us ++ ws) j 0 ≡ get_or ws i 0 =
      ap (λ k. get_or (us ++ ws) k 0) e ∙ get_or-behind us ws i 0 in
    rw (same, extension-behind us ws (i + 1) (j + 1) n (omega arith)) refl

-- A part of a name, filled up with spaces.
abbrev pub pad : ℕ → List ℕ → List ℕ
pad n xs = xs ++ replicate (n - length xs) space

-- Characters other than the space.
abbrev pub Full : List ℕ → Type 0
Full [] = Unit
Full (x ∷ xs) = (x ≢ space) × Full xs

-- The dot stands only before an extension.
abbrev pub dotted : List ℕ → List ℕ
dotted [] = []
dotted (x ∷ xs) = b'.' ∷ x ∷ xs

extension_part : List ℕ → List ℕ
unfolding extension
extension_part e =
    (if get_or e 0 0 == space then [] else b'.' ∷ []) ++ (extension e 0 3 ++ (0 ∷ []))

padded_extension :
    (ext : List ℕ) → length ext ≤ 3 → Full ext → extension_part (pad 3 ext) ≡ dotted ext ++ (0 ∷ [])
unfolding extension_part
padded_extension [] h full = refl
padded_extension (a ∷ []) h (fa, full) = let ea : (a == space) ≡ false = ground arith in rw ea refl
padded_extension (a ∷ b ∷ []) h (fa, (fb, full)) =
    let ea : (a == space) ≡ false = ground arith in
    let eb : (b == space) ≡ false = ground arith in rw (ea, eb) refl
padded_extension (a ∷ b ∷ c ∷ []) h (fa, (fb, (fc, full))) =
    let ea : (a == space) ≡ false = ground arith in
    let eb : (b == space) ≡ false = ground arith in
    let ec : (c == space) ≡ false = ground arith in rw (ea, eb, ec) refl
padded_extension (a ∷ b ∷ c ∷ d ∷ ext) h full = absurd (omega arith)

shortnamecopy_lem :
    (from : List ℕ) (n : ℕ) (main ext : List ℕ)
    → main_length from 8 ≡ n
    → take n from ≡ main
    → get_or from 8 0 ≡ get_or ext 0 0
    → extension from 8 3 ≡ extension ext 0 3
    → shortnamecopy from ≡ main ++ extension_part ext
unfolding shortnamecopy extension_part
shortnamecopy_lem from n main ext len taken first rest = rw (len, taken, rest, first) refl

-- The name and the extension of a file come back from the eleven bytes of its directory entry, with
-- a dot between them where there is an extension: the name, which may have spaces inside, does not
-- end in one, and the extension has none.
pub shortnamecopy-pad :
    (us : List ℕ) (m : ℕ) (ext : List ℕ)
    → length us < 8
    → m ≢ space
    → length ext ≤ 3
    → Full ext
    → shortnamecopy (pad 8 (us ++ (m ∷ [])) ++ pad 3 ext) ≡ us ++ (m ∷ (dotted ext ++ (0 ∷ [])))
shortnamecopy-pad us m ext short last le full =
    let main : List ℕ = us ++ (m ∷ []) in
    let k : ℕ = 8 - length main in
    let e : List ℕ = pad 3 ext in
    let size : length main ≡ length us + 1 = length-append us (m ∷ []) in
    let eight : 8 ≡ length (pad 8 main) =
      omega (arith, length-append main (replicate k space), length-replicate {0} k space) in
    let flat : pad 8 main ++ e ≡ us ++ (m ∷ (replicate k space ++ e)) =
      append_assoc main (replicate k space) e ∙ append_assoc us (m ∷ []) (replicate k space ++ e) in
    let front : pad 8 main ++ e ≡ main ++ (replicate k space ++ e) =
      append_assoc main (replicate k space) e in
    shortnamecopy_lem (pad 8 main ++ e) (length main + 0) main e
      (ap (λ f. main_length f 8) flat
        ∙ main_length-padded us m k k 8 e last (omega arith) (omega arith)
        ∙ omega arith)
      (ap (take (length main + 0)) front
        ∙ take-append 0 main (replicate k space ++ e)
        ∙ append-nil main)
      (ap (λ i. get_or (pad 8 main ++ e) i 0) {x = 8} {y = length (pad 8 main) + 0} (omega arith)
        ∙ get_or-behind (pad 8 main) e 0 0)
      (extension-behind (pad 8 main) e 0 8 3 (omega arith))
    ∙ ap (λ t. main ++ t) (padded_extension ext le full)
    ∙ append_assoc us (m ∷ []) (dotted ext ++ (0 ∷ []))
