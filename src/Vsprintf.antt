-- ===== src/Vsprintf.antt =====
-- ker/vsprintf.c: numbers in decimal and in hexadecimal, and formatted output. The buffer is the text
-- that is written so far; its size is not modelled.
pub mod Reverse
pub mod Digits
pub mod Format
mod Tests
use myos_ia.Prelude.{
  ℕ, zero, suc, ◌+◌, ◌-◌, ◌/◌, ◌%◌, Bool, Option, none, some, List, [], ◌∷◌, ◌++◌, bit_and, leb,
  ◌==◌, if◌then◌else◌, length, get_or, set, u8, ◌>>>◌,
}

-- `atoi`
abbrev pub atoi : ℕ → ℕ
atoi d = d + 48

-- `atoihex`
abbrev pub atoihex : ℕ → ℕ
atoihex d = if leb d 9 then b'0' + d else b'a' + d - 10

-- `while(d>=1)` of `int_to_str`: the digits, the lowest first, for at most `fuel` rounds.
unfoldable pub digits : ℕ → ℕ → List ℕ
digits zero d = []
digits (suc fuel) d = let rest = digits fuel (d / 10) in if d == 0 then [] else atoi (d % 10) ∷ rest

-- `while(d>=1)` of `int_to_hexstr`.
unfoldable pub hex_digits : ℕ → ℕ → List ℕ
hex_digits zero d = []
hex_digits (suc fuel) d =
    let rest = hex_digits fuel (d >>> 4) in if d == 0 then [] else atoihex (bit_and d 0xf) ∷ rest

-- `tmp=s[i-j];s[i-j]=s[j];s[j]=tmp;`
abbrev pub swap : ℕ → ℕ → List ℕ → List ℕ
swap i j s = set (set s (i - j) (get_or s j 0)) j (get_or s (i - j) 0)

-- `for(j=0;j<=i/2;j++)` from `j` on, for `n` rounds.
unfoldable pub swap_loop : ℕ → ℕ → ℕ → List ℕ → List ℕ
swap_loop zero j i s = s
swap_loop (suc n) j i s = swap_loop n (j + 1) i (swap i j s)

-- The text of the digits, the highest first; `i` is the index of the last.
unfoldable pub in_order : List ℕ → List ℕ
unfolding swap_loop
in_order s = let i : ℕ = length s - 1 in swap_loop (i / 2 + 1) 0 i s

-- `int_to_str`: an `unsigned` has at most ten digits.
unfoldable pub int_to_str : ℕ → List ℕ
int_to_str d = if d == 0 then b'0' ∷ [] else in_order (digits 10 d)

-- `int_to_hexstr`
unfoldable pub int_to_hexstr : ℕ → List ℕ
int_to_hexstr d = if d == 0 then b'0' ∷ [] else in_order (hex_digits 8 d)

-- An argument: a number, or a string without its final 0.
pub data Arg : Type 0 where
  number : ℕ → Arg
  text : List ℕ → Arg

-- The `switch` on the character after a `%`: the text, and the arguments that are left. Any other
-- character prints nothing.
unfoldable pub directive : ℕ → List Arg → Option (List ℕ × List Arg)
directive d [] =
    if d == b'c'
    then none
    else if d == b'd'
    then none
    else if d == b'x'
    then none
    else if d == b's'
    then none
    else some ([], [])
directive d (number n ∷ args) =
    if d == b'c'
    then some (u8 n ∷ [], args)
    else if d == b'd'
    then some (int_to_str n, args)
    else if d == b'x'
    then some (int_to_hexstr n, args)
    else if d == b's'
    then none
    else some ([], number n ∷ args)
directive d (text t ∷ args) =
    if d == b'c'
    then none
    else if d == b'd'
    then none
    else if d == b'x'
    then none
    else if d == b's'
    then some (t, args)
    else some ([], text t ∷ args)

abbrev pub before : List ℕ → Option (List ℕ) → Option (List ℕ)
before t none = none
before t (some r) = some (t ++ r)

-- `vsprintf`, of the memory from `fmt` on: the text in front of the final 0. `none` where it reads
-- beyond the memory or an argument of the wrong kind.
unfoldable pub vsprintf : List ℕ → List Arg → Option (List ℕ)
unfolding directive
vsprintf [] args = none
vsprintf (c ∷ []) args = if c == 0 then some [] else none
vsprintf (c ∷ d ∷ fmt) args =
    let plain = before (c ∷ []) (vsprintf (d ∷ fmt) args) in
    let converted : Option (List ℕ) = elim (directive d args) [
      | none ↦ none
      | some (t, args') ↦ before t (vsprintf fmt args')
    ] in
    if c == 0 then some [] else if c == 0x25 then converted else plain
