-- ===== src/Pci/Sizes.antt =====
-- `pci_intervalsize` of ker/pci.c and what is stored of a base address register.
use myos_ia.Prelude.{
  ℕ, ◌+◌, ◌-◌, ◌*◌, ◌%◌, ◌^◌, ◌≤◌, ◌<◌, ◌≡◌, refl, ap, sym, ◌∙◌, Bool, true, false, ◌||◌, arith,
  bit_and, ltb, ◌⊎◌, inl, inr, ◌==◌, ==_iff, sub32,
}
use native.Mathlib.Nat.{one-le-pow, pow-le-pow_right}
use myos_ia.Prelude.Bits.{every, every-at, and-low}
use myos_ia.Prelude.Fields.{and-field, and-high, and-lowest}
use myos_ia.Pci.{Interval, pci_intervalsize, read_interval}

pow_split : (k : ℕ) → k < 33 → 2 ^ (32 - k) * 2 ^ k ≡ 2 ^ 32
unfolding every
pow_split k h =
    (==_iff (2 ^ (32 - k) * 2 ^ k) (2 ^ 32)).0
      (every-at (λ k. 2 ^ (32 - k) * 2 ^ k == 2 ^ 32) 33 refl k h)

pow_half : (k : ℕ) → k < 32 → 2 ^ (32 - k) ≡ 2 ^ (31 - k) * 2
unfolding every
pow_half k h =
    (==_iff (2 ^ (32 - k)) (2 ^ (31 - k) * 2)).0
      (every-at (λ k. 2 ^ (32 - k) == 2 ^ (31 - k) * 2) 32 refl k h)

-- `~(size - 1)` is `2 ^ 32 - size`.
negate : (size : ℕ) → 0 < size → size ≤ 2 ^ 32 → 2 ^ 32 - 1 - sub32 size 1 ≡ 2 ^ 32 - size
negate size pos wide = omega arith

-- `sz & mask` is an odd number `2 m + 1` times `2 ^ k`.
pub pci_intervalsize-lowest :
    (sz mask k m : ℕ)
    → k < 32
    → m * 2 + 1 < 2 ^ (32 - k)
    → bit_and sz mask ≡ (m * 2 + 1) * 2 ^ k
    → pci_intervalsize sz mask ≡ 2 ^ k
unfolding pci_intervalsize
pci_intervalsize-lowest sz mask k m hk hm masked =
    let j : ℕ = 31 - k in
    let c : ℕ = 2 ^ j - 1 - m in
    let half = pow_half k hk in
    let sum : m + c ≡ 2 ^ j - 1 = omega (arith, half, hm) in
    let whole : 2 ^ (32 - k) ≡ m * 2 + 1 + (c * 2 + 1) = omega (arith, half, hm) in
    let positive : 1 ≤ 2 ^ k = one-le-pow k 2 (omega arith) in
    let split : (m * 2 + 1) * 2 ^ k + (c * 2 + 1) * 2 ^ k ≡ 2 ^ 32 =
      grind (arith, pow_split k (omega arith), ap (λ (t : ℕ). t * 2 ^ k) whole) in
    let rest : 2 ^ 32 - 1 - sub32 ((m * 2 + 1) * 2 ^ k) 1 ≡ (c * 2 + 1) * 2 ^ k =
      negate ((m * 2 + 1) * 2 ^ k) (grind (arith, positive)) (omega (arith, split))
      ∙ omega (arith, split) in
    rw (masked, rest) (and-lowest k j m c sum)

-- What a base address register of the machine gives, as it is and after all ones were written: of a
-- register that is not there, of `2 ^ k` bytes of memory at `start`, and of `2 ^ k` ports at `start`,
-- where the device may decode the low 16 bits only.
pub data Decodes (base answer : ℕ) (old new : Interval) : Type 0 where
  absent : (answer ≡ 0) ⊎ (answer ≡ 0xffffffff) → new ≡ old → Decodes base answer old new
  memory :
      (q flags k : ℕ)
      → q < 2 ^ 28
      → flags < 16
      → flags % 2 ≡ 0
      → 4 ≤ k
      → k < 32
      → base ≡ q * 16 + flags
      → answer ≡ 2 ^ 32 - 2 ^ k + flags
      → new ≡ record { base = q * 16; size = 2 ^ k; kind = 0 }
      → Decodes base answer old new
  ports :
      (q high k : ℕ)
      → q < 2 ^ 30
      → high < 2 ^ 16
      → 2 ≤ k
      → k < 16
      → base ≡ q * 4 + 1
      → answer ≡ high * 2 ^ 16 + 2 ^ 16 - 2 ^ k + 1
      → new ≡ record { base = q * 4; size = 2 ^ k; kind = 1 }
      → Decodes base answer old new

memory_size :
    (flags k : ℕ)
    → flags < 16
    → 4 ≤ k
    → k < 32
    → pci_intervalsize (2 ^ 32 - 2 ^ k + flags) 0xfffffff0 ≡ 2 ^ k
unfolding every pci_intervalsize
memory_size flags k hf lo hi =
    let fits : ℕ → ℕ → Bool =
      λ flags k. ltb k 4 || (pci_intervalsize (2 ^ 32 - 2 ^ k + flags) 0xfffffff0 == 2 ^ k) in
    let table : every (λ flags. every (fits flags) 32) 16 ≡ true = refl in
    let row : every (fits flags) 32 ≡ true =
      every-at (λ flags. every (fits flags) 32) 16 table flags hf in
    let at : fits flags k ≡ true = every-at (fits flags) 32 row k hi in
    let big : ltb k 4 ≡ false = ground arith in
    (==_iff (pci_intervalsize (2 ^ 32 - 2 ^ k + flags) 0xfffffff0) (2 ^ k)).0 (rw big at at)

fourth : (k : ℕ) → 2 ≤ k → k < 32 → 2 ^ k ≡ 2 ^ (k - 2) * 4
unfolding every
fourth k lo hi =
    let fits : ℕ → Bool = λ k. ltb k 2 || (2 ^ k == 2 ^ (k - 2) * 4) in
    let at : fits k ≡ true = every-at fits 32 refl k hi in
    let big : ltb k 2 ≡ false = ground arith in (==_iff (2 ^ k) (2 ^ (k - 2) * 4)).0 (rw big at at)

-- Of the answer of a range of ports, the bits from the second to the sixteenth.
ports_masked :
    (high k : ℕ)
    → 2 ≤ k
    → k < 16
    → bit_and (high * 2 ^ 16 + 2 ^ 16 - 2 ^ k + 1) 0xfffc ≡ 2 ^ 16 - 2 ^ k
ports_masked high k lo hi =
    let a : ℕ = high * 2 ^ 14 + (2 ^ 14 - 2 ^ (k - 2)) in
    let four : 2 ^ k ≡ 2 ^ (k - 2) * 4 = fourth k lo (omega arith) in
    let less : 2 ^ (k - 2) ≤ 2 ^ 13 = pow-le-pow_right (omega arith) {j = 13} (omega arith) in
    let positive : 1 ≤ 2 ^ (k - 2) = one-le-pow (k - 2) 2 (omega arith) in
    let split : high * 2 ^ 16 + 2 ^ 16 - 2 ^ k + 1 ≡ a * 2 ^ 2 + 1 = omega (arith, four, less) in
    let low : a % 2 ^ 14 ≡ 2 ^ 14 - 2 ^ (k - 2) = omega (arith, less, positive) in
    ap (λ (t : ℕ). bit_and t 0xfffc) split
    ∙ and-field 2 a (2 ^ 14 - 1) 1 (omega arith)
    ∙ omega (arith, and-low 14 a, low, four)

ports_size :
    (high k : ℕ)
    → 2 ≤ k
    → k < 16
    → pci_intervalsize (high * 2 ^ 16 + 2 ^ 16 - 2 ^ k + 1) 0xfffc ≡ 2 ^ k
unfolding every pci_intervalsize
ports_size high k lo hi =
    let lowest : ℕ → ℕ = λ size. bit_and size (2 ^ 32 - 1 - sub32 size 1) in
    let fits : ℕ → Bool = λ k. lowest (2 ^ 16 - 2 ^ k) == 2 ^ k in
    let at : fits k ≡ true = every-at fits 16 refl k hi in
    rw (ports_masked high k lo hi) ((==_iff (lowest (2 ^ 16 - 2 ^ k)) (2 ^ k)).0 at)

-- What `pci_dev_setup_interval` stores for a register.
pub read_interval-Decodes :
    (base answer : ℕ) (old new : Interval)
    → Decodes base answer old new
    → read_interval base answer old ≡ new
unfolding read_interval
read_interval-Decodes base answer old new (absent (inl none) same) = rw none (sym same)
read_interval-Decodes base answer old new (absent (inr ones) same) = rw ones (sym same)
read_interval-Decodes base answer old new (memory q flags k hq hf even lo hi at size is) =
    let four : 2 ^ k ≡ 2 ^ (k - 2) * 4 = fourth k (omega arith) hi in
    let less : 2 ^ (k - 2) ≤ 2 ^ 29 = pow-le-pow_right (omega arith) {j = 29} (omega arith) in
    let some_size : (answer == 0) ≡ false = ground (arith, four, less) in
    let no_ones : (answer == 0xffffffff) ≡ false = ground (arith, four, less) in
    let kind : bit_and base 1 ≡ 0 = omega (arith, and-low 1 base) in
    let start : bit_and base 0xfffffff0 ≡ q * 16 =
      ap (λ (t : ℕ). bit_and t 0xfffffff0) at ∙ and-high 4 28 q flags hf hq in
    rw (some_size, no_ones, kind, start, size, memory_size flags k hf lo hi) (sym is)
read_interval-Decodes base answer old new (ports q high k hq hh lo hi at size is) =
    let four : 2 ^ k ≡ 2 ^ (k - 2) * 4 = fourth k lo (omega arith) in
    let less : 2 ^ (k - 2) ≤ 2 ^ 13 = pow-le-pow_right (omega arith) {j = 13} (omega arith) in
    let some_size : (answer == 0) ≡ false = ground (arith, four, less) in
    let no_ones : (answer == 0xffffffff) ≡ false = ground (arith, four, less) in
    let kind : bit_and base 1 ≡ 1 = omega (arith, and-low 1 base) in
    let start : bit_and base 0xfffffffc ≡ q * 4 =
      ap (λ (t : ℕ). bit_and t 0xfffffffc) at ∙ and-high 2 30 q 1 (omega arith) hq in
    rw (some_size, no_ones, kind, start, size, ports_size high k lo hi) (sym is)
