-- ===== src/Cpu.antt =====
-- ker/cpu.c: the name of the processor. `cpuid` is what the instruction gives for a number in eax; a
-- string is the list of its bytes.
pub mod Text
pub mod Brand
mod Tests
use myos_ia.Prelude.{
  ℕ, zero, suc, ◌+◌, ◌-◌, ◌*◌, ◌/◌, ◌%◌, ◌^◌, Bool, true, false, Option, none, some, List, [], ◌∷◌,
  ◌++◌, bit_and, ltb, leb, ◌==◌, if◌then◌else◌, get_or, set, drop, length, u8, ◌>>>◌,
}

pub record Registers : Type 0 where
  pub eax : ℕ
  pub ebx : ℕ
  pub ecx : ℕ
  pub edx : ℕ

-- What `struct cpuinfo_x86` has that is used.
pub record CpuInfo : Type 0 where
  pub family : ℕ
  pub model : ℕ
  pub vendor_id : List ℕ
  pub model_id : List ℕ

-- The names of the families 5 and 6, by model.
abbrev pub names_5 : List (Option (List ℕ))
names_5 =
    some (
      b'P' ∷ b'e' ∷ b'n' ∷ b't' ∷ b'i' ∷ b'u' ∷ b'm' ∷ 0x20 ∷ b'6' ∷ b'0' ∷ b'/' ∷ b'6' ∷ b'6'
      ∷ 0x20 ∷ b'A' ∷ b'-' ∷ b's' ∷ b't' ∷ b'e' ∷ b'p' ∷ [])
    ∷ some (
        b'P' ∷ b'e' ∷ b'n' ∷ b't' ∷ b'i' ∷ b'u' ∷ b'm' ∷ 0x20 ∷ b'6' ∷ b'0' ∷ b'/' ∷ b'6' ∷ b'6'
        ∷ [])
    ∷ some (
        b'P' ∷ b'e' ∷ b'n' ∷ b't' ∷ b'i' ∷ b'u' ∷ b'm' ∷ 0x20 ∷ b'7' ∷ b'5' ∷ 0x20 ∷ b'-' ∷ 0x20
        ∷ b'2' ∷ b'0' ∷ b'0' ∷ [])
    ∷ some (
        b'O' ∷ b'v' ∷ b'e' ∷ b'r' ∷ b'D' ∷ b'r' ∷ b'i' ∷ b'v' ∷ b'e' ∷ 0x20 ∷ b'P' ∷ b'O' ∷ b'D'
        ∷ b'P' ∷ b'5' ∷ b'V' ∷ b'8' ∷ b'3' ∷ [])
    ∷ some (b'P' ∷ b'e' ∷ b'n' ∷ b't' ∷ b'i' ∷ b'u' ∷ b'm' ∷ 0x20 ∷ b'M' ∷ b'M' ∷ b'X' ∷ [])
    ∷ none
    ∷ none
    ∷ some (
        b'M' ∷ b'o' ∷ b'b' ∷ b'i' ∷ b'l' ∷ b'e' ∷ 0x20 ∷ b'P' ∷ b'e' ∷ b'n' ∷ b't' ∷ b'i' ∷ b'u'
        ∷ b'm' ∷ 0x20 ∷ b'7' ∷ b'5' ∷ 0x20 ∷ b'-' ∷ 0x20 ∷ b'2' ∷ b'0' ∷ b'0' ∷ [])
    ∷ some (
        b'M' ∷ b'o' ∷ b'b' ∷ b'i' ∷ b'l' ∷ b'e' ∷ 0x20 ∷ b'P' ∷ b'e' ∷ b'n' ∷ b't' ∷ b'i' ∷ b'u'
        ∷ b'm' ∷ 0x20 ∷ b'M' ∷ b'M' ∷ b'X' ∷ [])
    ∷ none
    ∷ none
    ∷ none
    ∷ none
    ∷ none
    ∷ none
    ∷ none
    ∷ []

abbrev pub names_6 : List (Option (List ℕ))
names_6 =
    some (
      b'P' ∷ b'e' ∷ b'n' ∷ b't' ∷ b'i' ∷ b'u' ∷ b'm' ∷ 0x20 ∷ b'P' ∷ b'r' ∷ b'o' ∷ 0x20 ∷ b'A'
      ∷ b'-' ∷ b's' ∷ b't' ∷ b'e' ∷ b'p' ∷ [])
    ∷ some (b'P' ∷ b'e' ∷ b'n' ∷ b't' ∷ b'i' ∷ b'u' ∷ b'm' ∷ 0x20 ∷ b'P' ∷ b'r' ∷ b'o' ∷ [])
    ∷ none
    ∷ some (
        b'P' ∷ b'e' ∷ b'n' ∷ b't' ∷ b'i' ∷ b'u' ∷ b'm' ∷ 0x20 ∷ b'I' ∷ b'I' ∷ 0x20 ∷ b'(' ∷ b'K'
        ∷ b'l' ∷ b'a' ∷ b'm' ∷ b'a' ∷ b't' ∷ b'h' ∷ b')' ∷ [])
    ∷ none
    ∷ some (
        b'P' ∷ b'e' ∷ b'n' ∷ b't' ∷ b'i' ∷ b'u' ∷ b'm' ∷ 0x20 ∷ b'I' ∷ b'I' ∷ 0x20 ∷ b'(' ∷ b'D'
        ∷ b'e' ∷ b's' ∷ b'c' ∷ b'h' ∷ b'u' ∷ b't' ∷ b'e' ∷ b's' ∷ b')' ∷ [])
    ∷ some (
        b'M' ∷ b'o' ∷ b'b' ∷ b'i' ∷ b'l' ∷ b'e' ∷ 0x20 ∷ b'P' ∷ b'e' ∷ b'n' ∷ b't' ∷ b'i' ∷ b'u'
        ∷ b'm' ∷ 0x20 ∷ b'I' ∷ b'I' ∷ [])
    ∷ some (
        b'P' ∷ b'e' ∷ b'n' ∷ b't' ∷ b'i' ∷ b'u' ∷ b'm' ∷ 0x20 ∷ b'I' ∷ b'I' ∷ b'I' ∷ 0x20 ∷ b'('
        ∷ b'K' ∷ b'a' ∷ b't' ∷ b'm' ∷ b'a' ∷ b'i' ∷ b')' ∷ [])
    ∷ some (
        b'P' ∷ b'e' ∷ b'n' ∷ b't' ∷ b'i' ∷ b'u' ∷ b'm' ∷ 0x20 ∷ b'I' ∷ b'I' ∷ b'I' ∷ 0x20 ∷ b'('
        ∷ b'C' ∷ b'o' ∷ b'p' ∷ b'p' ∷ b'e' ∷ b'r' ∷ b'm' ∷ b'i' ∷ b'n' ∷ b'e' ∷ b')' ∷ [])
    ∷ none
    ∷ some (
        b'P' ∷ b'e' ∷ b'n' ∷ b't' ∷ b'i' ∷ b'u' ∷ b'm' ∷ 0x20 ∷ b'I' ∷ b'I' ∷ b'I' ∷ 0x20 ∷ b'('
        ∷ b'C' ∷ b'a' ∷ b's' ∷ b'c' ∷ b'a' ∷ b'd' ∷ b'e' ∷ b's' ∷ b')' ∷ [])
    ∷ none
    ∷ none
    ∷ none
    ∷ none
    ∷ none
    ∷ []

-- `model_table_search`; `none` is NULL.
pub model_table_search : CpuInfo → Option (List ℕ)
model_table_search c =
    if leb 16 c.model
    then none
    else if c.family == 5
    then get_or names_5 c.model none
    else if c.family == 6
    then get_or names_6 c.model none
    else none

-- The bytes of a word in memory.
abbrev pub word_bytes : ℕ → List ℕ
word_bytes w = u8 w ∷ u8 (w >>> 8) ∷ u8 (w >>> 16) ∷ u8 (w >>> 24) ∷ []

abbrev pub bytes_of : Registers → List ℕ
bytes_of r = word_bytes r.eax ++ (word_bytes r.ebx ++ (word_bytes r.ecx ++ word_bytes r.edx))

-- `while ( *p == ' ' )`: the index where it stops.
pub skip_spaces : List ℕ → ℕ
skip_spaces [] = 0
skip_spaces (x ∷ s) = let rest = skip_spaces s in if x == 0x20 then suc rest else 0

-- `while ( *p ) *q++ = *p++;` for at most `fuel` rounds: the index `q` and the string.
pub move_left : ℕ → ℕ → ℕ → List ℕ → ℕ × List ℕ
move_left zero p q s = (q, s)
move_left (suc fuel) p q s =
    let rest = move_left fuel (p + 1) (q + 1) (set s q (get_or s p 0)) in
    if get_or s p 0 == 0 then (q, s) else rest

-- `n` zeros from the index `q` on.
pub pad : ℕ → ℕ → List ℕ → List ℕ
pad zero q s = s
pad (suc n) q s = pad n (q + 1) (set s q 0)

-- `get_model_name` from `p = q` on, on the 49 bytes that it looks at.
pub trim : List ℕ → List ℕ
unfolding skip_spaces move_left pad
trim s =
    let p : ℕ = skip_spaces s in
    let (q, t) = move_left 50 p 0 s in if p == 0 then s else pad (49 - q) q t

-- `strcpy`
abbrev pub strcpy : List ℕ → List ℕ → List ℕ
strcpy to from = from ++ (0 ∷ drop (length from + 1) to)

module _ (cpuid : ℕ → Registers) where
  -- The brand string and the byte behind it.
  pub brand : List ℕ
  brand =
      bytes_of (cpuid 0x80000002)
      ++ (bytes_of (cpuid 0x80000003) ++ (bytes_of (cpuid 0x80000004) ++ (0 ∷ [])))

  -- `get_model_name`; `none` for a `strcpy` from NULL.
  pub get_model_name : CpuInfo → Option CpuInfo
  unfolding model_table_search trim brand
  get_model_name c =
      let r = cpuid 1 in
      let named : CpuInfo = record c {
        family = bit_and (r.eax >>> 8) 0xf;
        model = bit_and (r.eax >>> 4) 0xf;
      } in
      if ltb (cpuid 0x80000000).eax 0x80000004
      then elim (model_table_search named) [
        | none ↦ none
        | some name ↦ some (record named { model_id = strcpy c.model_id name })
      ]
      else some (record c { model_id = trim brand ++ drop 49 c.model_id })

  -- `intel_init`: the registers of `cpuid(0)` in the order in which it stores them.
  pub intel_init : CpuInfo → Option CpuInfo
  unfolding get_model_name
  intel_init c =
      let r = cpuid 0 in
      get_model_name (record c {
        vendor_id =
            word_bytes r.ebx
            ++ (word_bytes r.ecx ++ (word_bytes r.edx ++ (0 ∷ drop 13 c.vendor_id)));
      })
