-- ===== src/Cpu/Tests.antt =====
-- A processor whose brand string is "  Pentium".
use myos_ia.Prelude.{ℕ, ◌≡◌, some, [], ◌∷◌, arith, ◌==◌, if◌then◌else◌, replicate}
use myos_ia.Cpu.{Registers, CpuInfo, brand, get_model_name}
use myos_ia.Cpu.Text.{text_of, drop_spaces}
use myos_ia.Cpu.Brand.{get_model_name-brand}

abbrev nothing : Registers
nothing = record { eax = 0; ebx = 0; ecx = 0; edx = 0 }

abbrev cpuid : ℕ → Registers
cpuid op =
    if op == 0x80000000
    then record nothing { eax = 0x80000008 }
    else if op == 0x80000002
    then record nothing { eax = 0x65502020; ebx = 0x7569746e; ecx = 0x6d }
    else nothing

abbrev info : CpuInfo
info = record { family = 0; model = 0; vendor_id = replicate 16 0; model_id = replicate 50 1 }

get_model_name-brand_example :
    (d : CpuInfo) × (get_model_name cpuid info ≡ some d)
    × (text_of d.model_id ≡ b'P' ∷ b'e' ∷ b'n' ∷ b't' ∷ b'i' ∷ b'u' ∷ b'm' ∷ [])
unfolding brand text_of drop_spaces
get_model_name-brand_example = get_model_name-brand cpuid info (omega arith)
