-- ===== src/Pci/Host.antt =====
-- What ker/pci.c relies on of the machine behind the ports 0xCF8 and 0xCFC.
use myos_ia.Prelude.{
  ℕ, ◌+◌, ◌*◌, ◌/◌, ◌%◌, ◌^◌, ◌≤◌, ◌<◌, ◌≡◌, ap, ◌∙◌, arith, bit_or, bit_and, ◌==◌, if◌then◌else◌,
  ◌<<<◌,
}
use myos_ia.Prelude.Bits.{or-field, and-low}
use myos_ia.Pci.{PciDev, Ports, config_address, select, pci_in_byte, pci_in_dword, pci_out_dword}

-- The documented behaviour of the configuration registers. `view s a` is the register at the address
-- `a`, and `store a old v` is what it holds when `v` is written to it. A base address register that
-- was overwritten gives its old value back when that is written again.
pub record IsHost {S : Type 0} (io : Ports S) (view : S → ℕ → ℕ) (store : ℕ → ℕ → ℕ → ℕ)
    : Type 0 where
  pub read_dword :
      (a : ℕ) (s : S) → a % 4 ≡ 0 → io.in_dword 0xcfc (io.out_dword 0xcf8 a s) ≡ view s a
  pub read_byte :
      (a k : ℕ) (s : S)
      → a % 4 ≡ 0
      → k < 4
      → io.inb (0xcfc + k) (io.out_dword 0xcf8 (a + k) s) ≡ view s a / 2 ^ (k * 8) % 256
  pub selects : (a b : ℕ) (s : S) → view (io.out_dword 0xcf8 a s) b ≡ view s b
  pub writes :
      (a b v : ℕ) (s : S)
      → a % 4 ≡ 0
      → view (io.out_dword 0xcfc v (io.out_dword 0xcf8 a s)) b
        ≡ (if b == a then store a (view s a) v else view s b)
  pub restores :
      (a : ℕ) (s : S)
      → 0x10 ≤ a % 256
      → a % 256 < 0x28
      → store a (store a (view s a) 0xffffffff) (view s a) ≡ view s a

-- A device whose numbers have their places in an address.
pub record IsPlaced (dev : PciDev) : Type 0 where
  pub bus : dev.bus < 256
  pub device : dev.device < 32
  pub func : dev.func < 8

abbrev pub config_base : PciDev → ℕ
config_base dev = 0x80000000 + dev.bus * 2 ^ 16 + dev.device * 2 ^ 11 + dev.func * 2 ^ 8

pub config_address-config_base :
    (dev : PciDev) (reg : ℕ)
    → IsPlaced dev
    → reg < 256
    → config_address dev reg ≡ config_base dev + reg
unfolding config_address
config_address-config_base dev reg p h =
    let one : bit_or 0x80000000 (dev.bus <<< 16) ≡ (2 ^ 15 + dev.bus) * 2 ^ 16 =
      or-field 31 1 (dev.bus <<< 16) (omega (arith, p.bus)) ∙ omega arith in
    let two : bit_or ((2 ^ 15 + dev.bus) * 2 ^ 16) (dev.device <<< 11)
        ≡ ((2 ^ 15 + dev.bus) * 2 ^ 5 + dev.device) * 2 ^ 11 =
      or-field 16 (2 ^ 15 + dev.bus) (dev.device <<< 11) (omega (arith, p.device)) ∙ omega arith in
    let three : bit_or (((2 ^ 15 + dev.bus) * 2 ^ 5 + dev.device) * 2 ^ 11) (dev.func <<< 8)
        ≡ (((2 ^ 15 + dev.bus) * 2 ^ 5 + dev.device) * 2 ^ 3 + dev.func) * 2 ^ 8 =
      or-field 11 ((2 ^ 15 + dev.bus) * 2 ^ 5 + dev.device) (dev.func <<< 8) (omega (arith, p.func))
      ∙ omega arith in
    let four = or-field 8 (((2 ^ 15 + dev.bus) * 2 ^ 5 + dev.device) * 2 ^ 3 + dev.func) reg h in
    rw (one, two, three, four) (omega arith)

module _ {S : Type 0} (io : Ports S) (view : S → ℕ → ℕ) (store : ℕ → ℕ → ℕ → ℕ)
    (host : IsHost io view store) where
  pub in_dword-view :
      (dev : PciDev) (reg : ℕ) (s : S)
      → IsPlaced dev
      → reg < 256
      → reg % 4 ≡ 0
      → (pci_in_dword io dev reg s).0 ≡ view s (config_base dev + reg)
  unfolding pci_in_dword select
  in_dword-view dev reg s p h even =
      ap (λ a. io.in_dword 0xcfc (io.out_dword 0xcf8 a s)) (config_address-config_base dev reg p h)
      ∙ (host.read_dword (config_base dev + reg) s (omega (arith, even)))

  -- Nothing that is read changes a register.
  pub in_dword-keeps :
      (dev : PciDev) (reg b : ℕ) (s : S) → view (pci_in_dword io dev reg s).1 b ≡ view s b
  unfolding pci_in_dword select
  in_dword-keeps dev reg b s = host.selects (config_address dev reg) b s

  pub in_byte-keeps :
      (dev : PciDev) (reg b : ℕ) (s : S) → view (pci_in_byte io dev reg s).1 b ≡ view s b
  unfolding pci_in_byte select
  in_byte-keeps dev reg b s = host.selects (config_address dev reg) b s

  pub in_byte-view :
      (dev : PciDev) (reg k : ℕ) (s : S)
      → IsPlaced dev
      → reg + k < 256
      → reg % 4 ≡ 0
      → k < 4
      → (pci_in_byte io dev (reg + k) s).0 ≡ view s (config_base dev + reg) / 2 ^ (k * 8) % 256
  unfolding pci_in_byte select
  in_byte-view dev reg k s p h even hk =
      let low : bit_and (reg + k) 3 ≡ k = omega (arith, and-low 2 (reg + k)) in
      let address : config_address dev (reg + k) ≡ config_base dev + reg + k =
        config_address-config_base dev (reg + k) p h ∙ omega arith in
      ap (λ b. io.inb (0xcfc + b) (io.out_dword 0xcf8 (config_address dev (reg + k)) s)) low
      ∙ ap (λ a. io.inb (0xcfc + k) (io.out_dword 0xcf8 a s)) address
      ∙ (host.read_byte (config_base dev + reg) k s (omega (arith, even)) hk)

  pub out_dword-view :
      (dev : PciDev) (reg v b : ℕ) (s : S)
      → IsPlaced dev
      → reg < 256
      → reg % 4 ≡ 0
      → view (pci_out_dword io dev reg v s) b ≡ (
          if b == config_base dev + reg
          then store (config_base dev + reg) (view s (config_base dev + reg)) v
          else view s b)
  unfolding pci_out_dword select
  out_dword-view dev reg v b s p h even =
      ap (λ a. view (io.out_dword 0xcfc v (io.out_dword 0xcf8 a s)) b)
        (config_address-config_base dev reg p h)
      ∙ (host.writes (config_base dev + reg) b v s (omega (arith, even)))
