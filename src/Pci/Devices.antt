-- ===== src/Pci/Devices.antt =====
-- `pci_scan_device` of ker/pci.c for one function of a device.
use myos_ia.Prelude.{
  ℕ, ◌+◌, ◌/◌, ◌%◌, ◌^◌, ◌≤◌, ◌≡◌, ◌≢◌, refl, ap, sym, ◌∙◌, false, arith, bit_and, ◌>>>◌, ◌==◌,
  Bool-cases, inl, inr,
}
use myos_ia.Prelude.Bits.{and-low}
use myos_ia.Sched.{update}
use myos_ia.Sched.Chain.{update_self}
use myos_ia.Pci.{
  PciDev, Ports, Pci, pci_class, pci_header, pci_device_normal, pci_device_bridge,
  pci_class_bridge_pci, pci_int_pin, pci_int_line, setup_from, pci_in_byte, pci_in_dword,
  pci_dev_setup_irq, pci_dev_setup_interval, setup_device, fill_device,
}
use myos_ia.Pci.Host.{
  IsHost, IsPlaced, config_base, in_dword-view, in_dword-keeps, in_byte-keeps, in_byte-view,
}
use myos_ia.Pci.Intervals.{setup_from-view, setup_from-fields}

-- An entry of `pcidev` for the function at `at`, against the registers of the machine.
pub record Describes (regs : ℕ → ℕ) (temp dev : PciDev) : Type 0 where
  pub bus : dev.bus ≡ temp.bus
  pub device : dev.device ≡ temp.device
  pub func : dev.func ≡ temp.func
  pub vendor : dev.vendor ≡ regs (config_base temp) % 2 ^ 16
  pub deviceid : dev.deviceid ≡ regs (config_base temp) / 2 ^ 16 % 2 ^ 16
  pub class : dev.class ≡ regs (config_base temp + 8) / 2 ^ 8
  pub header_type : dev.header_type ≡ regs (config_base temp + 12) / 2 ^ 16 % 2 ^ 7

module _ {S : Type 0} (io : Ports S) (view : S → ℕ → ℕ) (store : ℕ → ℕ → ℕ → ℕ)
    (host : IsHost io view store) where
  -- The set-up of a device changes only its line and its intervals, and no register.
  record SetUp (dev : PciDev) (s : S) (r : PciDev × S) : Type 0 where
    fields : r.0 ≡ record dev { irq = r.0.irq; interval = r.0.interval }
    registers : (b : ℕ) → view r.1 b ≡ view s b

  intervals-SetUp :
      (count : ℕ) (dev : PciDev) (s : S)
      → IsPlaced dev
      → count ≤ 6
      → SetUp dev s (pci_dev_setup_interval io count dev s)
  unfolding pci_dev_setup_interval
  intervals-SetUp count dev s p h =
      let e = setup_from-fields io view store host 0 count dev s in
      record {
        fields = e ∙ λ t. record dev {
          irq = ap (λ d. d.irq) (sym e) t;
          interval = (setup_from io 0 count dev s).0.interval;
        };
        registers = λ b. setup_from-view io view store host 0 count dev s b p (omega (arith, h));
      }

  irq-SetUp : (dev : PciDev) (s : S) → SetUp dev s (pci_dev_setup_irq io dev s)
  unfolding pci_dev_setup_irq
  irq-SetUp dev s =
      let first = pci_in_byte io dev pci_int_pin s in
      let keeps = in_byte-keeps io view store host dev in
      elim (Bool-cases (first.0 == 0)) [
        | inl pin ↦ rw pin (record { fields = refl; registers = λ b. keeps pci_int_pin b s })
        | inr there ↦ rw there (record {
          fields = refl;
          registers = λ b. keeps pci_int_line b first.1 ∙ keeps pci_int_pin b s;
        })
      ]

  SetUp-IsPlaced :
      (dev : PciDev) (s : S) (r : PciDev × S) → SetUp dev s r → IsPlaced dev → IsPlaced r.0
  SetUp-IsPlaced dev s r u p = record {
    bus = rw (ap (λ d. d.bus) u.fields) p.bus;
    device = rw (ap (λ d. d.device) u.fields) p.device;
    func = rw (ap (λ d. d.func) u.fields) p.func;
  }

  SetUp-trans :
      (dev : PciDev) (s : S) (q r : PciDev × S) → SetUp dev s q → SetUp q.0 q.1 r → SetUp dev s r
  SetUp-trans dev s q r u v = record {
    fields =
        v.fields
        ∙ ap (λ (d : PciDev). record d { irq = r.0.irq; interval = r.0.interval }) u.fields;
    registers = λ b. v.registers b ∙ u.registers b;
  }

  setup_device-SetUp :
      (class : ℕ) (dev : PciDev) (s : S) → IsPlaced dev → SetUp dev s (setup_device io class dev s)
  unfolding setup_device
  setup_device-SetUp class dev s p =
      let untouched : SetUp dev s (dev, s) = record { fields = refl; registers = λ b. refl } in
      let irq = irq-SetUp dev s in
      let r = pci_dev_setup_irq io dev s in
      let six = intervals-SetUp 6 r.0 r.1 (SetUp-IsPlaced dev s r irq p) (omega arith) in
      let normal = SetUp-trans dev s r (pci_dev_setup_interval io 6 r.0 r.1) irq six in
      let two = intervals-SetUp 2 dev s p (omega arith) in
      elim (Bool-cases (dev.header_type == pci_device_normal)) [
        | inl h ↦ elim (Bool-cases (class == pci_class_bridge_pci)) [
          | inl c ↦ rw (h, c) untouched
          | inr c ↦ rw (h, c) normal
        ]
        | inr h ↦ elim (Bool-cases (dev.header_type == pci_device_bridge)) [
          | inl b ↦ elim (Bool-cases (class == pci_class_bridge_pci)) [
            | inl c ↦ rw (h, b, c) two
            | inr c ↦ rw (h, b, c) untouched
          ]
          | inr b ↦ rw (h, b) untouched
        ]
      ]

  -- What `pci_scan_device` makes of the entry `d` for a function that is there.
  pub fill_device-Describes :
      (temp : PciDev) (d : ℕ) (s : Pci S) (regs : ℕ → ℕ)
      → IsPlaced temp
      → ((b : ℕ) → view s.machine b ≡ regs b)
      → let t = fill_device io temp (regs (config_base temp)) d s in
        Describes regs temp (t.pcidev d)
        × ((k : ℕ) → k ≢ d → t.pcidev k ≡ s.pcidev k)
        × ((b : ℕ) → view t.machine b ≡ regs b)
        × (t.slots ≡ record s.slots { link = update s.slots.link d temp.free })
  unfolding fill_device
  fill_device-Describes temp d s regs p same =
      let c = pci_in_dword io temp pci_class s.machine in
      let h = pci_in_byte io temp pci_header c.1 in
      let known : (b : ℕ) → view h.1 b ≡ regs b = λ b.
        in_byte-keeps io view store host temp pci_header b c.1
        ∙ in_dword-keeps io view store host temp pci_class b s.machine
        ∙ same b in
      let class : c.0 ≡ regs (config_base temp + 8) =
        in_dword-view io view store host temp pci_class s.machine p (omega arith) refl
        ∙ same (config_base temp + 8) in
      let header : h.0 ≡ regs (config_base temp + 12) / 2 ^ 16 % 2 ^ 8 =
        in_byte-view io view store host temp 12 2 c.1 p (omega arith) refl (omega arith)
        ∙ ap (λ v. v / 2 ^ 16 % 256)
            (in_dword-keeps io view store host temp pci_class (config_base temp + 12) s.machine
              ∙ same (config_base temp + 12)) in
      let dev : PciDev = record temp {
        vendor = bit_and (regs (config_base temp)) 0xffff;
        deviceid = bit_and (regs (config_base temp) >>> 16) 0xffff;
        class = c.0 >>> 8;
        header_type = bit_and h.0 0x7f;
      } in
      let r = setup_device io (c.0 >>> 16) dev h.1 in
      let set_up : SetUp dev h.1 r =
        setup_device-SetUp (c.0 >>> 16) dev h.1
          (record { bus = p.bus; device = p.device; func = p.func }) in
      let whole = set_up.fields in
      (
        rw (update_self s.pcidev d r.0) (record {
          bus = ap (λ x. x.bus) whole;
          device = ap (λ x. x.device) whole;
          func = ap (λ x. x.func) whole;
          vendor = ap (λ x. x.vendor) whole ∙ and-low 16 (regs (config_base temp));
          deviceid = ap (λ x. x.deviceid) whole ∙ and-low 16 (regs (config_base temp) >>> 16);
          class = ap (λ x. x.class) whole ∙ ap (λ v. v / 2 ^ 8) class;
          header_type =
              ap (λ x. x.header_type) whole
              ∙ and-low 7 h.0
              ∙ ap (λ v. v % 2 ^ 7) header
              ∙ omega arith;
        }),
        λ k other. let test : (k == d) ≡ false = ground arith in rw test refl,
        λ b. set_up.registers b ∙ known b,
        refl,
      )
