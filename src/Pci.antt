-- ===== src/Pci.antt =====
-- ker/pci.c: the scan of the PCI bus. The machine behind the ports is a parameter: `Ports` has the
-- reads and writes of the ports over its states. A device is its index in `pcidev`, and `free` is
-- the field that links it into the free list.
pub mod Sizes
pub mod Host
pub mod Intervals
pub mod Devices
pub mod Order
pub mod Scan
mod Tests
use myos_ia.Prelude.{
  ℕ, zero, suc, ◌+◌, ◌-◌, ◌*◌, ◌/◌, ◌%◌, ◌^◌, Bool, true, false, ◌||◌, Option, none, some, List, [],
  bit_and, bit_or, ltb, ◌==◌, if◌then◌else◌, u8, u16, u32, sub32, ◌<<<◌, ◌>>>◌,
}
use myos_ia.Sched.{Ptr, update}
use myos_ia.Slot.{Slots, init_slot, alloc_slot}

pub record Interval : Type 0 where
  pub base : ℕ
  pub size : ℕ
  pub kind : ℕ

-- `struct pci_dev`
pub record PciDev : Type 0 where
  pub bus : ℕ
  pub device : ℕ
  pub func : ℕ
  pub deviceid : ℕ
  pub vendor : ℕ
  pub class : ℕ
  pub header_type : ℕ
  pub irq : ℕ
  pub interval : ℕ → Interval
  pub free : Ptr

pub record Ports (S : Type 0) : Type 0 where
  pub out_dword : ℕ → ℕ → S → S
  pub in_dword : ℕ → S → ℕ
  pub in_word : ℕ → S → ℕ
  pub inb : ℕ → S → ℕ

pub record Pci (S : Type 0) : Type 0 where
  pub machine : S
  pub pcidev : ℕ → PciDev
  pub slots : Slots

abbrev pub slot_size : ℕ
slot_size = 18

abbrev pub pci_vendor_id : ℕ
pci_vendor_id = 0x00

abbrev pub pci_class : ℕ
pci_class = 0x08

abbrev pub pci_header : ℕ
pci_header = 0x0e

abbrev pub pci_base0 : ℕ
pci_base0 = 0x10

abbrev pub pci_int_line : ℕ
pci_int_line = 0x3c

abbrev pub pci_int_pin : ℕ
pci_int_pin = 0x3d

abbrev pub pci_device_normal : ℕ
pci_device_normal = 0

abbrev pub pci_device_bridge : ℕ
pci_device_bridge = 1

abbrev pub pci_class_bridge_pci : ℕ
pci_class_bridge_pci = 0x0604

-- What is written to port 0xCF8.
pub config_address : PciDev → ℕ → ℕ
config_address dev reg =
    bit_or
      (bit_or (bit_or (bit_or 0x80000000 (dev.bus <<< 16)) (dev.device <<< 11)) (dev.func <<< 8))
      reg

-- `pci_intervalsize`
pub pci_intervalsize : ℕ → ℕ → ℕ
pci_intervalsize sz mask =
    let size : ℕ = bit_and sz mask in bit_and size (2 ^ 32 - 1 - sub32 size 1)

-- An entry of `interval` in `pci_dev_setup_interval`, from the two values that were read.
pub read_interval : ℕ → ℕ → Interval → Interval
unfolding pci_intervalsize
read_interval base size old =
    if size == 0 || size == 0xffffffff
    then old
    else if bit_and base 1 == 0
    then record {
      base = bit_and base 0xfffffff0;
      size = pci_intervalsize size 0xfffffff0;
      kind = bit_and base 1;
    }
    else record {
      base = bit_and base 0xfffffffc;
      size = pci_intervalsize size 0xfffc;
      kind = bit_and base 1;
    }

-- The identifiers that stand for no device.
abbrev pub no_device : ℕ → Bool
no_device id = id == 0 || id == 0xffffffff || id == 0x0000ffff || id == 0xffff0000

module _ {S : Type 0} (io : Ports S) where
  -- `out_dword` of the address of a register.
  pub select : PciDev → ℕ → S → S
  unfolding config_address
  select dev reg = io.out_dword 0xcf8 (config_address dev reg)

  -- `pci_in_byte`
  pub pci_in_byte : PciDev → ℕ → S → ℕ × S
  unfolding select
  pci_in_byte dev reg s = let t = select dev reg s in (io.inb (0xcfc + bit_and reg 3) t, t)

  -- `pci_in_word`
  pub pci_in_word : PciDev → ℕ → S → ℕ × S
  unfolding select
  pci_in_word dev reg s = let t = select dev reg s in (io.in_word (0xcfc + bit_and reg 2) t, t)

  -- `pci_in_dword`
  pub pci_in_dword : PciDev → ℕ → S → ℕ × S
  unfolding select
  pci_in_dword dev reg s = let t = select dev reg s in (io.in_dword 0xcfc t, t)

  -- `pci_out_dword`
  pub pci_out_dword : PciDev → ℕ → ℕ → S → S
  unfolding select
  pci_out_dword dev reg value s = io.out_dword 0xcfc value (select dev reg s)

  -- `pci_dev_setup_irq`
  pub pci_dev_setup_irq : PciDev → S → PciDev × S
  unfolding pci_in_byte
  pci_dev_setup_irq dev s =
      let (pin, t) = pci_in_byte dev pci_int_pin s in
      let (line, u) = pci_in_byte dev pci_int_line t in
      if pin == 0 then (record dev { irq = pin }, t) else (record dev { irq = line }, u)

  -- The loop of `pci_dev_setup_interval`, from the register `i` on for `n` registers.
  pub setup_from : ℕ → ℕ → PciDev → S → PciDev × S
  unfolding read_interval pci_in_dword pci_out_dword
  setup_from i zero dev s = (dev, s)
  setup_from i (suc n) dev s =
      let reg : ℕ = pci_base0 + i * 4 in
      let (base, s1) = pci_in_dword dev reg s in
      let s2 = pci_out_dword dev reg 0xffffffff s1 in
      let (size, s3) = pci_in_dword dev reg s2 in
      let s4 = pci_out_dword dev reg base s3 in
      let found : Interval = read_interval base size (dev.interval i) in
      setup_from (i + 1) n (record dev { interval = update dev.interval i found }) s4

  -- `pci_dev_setup_interval`
  pub pci_dev_setup_interval : ℕ → PciDev → S → PciDev × S
  unfolding setup_from
  pci_dev_setup_interval count dev s = setup_from 0 count dev s

  -- The `switch` of `pci_scan_device`, for the class without its interface byte.
  pub setup_device : ℕ → PciDev → S → PciDev × S
  unfolding pci_dev_setup_irq pci_dev_setup_interval
  setup_device class dev s =
      if dev.header_type == pci_device_normal
      then (if class == pci_class_bridge_pci
          then (dev, s)
          else (let (with_irq, t) = pci_dev_setup_irq dev s in pci_dev_setup_interval 6 with_irq t))
      else if dev.header_type == pci_device_bridge
      then (if class == pci_class_bridge_pci then pci_dev_setup_interval 2 dev s else (dev, s))
      else (dev, s)

  -- `pci_scan_device` from `memcpy` on, for the entry `dev`. The copy takes the link of `temp` along.
  pub fill_device : PciDev → ℕ → ℕ → Pci S → Pci S
  unfolding pci_in_byte pci_in_dword setup_device
  fill_device temp id dev s =
      let (class, t) = pci_in_dword temp pci_class s.machine in
      let (type, u) = pci_in_byte temp pci_header t in
      let filled : PciDev = record temp {
        vendor = bit_and id 0xffff;
        deviceid = bit_and (id >>> 16) 0xffff;
        class = class >>> 8;
        header_type = bit_and type 0x7f;
      } in
      let (ready, v) = setup_device (class >>> 16) filled u in
      record {
        machine = v;
        pcidev = update s.pcidev dev ready;
        slots = record s.slots { link = update s.slots.link dev temp.free };
      }

  -- `pci_scan_device`
  pub pci_scan_device : PciDev → Pci S → Pci S
  unfolding pci_in_dword fill_device
  pci_scan_device temp s =
      let (id, t) = pci_in_dword temp pci_vendor_id s.machine in
      let asked : Pci S = record s { machine = t } in
      let (dev, slots) = alloc_slot s.slots in
      if no_device id then asked else elim dev [
        | none ↦ asked
        | some d ↦ fill_device temp id d (record asked { slots = slots })
      ]

  -- The loops of `pci_scan_slot` and `pci_scan_bus`, from `i` on for `n` rounds.
  pub scan_funcs : ℕ → ℕ → PciDev → Pci S → Pci S
  unfolding pci_scan_device
  scan_funcs i zero temp s = s
  scan_funcs i (suc n) temp s =
      scan_funcs (i + 1) n temp (pci_scan_device (record temp { func = i }) s)

  -- `pci_scan_slot`
  pub pci_scan_slot : PciDev → Pci S → Pci S
  unfolding scan_funcs
  pci_scan_slot temp s = scan_funcs 0 8 temp s

  pub scan_devices : ℕ → ℕ → PciDev → Pci S → Pci S
  unfolding pci_scan_slot
  scan_devices i zero temp s = s
  scan_devices i (suc n) temp s =
      scan_devices (i + 1) n temp (pci_scan_slot (record temp { device = i }) s)

  -- `pci_scan_bus`; `tmp` is what its local variable holds before.
  pub pci_scan_bus : PciDev → Pci S → Pci S
  unfolding scan_devices
  pci_scan_bus tmp s = scan_devices 0 32 (record tmp { bus = 0 }) s

  -- The loops of `pci_check_main` over `n` functions of each of `m` devices, from `j` and `i` on.
  pub check_funcs : ℕ → ℕ → PciDev → S → Bool × S
  unfolding pci_in_word
  check_funcs j zero dev s = (false, s)
  check_funcs j (suc n) dev s =
      let at : PciDev = record dev { func = j } in
      let (c, t) = pci_in_word at pci_class s in
      let (x, u) = pci_in_word at pci_vendor_id t in
      let later = check_funcs (j + 1) n dev u in
      if x == 0x8086 || x == 0x0e11 || c == 0x0600 || c == 0x0300 then (true, u) else later

  pub check_devices : ℕ → ℕ → PciDev → S → Bool × S
  unfolding check_funcs
  check_devices i zero dev s = (false, s)
  check_devices i (suc n) dev s =
      let (found, t) = check_funcs 0 8 (record dev { device = i }) s in
      let later = check_devices (i + 1) n dev t in if found then (true, t) else later

  -- `pci_check_main`
  pub pci_check_main : PciDev → S → Bool × S
  unfolding check_devices
  pci_check_main dev s = check_devices 0 32 (record dev { bus = 0 }) s

  -- `pci_init`, with what the local variables of the two scans hold before.
  pub pci_init : PciDev → PciDev → Pci S → Pci S
  unfolding pci_check_main pci_scan_bus
  pci_init dev tmp s =
      let ready : Pci S = record s { slots = init_slot slot_size s.slots } in
      let (found, t) = pci_check_main dev ready.machine in
      let checked : Pci S = record ready { machine = t } in
      if found then pci_scan_bus tmp checked else checked
