-- ===== src/Pci/Tests.antt =====
-- A machine with two functions on its bus, whose base address registers stand for 4096 bytes each.
use myos_ia.Prelude.{
  ℕ, zero, suc, ◌+◌, ◌-◌, ◌*◌, ◌/◌, ◌%◌, ◌^◌, ◌<◌, ◌≡◌, refl, ap, ◌∙◌, Bool, ◌&&◌, none, arith, [],
  ◌∷◌, leb, ltb, ◌==◌, if◌then◌else◌, Bool-cases, inl, inr,
}
use myos_ia.Sched.{update}
use myos_ia.Pci.{PciDev, Ports, Pci, pci_dev_setup_interval, pci_scan_bus}
use myos_ia.Slot.{init_slot}
use myos_ia.Pci.Sizes.{Decodes, memory}
use myos_ia.Pci.Host.{IsHost}
use myos_ia.Pci.Intervals.{bar, pci_dev_setup_interval-Decodes}
use myos_ia.Pci.Order.{answering}
use myos_ia.Pci.Scan.{Scanned, pci_scan_bus-Scanned}

-- The address that was selected, and what the registers hold.
record Machine : Type 0 where
  latch : ℕ
  cells : ℕ → ℕ

abbrev is_bar : ℕ → Bool
is_bar a = leb 0x10 (a % 256) && ltb (a % 256) 0x28

abbrev masked : ℕ → ℕ → ℕ
masked a v = if is_bar a then v / 4096 * 4096 else v

abbrev view : Machine → ℕ → ℕ
view s a = masked a (s.cells a)

abbrev store : ℕ → ℕ → ℕ → ℕ
store a old v = masked a v

abbrev io : Ports Machine
io = record {
  out_dword = λ port v s.
      if port == 0xcf8
      then record s { latch = v - v % 4 }
      else record s { cells = update s.cells s.latch (masked s.latch v) };
  in_dword = λ port s. view s s.latch;
  in_word = λ port s. view s s.latch / 2 ^ ((port - 0xcfc) * 8) % 2 ^ 16;
  inb = λ port s. view s s.latch / 2 ^ ((port - 0xcfc) * 8) % 256;
}

masked_twice : (a v : ℕ) → masked a (masked a v) ≡ masked a v
masked_twice a v = elim (Bool-cases (is_bar a)) [
  | inl bar ↦ rw bar (omega arith)
  | inr other ↦ rw other refl
]

host : IsHost io view store
host = record {
  read_dword = λ a s even. ap (view s) {x = a - a % 4} {y = a} (omega arith);
  read_byte = λ a k s even hk.
      let word : a + k - (a + k) % 4 ≡ a = omega (arith, even) in
      let shift : 0xcfc + k - 0xcfc ≡ k = omega arith in
      λ t. view s (word t) / 2 ^ (shift t * 8) % 256;
  selects = λ a b s. refl;
  writes = λ a b v s even.
      let word : a - a % 4 ≡ a = omega (arith, even) in
      ap (λ c. masked b (update s.cells c (masked c v) b)) word ∙ elim (Bool-cases (b == a)) [
        | inl here ↦
            let same : b ≡ a = ground arith in
            rw here (ap (λ c. masked c (masked a v)) same ∙ masked_twice a v)
        | inr there ↦ rw there refl
      ];
  restores = λ a s lo hi. masked_twice a (s.cells a);
}

-- A network card at the device 3, and a function of the device 5.
abbrev cells : ℕ → ℕ
cells a =
    if a == 0x80001800
    then 0x10001022
    else if a == 0x80001808
    then 0x02000010
    else if a == 0x80001810
    then 0xf0001000
    else if a == 0x80002900
    then 0x12348086
    else 0

abbrev nowhere : PciDev
nowhere = record {
  bus = 7;
  device = 7;
  func = 7;
  deviceid = 0;
  vendor = 0;
  class = 0;
  header_type = 0;
  irq = 0;
  interval = λ i. record { base = 0; size = 0; kind = 0 };
  free = none;
}

abbrev machine : Machine
machine = record { latch = 0; cells = cells }

abbrev pci : Pci Machine
pci = record {
  machine = machine;
  pcidev = λ d. nowhere;
  slots = record { head = none; link = λ d. none };
}

abbrev card : PciDev
card = record nowhere { bus = 0; device = 3; func = 0 }

first_register :
    (j : ℕ)
    → j < 1
    → Decodes
        (view machine (bar card j))
        (store (bar card j) (view machine (bar card j)) 0xffffffff)
        (card.interval j)
        (record { base = 0xf0001000; size = 4096; kind = 0 })
first_register zero h =
    memory 0xf000100 0 12 (omega arith) (omega arith) refl (omega arith) (omega arith) refl refl
      refl
first_register (suc j) h = absurd (omega arith)

pci_dev_setup_interval-Decodes_example :
    let (r, t) = pci_dev_setup_interval io 1 card machine in
    ((j : ℕ)
      → r.interval j ≡ (
          if ltb j 1 then record { base = 0xf0001000; size = 4096; kind = 0 } else card.interval j))
    × ((b : ℕ) → view t b ≡ view machine b)
pci_dev_setup_interval-Decodes_example =
    pci_dev_setup_interval-Decodes io view store host 1 card machine
      (λ j. record { base = 0xf0001000; size = 4096; kind = 0 })
      (record { bus = omega arith; device = omega arith; func = omega arith }) (omega arith)
      first_register

pci_scan_bus-Scanned_example :
    Scanned view
      (view machine)
      nowhere
      (pci_scan_bus io nowhere (record pci { slots = init_slot 18 pci.slots }))
      ((3, 0) ∷ (5, 1) ∷ [])
unfolding answering
pci_scan_bus-Scanned_example =
    pci_scan_bus-Scanned io view store (view machine) nowhere pci host (λ b. refl)
