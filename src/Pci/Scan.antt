-- ===== src/Pci/Scan.antt =====
-- The scan of bus 0 in ker/pci.c: which functions `pcidev` describes afterwards.
use myos_ia.Prelude.{
  ℕ, zero, suc, ◌+◌, ◌-◌, ◌≤◌, ◌<◌, ◌≡◌, refl, ap, sym, ◌∙◌, false, Option, none, some, List, [],
  ◌∷◌, ◌++◌, arith, ltb, ◌==◌, if◌then◌else◌, length, get_or, get_or-front, get_or-append,
  length-append, take, Bool-cases, inl, inr,
}
use myos_ia.Sched.Chain.{has, Chain-frame}
use myos_ia.Slot.{Slots, init_slot, alloc_slot}
use myos_ia.Slot.Free.{IsFree, count_up, init_slot-IsFree, alloc_slot-Taken}
use myos_ia.Pci.{
  PciDev, Ports, Pci, slot_size, pci_vendor_id, pci_in_dword, no_device, fill_device,
  pci_scan_device, scan_funcs, pci_scan_slot, scan_devices, pci_scan_bus,
}
use myos_ia.Pci.Host.{IsHost, IsPlaced, config_base, in_dword-view, in_dword-keeps}
use myos_ia.Pci.Devices.{Describes, fill_device-Describes}
use myos_ia.Pci.Order.{
  at, absent_at, answering, functions, devices, keep, keep_all, keep_all-append, keep_all-take,
}

-- `pcidev` describes the functions `ps`, and its other entries are free.
pub record Scanned {S : Type 0} (view : S → ℕ → ℕ) (regs : ℕ → ℕ) (tmp : PciDev) (s : Pci S)
    (ps : List (ℕ × ℕ)) : Type 0 where
  pub registers : (b : ℕ) → view s.machine b ≡ regs b
  pub room : length ps ≤ slot_size
  pub free : IsFree s.slots (count_up (length ps) (slot_size - length ps))
  pub entries : (k : ℕ) → k < length ps → Describes regs (at tmp (get_or ps k (0, 0))) (s.pcidev k)

abbrev InRange : ℕ × ℕ → Type 0
InRange (d, f) = (d < 32) × (f < 8)

at-IsPlaced : (tmp : PciDev) (p : ℕ × ℕ) → InRange p → IsPlaced (at tmp p)
at-IsPlaced tmp (d, f) (hd, hf) = record { bus = omega arith; device = hd; func = hf }

module _ {S : Type 0} (io : Ports S) (view : S → ℕ → ℕ) (store : ℕ → ℕ → ℕ → ℕ)
    (host : IsHost io view store) (regs : ℕ → ℕ) (tmp : PciDev) where
  -- The state after the identifier was read.
  abbrev asked : ℕ × ℕ → Pci S → Pci S
  asked p s = record s { machine = (pci_in_dword io (at tmp p) pci_vendor_id s.machine).1 }

  asked-Scanned :
      (p : ℕ × ℕ) (s : Pci S) (ps : List (ℕ × ℕ))
      → Scanned view regs tmp s ps
      → Scanned view regs tmp (asked p s) ps
  asked-Scanned p s ps h = record {
    registers =
        λ b. in_dword-keeps io view store host (at tmp p) pci_vendor_id b s.machine ∙ h.registers b;
    room = h.room;
    free = h.free;
    entries = h.entries;
  }

  fill_device-Scanned :
      (p : ℕ × ℕ) (s : Pci S) (ps : List (ℕ × ℕ)) (slots : Slots)
      → InRange p
      → Scanned view regs tmp s ps
      → length ps < slot_size
      → IsFree slots (count_up (length ps + 1) (slot_size - (length ps + 1)))
      → has (length ps) (count_up (length ps + 1) (slot_size - (length ps + 1))) ≡ false
      → Scanned view regs tmp
          (fill_device io
            (at tmp p)
            (regs (config_base (at tmp p)))
            (length ps)
            (record s { slots = slots }))
          (ps ++ (p ∷ []))
  fill_device-Scanned p s ps slots inside h room free new =
      let m : ℕ = length ps in
      let (one, others, registers, links) =
        fill_device-Describes io view store host (at tmp p) m (record s { slots = slots }) regs
          (at-IsPlaced tmp p inside) h.registers in
      let longer : length (ps ++ (p ∷ [])) ≡ m + 1 = length-append ps (p ∷ []) in
      record {
        registers = registers;
        room = omega (arith, longer);
        free =
            rw (longer, links)
              (record {
                chain =
                    Chain-frame slots.link slots.head (count_up (m + 1) (slot_size - (m + 1))) m
                      tmp.free free.chain new;
                distinct = free.distinct;
              });
        entries = λ k hk. elim (Bool-cases (k == m)) [
          | inl last ↦ let is : k ≡ m = ground arith in rw (is, get_or-append ps p [] (0, 0)) one
          | inr before ↦
              let less : k < m = ground (arith, longer) in
              rw (get_or-front ps (p ∷ []) k (0, 0) less, others k (ground arith))
                (h.entries k less)
        ];
      }

  -- What the scan makes of the identifier `v` and of the answer of `alloc_slot`.
  abbrev answered : ℕ × ℕ → Pci S → ℕ → Option ℕ × Slots → Pci S
  answered p s v (d, slots) = if no_device v then asked p s else elim d [
    | none ↦ asked p s
    | some i ↦ fill_device io (at tmp p) v i (record (asked p s) { slots = slots })
  ]

  pci_scan_device-answered :
      (p : ℕ × ℕ) (s : Pci S)
      → InRange p
      → ((b : ℕ) → view s.machine b ≡ regs b)
      → pci_scan_device io (at tmp p) s
        ≡ answered p s (regs (config_base (at tmp p))) (alloc_slot s.slots)
  unfolding pci_scan_device
  pci_scan_device-answered p s inside same =
      let id : (pci_in_dword io (at tmp p) pci_vendor_id s.machine).0
          ≡ regs (config_base (at tmp p)) =
        in_dword-view io view store host (at tmp p) pci_vendor_id s.machine
          (at-IsPlaced tmp p inside) (omega arith) refl
        ∙ same (config_base (at tmp p) + pci_vendor_id)
        ∙ ap regs (omega arith) in
      ap (λ v. answered p s v (alloc_slot s.slots)) id

  pci_scan_device-Scanned :
      (p : ℕ × ℕ) (s : Pci S) (ps : List (ℕ × ℕ))
      → InRange p
      → Scanned view regs tmp s ps
      → Scanned view regs tmp
          (pci_scan_device io (at tmp p) s)
          (if absent_at regs tmp p then ps else keep ps p)
  pci_scan_device-Scanned p s ps inside h =
      let m : ℕ = length ps in
      let id = pci_scan_device-answered p s inside h.registers in
      elim (Bool-cases (absent_at regs tmp p)) [
        | inl gone ↦ rw (id, gone) (asked-Scanned p s ps h)
        | inr there ↦ elim (Bool-cases (ltb m slot_size)) [
          | inl room ↦
              let rest : List ℕ = count_up (m + 1) (slot_size - (m + 1)) in
              let next : count_up m (slot_size - m) ≡ m ∷ rest =
                ap (count_up m) {x = slot_size - m} {y = suc (slot_size - (m + 1))}
                  (ground arith) in
              let free : IsFree s.slots (m ∷ rest) = rw (sym next) h.free in
              let (taken, free, new) = alloc_slot-Taken s.slots (m ∷ rest) free in
              rw (id, there, room, taken)
                (fill_device-Scanned p (asked p s) ps (alloc_slot s.slots).1 inside
                  (asked-Scanned p s ps h) (ground arith) free new)
          | inr full ↦
              let none_left : count_up m (slot_size - m) ≡ [] =
                ap (count_up m) {x = slot_size - m} {y = 0} (ground arith) in
              let free : IsFree s.slots [] = rw (sym none_left) h.free in
              let nothing = alloc_slot-Taken s.slots [] free in
              rw (id, there, full, nothing) (asked-Scanned p s ps h)
        ]
      ]

  scan_funcs-Scanned :
      (i n d : ℕ) (s : Pci S) (ps : List (ℕ × ℕ)) (f : ℕ)
      → i + n ≤ 8
      → d < 32
      → Scanned view regs tmp s ps
      → Scanned view regs tmp
          (scan_funcs io i n (at tmp (d, f)) s)
          (keep_all regs tmp ps (functions d i n))
  unfolding scan_funcs keep_all
  scan_funcs-Scanned i zero d s ps f hi hd h = h
  scan_funcs-Scanned i (suc n) d s ps f hi hd h =
      scan_funcs-Scanned (i + 1) n d (pci_scan_device io (at tmp (d, i)) s)
        (if absent_at regs tmp (d, i) then ps else keep ps (d, i)) f (omega arith) hd
        (pci_scan_device-Scanned (d, i) s ps (hd, omega arith) h)

  scan_devices-Scanned :
      (i n : ℕ) (s : Pci S) (ps : List (ℕ × ℕ)) (q : ℕ × ℕ)
      → i + n ≤ 32
      → Scanned view regs tmp s ps
      → Scanned view regs tmp
          (scan_devices io i n (at tmp q) s)
          (keep_all regs tmp ps (devices i n))
  unfolding scan_devices pci_scan_slot keep_all
  scan_devices-Scanned i zero s ps q hi h = h
  scan_devices-Scanned i (suc n) s ps q hi h =
      rw (sym (keep_all-append regs tmp ps (functions i 0 8) (devices (i + 1) n))) (
        scan_devices-Scanned (i + 1) n (pci_scan_slot io (at tmp (i, q.1)) s)
          (keep_all regs tmp ps (functions i 0 8)) q (omega arith)
          (scan_funcs-Scanned 0 8 i s ps q.1 (omega arith) (omega arith) h))

-- After the scan of bus 0 that follows `init_slot`, the entries of `pcidev` describe the first 18 of
-- the functions that give an identifier, in the order of their device and function numbers; the
-- other entries are free, and every register of the machine is as it was.
pub pci_scan_bus-Scanned :
    {S : Type 0} (io : Ports S) (view : S → ℕ → ℕ) (store : ℕ → ℕ → ℕ → ℕ) (regs : ℕ → ℕ)
    (tmp : PciDev) (s : Pci S)
    → IsHost io view store
    → ((b : ℕ) → view s.machine b ≡ regs b)
    → Scanned view regs tmp
        (pci_scan_bus io tmp (record s { slots = init_slot slot_size s.slots }))
        (take slot_size (answering regs tmp (devices 0 32)))
unfolding pci_scan_bus
pci_scan_bus-Scanned io view store regs tmp s host same =
    let start : Scanned view regs tmp (record s { slots = init_slot slot_size s.slots }) [] =
      record {
        registers = same;
        room = omega arith;
        free = init_slot-IsFree 17 s.slots;
        entries = λ k hk. absurd (omega arith);
      } in
    rw (sym (keep_all-take regs tmp [] (devices 0 32))) (
      scan_devices-Scanned io view store host regs tmp 0 32
        (record s { slots = init_slot slot_size s.slots }) [] (tmp.device, tmp.func) (omega arith)
        start)
