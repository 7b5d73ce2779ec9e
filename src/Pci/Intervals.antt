-- ===== src/Pci/Intervals.antt =====
-- The base address registers of a device, as `pci_dev_setup_interval` of ker/pci.c leaves and reads
-- them.
use myos_ia.Prelude.{
  ℕ, zero, suc, ◌+◌, ◌*◌, ◌≤◌, ◌<◌, ◌≡◌, refl, ap, sym, ◌∙◌, true, false, ◌&&◌, arith, leb, ltb,
  ◌==◌, if◌then◌else◌, Bool-cases, inl, inr,
}
use myos_ia.Sched.{update}
use myos_ia.Pci.{
  Interval, PciDev, Ports, pci_base0, read_interval, pci_in_dword, pci_out_dword, setup_from,
  pci_dev_setup_interval,
}
use myos_ia.Pci.Sizes.{Decodes, read_interval-Decodes}
use myos_ia.Pci.Host.{IsHost, IsPlaced, config_base, in_dword-view, in_dword-keeps, out_dword-view}

-- The address of the base address register `i`.
abbrev pub bar : PciDev → ℕ → ℕ
bar dev i = config_base dev + (pci_base0 + i * 4)

module _ {S : Type 0} (io : Ports S) (view : S → ℕ → ℕ) (store : ℕ → ℕ → ℕ → ℕ)
    (host : IsHost io view store) where
  -- What is read of a register, before and after all ones are written, and the states on the way.
  abbrev first : PciDev → ℕ → S → S
  first dev i s = (pci_in_dword io dev (pci_base0 + i * 4) s).1

  abbrev ones : PciDev → ℕ → S → S
  ones dev i s = pci_out_dword io dev (pci_base0 + i * 4) 0xffffffff (first dev i s)

  abbrev after : PciDev → ℕ → S → S
  after dev i s =
      pci_out_dword io dev (pci_base0 + i * 4) (pci_in_dword io dev (pci_base0 + i * 4) s).0
        (pci_in_dword io dev (pci_base0 + i * 4) (ones dev i s)).1

  abbrev answer : PciDev → ℕ → S → ℕ
  answer dev i s = store (bar dev i) (view s (bar dev i)) 0xffffffff

  ones-view :
      (dev : PciDev) (i b : ℕ) (s : S)
      → IsPlaced dev
      → i < 6
      → view (ones dev i s) b ≡ (if b == bar dev i then answer dev i s else view s b)
  ones-view dev i b s p h =
      rw
        (
          out_dword-view io view store host dev (pci_base0 + i * 4) 0xffffffff b (first dev i s) p
              (omega arith) (omega arith),
          in_dword-keeps io view store host dev (pci_base0 + i * 4) (bar dev i) s,
          in_dword-keeps io view store host dev (pci_base0 + i * 4) b s,
        )
        refl

  -- One round of the loop leaves every register as it was.
  after-view :
      (dev : PciDev) (i b : ℕ) (s : S) → IsPlaced dev → i < 6 → view (after dev i s) b ≡ view s b
  after-view dev i b s p h =
      let reg : ℕ = pci_base0 + i * 4 in
      let a : ℕ = bar dev i in
      let base : (pci_in_dword io dev reg s).0 ≡ view s a =
        in_dword-view io view store host dev reg s p (omega arith) (omega arith) in
      let read = in_dword-keeps io view store host dev reg in
      let same : (a == a) ≡ true = ground arith in
      let held : view (pci_in_dword io dev reg (ones dev i s)).1 a ≡ answer dev i s =
        read a (ones dev i s) ∙ ones-view dev i a s p h ∙ rw same refl in
      out_dword-view io view store host dev reg (pci_in_dword io dev reg s).0 b
        (pci_in_dword io dev reg (ones dev i s)).1 p (omega arith) (omega arith)
      ∙ elim (Bool-cases (b == a)) [
        | inl here ↦
            let at : b ≡ a = ground arith in
            rw (here, base, held)
              (host.restores a s (omega arith) (omega arith) ∙ ap (view s) (sym at))
        | inr there ↦ rw there (read b (ones dev i s) ∙ ones-view dev i b s p h ∙ rw there refl)
      ]

  size-answer :
      (dev : PciDev) (i : ℕ) (s : S)
      → IsPlaced dev
      → i < 6
      → (pci_in_dword io dev (pci_base0 + i * 4) (ones dev i s)).0 ≡ answer dev i s
  size-answer dev i s p h =
      let same : (bar dev i == bar dev i) ≡ true = ground arith in
      in_dword-view io view store host dev (pci_base0 + i * 4) (ones dev i s) p (omega arith)
        (omega arith)
      ∙ ones-view dev i (bar dev i) s p h
      ∙ rw same refl

  -- The interval that one round stores.
  abbrev found : PciDev → ℕ → S → Interval
  found dev i s = read_interval (view s (bar dev i)) (answer dev i s) (dev.interval i)

  abbrev next_dev : PciDev → ℕ → S → PciDev
  next_dev dev i s = record dev { interval = update dev.interval i (found dev i s) }

  setup_round :
      (i n : ℕ) (dev : PciDev) (s : S)
      → IsPlaced dev
      → i < 6
      → setup_from io i (suc n) dev s ≡ setup_from io (i + 1) n (next_dev dev i s) (after dev i s)
  unfolding setup_from
  setup_round i n dev s p h =
      let reg : ℕ = pci_base0 + i * 4 in
      let base : (pci_in_dword io dev reg s).0 ≡ view s (bar dev i) =
        in_dword-view io view store host dev reg s p (omega arith) (omega arith) in
      let size = size-answer dev i s p h in
      λ t.
        setup_from io (i + 1) n
          (record dev {
            interval = update dev.interval i (read_interval (base t) (size t) (dev.interval i));
          })
          (after dev i s)

  -- The registers and the fields of the device, but for its intervals, are as before.
  pub setup_from-view :
      (i n : ℕ) (dev : PciDev) (s : S) (b : ℕ)
      → IsPlaced dev
      → i + n ≤ 6
      → view (setup_from io i n dev s).1 b ≡ view s b
  unfolding setup_from
  setup_from-view i zero dev s b p h = refl
  setup_from-view i (suc n) dev s b p h =
      ap (λ r. view r.1 b) (setup_round i n dev s p (omega arith))
      ∙ setup_from-view (i + 1) n (next_dev dev i s) (after dev i s) b
          (record { bus = p.bus; device = p.device; func = p.func }) (omega arith)
      ∙ after-view dev i b s p (omega arith)

  pub setup_from-fields :
      (i n : ℕ) (dev : PciDev) (s : S)
      → let new : PciDev = (setup_from io i n dev s).0 in
        new ≡ record dev { interval = new.interval }
  unfolding setup_from
  setup_from-fields i zero dev s = refl
  setup_from-fields i (suc n) dev s = setup_from-fields (i + 1) n _ _

  -- A round leaves what the later ones will find.
  found_later :
      (i n j : ℕ) (dev : PciDev) (s : S)
      → IsPlaced dev
      → i + suc n ≤ 6
      → (if leb i j && ltb j (i + suc n)
          then read_interval
              (view (after dev i s) (bar dev j))
              (answer dev j (after dev i s))
              (dev.interval j)
          else dev.interval j)
        ≡ (if leb i j && ltb j (i + suc n) then found dev j s else dev.interval j)
  found_later i n j dev s p h =
      let e = after-view dev i (bar dev j) s p (omega arith) in
      λ t.
        if leb i j && ltb j (i + suc n)
        then read_interval (e t) (store (bar dev j) (e t) 0xffffffff) (dev.interval j)
        else dev.interval j

  pub setup_from-interval :
      (i n : ℕ) (dev : PciDev) (s : S) (j : ℕ)
      → IsPlaced dev
      → i + n ≤ 6
      → (setup_from io i n dev s).0.interval j
        ≡ (if leb i j && ltb j (i + n) then found dev j s else dev.interval j)
  unfolding setup_from
  setup_from-interval i zero dev s j p h =
      let test : (leb i j && ltb j (i + zero)) ≡ false = ground arith in rw test refl
  setup_from-interval i (suc n) dev s j p h =
      let now = ap (λ r. r.0.interval j) (setup_round i n dev s p (omega arith)) in
      let later =
        setup_from-interval (i + 1) n (next_dev dev i s) (after dev i s) j
          (record { bus = p.bus; device = p.device; func = p.func }) (omega arith) in
      now ∙ later ∙ elim (Bool-cases (j == i)) [
        | inl here ↦
            let at : j ≡ i = ground arith in
            let past : (leb (i + 1) j && ltb j (i + 1 + n)) ≡ false = ground arith in
            let within : (leb i j && ltb j (i + suc n)) ≡ true = ground arith in
            rw (past, within, here) (ap (λ k. found dev k s) (sym at))
        | inr there ↦
            let same : (leb (i + 1) j && ltb j (i + 1 + n)) ≡ (leb i j && ltb j (i + suc n)) =
              ground arith in
            rw (same, there) (found_later i n j dev s p h)
      ]

  -- `pci_dev_setup_interval` stores what the first `count` base address registers stand for, leaves
  -- the other intervals of the device alone, and gives every register its old value back.
  pub pci_dev_setup_interval-Decodes :
      (count : ℕ) (dev : PciDev) (s : S) (new : ℕ → Interval)
      → IsPlaced dev
      → count ≤ 6
      → ((j : ℕ)
          → j < count
          → Decodes (view s (bar dev j)) (answer dev j s) (dev.interval j) (new j))
      → let (r, t) = pci_dev_setup_interval io count dev s in
        ((j : ℕ) → r.interval j ≡ (if ltb j count then new j else dev.interval j))
        × ((b : ℕ) → view t b ≡ view s b)
  unfolding pci_dev_setup_interval
  pci_dev_setup_interval-Decodes count dev s new p h decodes = (
    λ j.
        let stored = setup_from-interval 0 count dev s j p (omega (arith, h)) in
        elim (Bool-cases (ltb j count)) [
          | inl low ↦
              let within : (leb 0 j && ltb j (0 + count)) ≡ true = ground arith in
              let new_one =
                read_interval-Decodes (view s (bar dev j)) (answer dev j s) (dev.interval j) (new j)
                  (decodes j (ground arith)) in
              rw low ((rw within at stored) ∙ new_one)
          | inr high ↦
              let outside : (leb 0 j && ltb j (0 + count)) ≡ false = ground arith in
              rw high (rw outside at stored)
        ],
    λ b. setup_from-view 0 count dev s b p (omega (arith, h)),
  )
