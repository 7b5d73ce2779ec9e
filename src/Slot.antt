-- ===== src/Slot.antt =====
-- include/slot.h: the free lists of inodes, open files and PCI devices. A slot is its index in the
-- array; `link` is the `next` field of the slot's `struct free_list`.
pub mod Free
mod Tests
use myos_ia.Prelude.{ℕ, zero, suc, ◌+◌, ◌-◌, Option, none, some, ◌==◌, if◌then◌else◌}
use myos_ia.Sched.{Ptr, update}

pub record Slots : Type 0 where
  pub head : Ptr
  pub link : ℕ → Ptr

-- The loop of `init_slot`, from the slot `i` on for `n` slots.
link_up : ℕ → ℕ → (ℕ → Ptr) → ℕ → Ptr
link_up i zero link = link
link_up i (suc n) link = link_up (i + 1) n (update link i (some (i + 1)))

-- `init_slot`, of an array of `num` slots.
unfoldable pub init_slot : ℕ → Slots → Slots
unfolding link_up
init_slot num s = record {
  head = some 0;
  link = update (link_up 0 (num - 1) s.link) (num - 1) none;
}

-- `alloc_slot`
unfoldable pub alloc_slot : Slots → Option ℕ × Slots
alloc_slot s = elim s.head [ none ↦ (none, s) | some h ↦ (some h, record s { head = s.link h }) ]

-- `free_slot`
unfoldable pub free_slot : ℕ → Slots → Slots
free_slot h s = record { head = some h; link = update s.link h s.head }
