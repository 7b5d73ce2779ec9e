-- ===== src/Slot/Tests.antt =====
-- The free list of the eight open files.
use myos_ia.Prelude.{none}
use myos_ia.Slot.{Slots}

abbrev blank : Slots
blank = record { head = none; link = λ i. none }
