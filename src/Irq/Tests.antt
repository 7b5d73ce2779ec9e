-- ===== src/Irq/Tests.antt =====
-- The controllers after start-up, and a handler that disables its own line.
use myos_ia.Prelude.{ℕ, ◌≡◌, refl, true, false, [], ◌∷◌, arith, ltb, ◌&&◌, ◌==◌, if◌then◌else◌}
use myos_ia.Irq.{Pics, intr_init, disable_irq, before_handler, do_irq}
use myos_ia.Irq.Masks.{HasMasks, masked}
use myos_ia.Irq.Service.{disable_irq-masked, do_irq-masked}

abbrev fresh : Pics
fresh = record { gives = λ port. 0xff; writes = []; flag = true; irq_table = λ irq. 0 }

fresh-HasMasks : HasMasks fresh
fresh-HasMasks = ground arith

-- Only the second controller is let through after start-up.
started : (intr_init 7 fresh).gives 0x21 ∷ (intr_init 7 fresh).gives 0xa1 ∷ [] ≡ 0xfb ∷ 0xff ∷ []
unfolding intr_init
started = refl

abbrev all_open : Pics
all_open = record fresh { gives = λ port. 0 }

all_open-HasMasks : HasMasks all_open
all_open-HasMasks = ground arith

disable_irq-masked_example :
    masked (disable_irq 14 all_open) 14
    ≡ (if ltb 14 8 && 14 == 14 then true else masked all_open 14)
disable_irq-masked_example =
    disable_irq-masked 14 14 all_open all_open-HasMasks (omega arith) (omega arith)

handler : ℕ → ℕ → Pics → Pics
handler h irq t = record t { gives = λ port. 0xff }

handler-HasMasks : (h : ℕ) (t : Pics) → HasMasks t → HasMasks (handler h 3 t)
unfolding handler
handler-HasMasks h t m = ground arith

do_irq-masked_example :
    let called = before_handler 3 all_open in
    let returned = handler 0 3 called in
    (masked called 3 ≡ (if 3 == 3 then true else masked all_open 3))
    × (called.flag ≡ true)
    × (masked (do_irq handler 3 all_open) 3 ≡ (if 3 == 3 then false else masked returned 3))
    × ((do_irq handler 3 all_open).flag ≡ false)
do_irq-masked_example =
    do_irq-masked handler 3 3 all_open all_open-HasMasks handler-HasMasks (omega arith)
      (omega arith)
