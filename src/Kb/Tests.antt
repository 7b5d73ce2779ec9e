-- ===== src/Kb/Tests.antt =====
-- Runs of the keyboard buffer and its theorems at concrete buffers.
use myos_ia.Prelude.{◌≡◌, refl, none, some, List, [], ◌∷◌, arith, set, replicate}
use myos_ia.Kb.{Kb, dequeue, init, kbd_store, kb_read, char, status_process, map_key}
use myos_ia.Kb.Keymap.{keymap}
use myos_ia.Kb.Codes.{IsValid, contents}
use myos_ia.Kb.Ring.{Event, key, read, run, run_queue, run-run_queue}

-- One code is left, 0x1e (the key A), at the last offset.
abbrev one_code : Kb
one_code = record init { buf = set (replicate 32 0) 31 0x1e; tail = 31; count = 1 }

one_code-IsValid : IsValid one_code
one_code-IsValid = ground arith

reads_a : kb_read one_code ≡ char b'a' (record one_code { tail = 0; count = 0 })
unfolding kb_read map_key keymap
reads_a = refl

abbrev script : List Event
script = key 0x1e ∷ key 0xba ∷ read ∷ key 0x30 ∷ read ∷ read ∷ []

runs_script : run init script ≡ some 0x1e ∷ some 0x30 ∷ none ∷ []
unfolding run kbd_store dequeue status_process
runs_script = refl

run-run_queue_example : run one_code script ≡ run_queue (contents one_code) script
run-run_queue_example = run-run_queue script one_code one_code-IsValid

-- The press of a key with scan code 0x60.
abbrev odd_code : Kb
odd_code = record one_code { buf = set (replicate 32 0) 31 0x60 }
