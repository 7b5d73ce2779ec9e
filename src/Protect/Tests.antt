-- ===== src/Protect/Tests.antt =====
-- Descriptors and tables at concrete addresses.
use myos_ia.Prelude.{ℕ, ◌+◌, ◌*◌, ◌≡◌, refl}
use myos_ia.Protect.{zero_seg, init_codeseg}

kernel_segment : (init_codeseg zero_seg 0 0xffffffff 0).granularity ≡ 0xcf
unfolding init_codeseg
kernel_segment = refl

abbrev handler : ℕ → ℕ
handler i = 0x1000 + i * 16
