-- ===== src/Fs/Super/Lookup.antt =====
-- Which super block `get_super`, `get_empty_super` and `read_super` of fs/super.c come to.
use myos_ia.Prelude.{
  ℕ, zero, suc, ◌≡◌, ◌≢◌, refl, false, none, some, arith, ◌==◌, if◌then◌else◌, Bool-cases, inl, inr,
}
use myos_ia.Fs.{Disk}
use myos_ia.Fs.Super.{Supers, ok, spins, get_empty_super, get_super, read_super}

-- While the first super block is in use, `get_empty_super` never returns, although the second one
-- may be free.
pub get_empty_super-spins :
    (fuel : ℕ) (s : Supers) → (s.blocks 0).dev ≢ 0 → get_empty_super fuel s ≡ spins
unfolding get_empty_super
get_empty_super-spins zero s used = refl
get_empty_super-spins (suc fuel) s used =
    let test : ((s.blocks 0).dev == 0) ≡ false = ground arith in
    rw (get_empty_super, test) (get_empty_super-spins fuel s used)

pub get_super-none :
    (dev : ℕ) (s : Supers)
    → (s.blocks 0).dev ≢ dev
    → (s.blocks 1).dev ≢ dev
    → get_super dev s ≡ ok none
unfolding get_super
get_super-none dev s a b = ground arith

get_super-first :
    (dev : ℕ) (s : Supers)
    → dev ≢ 0
    → (s.blocks 0).dev ≡ dev
    → (s.blocks 0).locked ≡ 0
    → get_super dev s ≡ ok (some 0)
unfolding get_super
get_super-first dev s a b c = ground arith

-- Once a volume is mounted in the first super block, `read_super` finds it again for the same device
-- and changes nothing; for any device that has no super block it never returns.
pub read_super-again :
    (fuel : ℕ) (disk : Disk) (dev first_log : ℕ) (s : Supers)
    → (s.blocks 0).dev ≢ 0
    → (s.blocks 0).locked ≡ 0
    → (s.blocks 1).dev ≡ 0
    → dev ≢ 0
    → read_super fuel disk dev first_log s
      ≡ (if dev == (s.blocks 0).dev then ok (some 0, s) else spins)
unfolding read_super
read_super-again fuel disk dev first_log s used unlocked free real =
    elim (Bool-cases (dev == (s.blocks 0).dev)) [
      | inl known ↦ rw (known, get_super-first dev s real (ground arith) unlocked) refl
      | inr other ↦
          rw
            (
              other,
              get_super-none dev s (ground arith) (ground arith),
              get_empty_super-spins fuel s used,
            )
            refl
    ]
