-- ===== src/Fs/Open/Descriptors.antt =====
-- The descriptors of fs/open.c.
use myos_ia.Prelude.{
  ℕ, zero, suc, ◌+◌, ◌*◌, ◌/◌, ◌%◌, ◌<◌, ◌≤◌, ◌≡◌, refl, ap, ◌∙◌, Bool, true, false, ◌&&◌, Option,
  none, some, arith, leb, ◌==◌, if◌then◌else◌, Bool-cases, inl, inr,
}
use myos_ia.Fs.Open.{find_zero_bit, set_bit, FileStruct, get_unused_fd}

-- The bit `k` of a number.
abbrev pub bit : ℕ → ℕ → ℕ
bit p zero = p % 2
bit p (suc k) = bit (p / 2) k

-- All of the lowest `n` bits are set.
abbrev pub all_set : ℕ → ℕ → Bool
all_set p zero = true
all_set p (suc n) = p % 2 == 1 && all_set (p / 2) n

find_zero_bit-all_set : (n p : ℕ) → all_set p (find_zero_bit n p) ≡ true
unfolding find_zero_bit
find_zero_bit-all_set zero p = refl
find_zero_bit-all_set (suc n) p = elim (Bool-cases (p % 2 == 0)) [
  | inl clear ↦ rw clear refl
  | inr used ↦ rw used (ground (arith, find_zero_bit-all_set n (p / 2)))
]

find_zero_bit-clear : (n p : ℕ) → find_zero_bit n p < n → bit p (find_zero_bit n p) ≡ 0
unfolding find_zero_bit
find_zero_bit-clear zero p h = absurd (omega arith)
find_zero_bit-clear (suc n) p h = elim (Bool-cases (p % 2 == 0)) [
  | inl clear ↦ rw clear (ground arith)
  | inr used ↦ rw used (find_zero_bit-clear n (p / 2) (ground arith))
]

set_bit-bit : (p k j : ℕ) → bit (set_bit p k) j ≡ (if j == k then 1 else bit p j)
unfolding set_bit
set_bit-bit p zero zero = omega arith
set_bit-bit p zero (suc j) =
    let other : (suc j == 0) ≡ false = ground arith in
    rw other (ap (λ q. bit q j) {x = (p / 2 * 2 + 1) / 2} {y = p / 2} (omega arith))
set_bit-bit p (suc k) zero =
    let other : (0 == suc k) ≡ false = ground arith in rw other (omega arith)
set_bit-bit p (suc k) (suc j) =
    let shifted : (suc j == suc k) ≡ (j == k) = ground arith in
    rw shifted (
      ap (λ q. bit q j) {x = (set_bit (p / 2) k * 2 + p % 2) / 2} {y = set_bit (p / 2) k}
        (omega arith)
      ∙ set_bit-bit (p / 2) k j)

-- The descriptor is the lowest one that is not in use.
pub record Unused (p : FileStruct) (fd : ℕ) (q : FileStruct) (j : ℕ) : Type 0 where
  pub below : fd < p.maxopen
  pub was_clear : bit p.openfd fd ≡ 0
  pub lowest : all_set p.openfd fd ≡ true
  pub now : bit q.openfd j ≡ (if j == fd then 1 else bit p.openfd j)
  pub files : q.fd_array ≡ p.fd_array

-- What a result of `get_unused_fd` means, for the bit `j`.
abbrev pub Returned : FileStruct → ℕ → Option ℕ × FileStruct → Type 0
Returned p j (none, q) = (all_set p.openfd p.maxopen ≡ true) × (q ≡ p)
Returned p j (some fd, q) = Unused p fd q j

all_set-le : (p n m : ℕ) → m ≤ n → all_set p n ≡ true → all_set p m ≡ true
all_set-le p n zero h a = refl
all_set-le p zero (suc m) h a = absurd (omega arith)
all_set-le p (suc n) (suc m) h a = ground (arith, all_set-le (p / 2) n m)

-- With at most 32 descriptors allowed `get_unused_fd` returns the lowest one that is not in use, and
-- marks it and no other as used; it returns -1, and changes nothing, only where all that are allowed
-- are in use.
pub get_unused_fd-Returned :
    (p : FileStruct) (j : ℕ) → p.maxopen ≤ 32 → Returned p j (get_unused_fd p)
unfolding get_unused_fd
get_unused_fd-Returned p j few =
    let fd : ℕ = find_zero_bit 32 p.openfd in
    elim (Bool-cases (leb p.maxopen fd)) [
      | inl full ↦ rw full (
        all_set-le p.openfd fd p.maxopen (ground arith) (find_zero_bit-all_set 32 p.openfd),
        refl,
      )
      | inr room ↦ rw room (record {
        below = ground arith;
        was_clear = find_zero_bit-clear 32 p.openfd (ground arith);
        lowest = find_zero_bit-all_set 32 p.openfd;
        now = set_bit-bit p.openfd fd j;
        files = refl;
      })
    ]
