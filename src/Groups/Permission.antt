-- ===== src/Groups/Permission.antt =====
-- Which bits of a file's mode decide what a process may do.
use linux.Base.{
  ℕ, ◌+◌, ◌/◌, ◌≤◌, ◌<◌, ◌≡◌, ◌≢◌, ◌↔◌, true, arith, ◌⊎◌, ◌*◌, if◌then◌else◌, ◌==◌, min,
}
use linux.Base.Bits.{bit, bit_and, bit-bit_and, bit-le, and_halves}
use linux.Base.Masks.{bit_and-zero}
use linux.Groups.{Caller, Inode, permission, class_mode, in_group_p}

-- The three bits of the class that the caller belongs to: the owner's from bit 6 on, the group's
-- from bit 3 on, the others' from bit 0 on. Only the first class that fits counts.
abbrev pub class_shift : Caller → Inode → ℕ
class_shift c i = if c.euid == i.uid then 6 else if in_group_p c.egid i.gid c.groups then 3 else 0

-- The three low bits of a word.
low_three : (w : ℕ) → bit_and w 7 ≡ bit w 0 + 2 * bit w 1 + 4 * bit w 2
unfolding bit
low_three w = omega (
  arith,
  and_halves w 7,
  and_halves (w / 2) 3,
  and_halves (w / 2 / 2) 1,
  bit_and-zero (w / 2 / 2 / 2),
)

mask_bits : (w : ℕ) → w < 8 → w ≡ bit w 0 + 2 * bit w 1 + 4 * bit w 2
unfolding bit
mask_bits w h = omega arith

-- `mode` has all the bits of `mask`.
abbrev pub HasBits : ℕ → ℕ → ℕ → Type 0
HasBits mode from mask =
    (bit mask 0 ≤ bit mode from)
    × (bit mask 1 ≤ bit mode (from + 1))
    × (bit mask 2 ≤ bit mode (from + 2))

low_three-and :
    (m mask : ℕ)
    → bit_and (bit_and m mask) 7
      ≡ min (bit m 0) (bit mask 0) + 2 * min (bit m 1) (bit mask 1) + 4 * min (bit m 2) (bit mask 2)
low_three-and m mask = omega (
  arith,
  low_three (bit_and m mask),
  bit-bit_and m mask 0,
  bit-bit_and m mask 1,
  bit-bit_and m mask 2,
)

masked : (m mask : ℕ) → mask < 8 → (bit_and (bit_and m mask) 7 ≡ mask) ↔ HasBits m 0 mask
masked m mask h =
    let sum = low_three-and m mask in
    let parts = mask_bits mask h in
    let a = bit-le mask 0 in
    let b = bit-le mask 1 in let c = bit-le mask 2 in (λ e. omega arith, λ e. omega arith)

class_mode-HasBits :
    (c : Caller) (i : Inode) (mask : ℕ)
    → HasBits (class_mode c i) 0 mask ↔ HasBits i.mode (class_shift c i) mask
unfolding class_mode bit
class_mode-HasBits c i mask = (ground arith, ground arith)

-- `permission` allows access in one of eight modes exactly when the file is not a deleted one and the
-- caller is root or the class that the caller belongs to has every bit that is asked for.
pub permission_iff :
    (c : Caller) (i : Inode) (mask : ℕ)
    → mask < 8
    → (permission c i mask ≡ true)
      ↔ (((i.dev ≡ 0) ⊎ (i.nlink ≢ 0)) × ((c.euid ≡ 0) ⊎ HasBits i.mode (class_shift c i) mask))
unfolding permission
permission_iff c i mask h =
    let m = masked (class_mode c i) mask h in
    let k = class_mode-HasBits c i mask in (ground arith, ground arith)
