-- ===== src/Base/Masks.antt =====
-- Single-bit masks: testing, setting and clearing one bit of a word.
use Prim.Native.Nat.{ℕ, zero, suc, ◌+◌, ◌-◌, ◌*◌, ◌/◌, ◌%◌, ◌≤◌, ◌<◌, min, max}
use mathlib.Core.Path.{◌≡◌, sym, ap, ◌∙◌}
use native.Mathlib.Decide.{ℕ_discrete}
use native.Mathlib.Omega.{arith}
use linux.Base.Tests.{◌==◌, if◌then◌else◌}
use linux.Base.Bits.{
  bit_and, bit_or, bit, one_shl, ones, bit_not, and_halves, or_halves, bit-le, bit-bit_and,
  bit-bit_or, bit-bit_not, bit-one_shl_self, bit-one_shl_ne, bit_zero,
}

bit_and-zero_below : (n a : ℕ) → a ≤ n → bit_and a 0 ≡ 0
bit_and-zero_below n zero h = omega (arith, and_halves 0 0)
bit_and-zero_below zero (suc a) h = absurd (omega arith)
bit_and-zero_below (suc n) (suc a) h =
    omega (arith, and_halves (suc a) 0, bit_and-zero_below n (suc a / 2) (omega arith))

pub bit_and-zero : (a : ℕ) → bit_and a 0 ≡ 0
bit_and-zero a = bit_and-zero_below a a (omega arith)

-- `w & (1 << n)`
pub bit_and-one_shl : (w n : ℕ) → bit_and w (one_shl n) ≡ bit w n * one_shl n
unfolding bit one_shl
bit_and-one_shl w zero = omega (arith, and_halves w 1, bit_and-zero (w / 2))
bit_and-one_shl w (suc n) =
    let e : 2 * one_shl n / 2 ≡ one_shl n = omega arith in
    let step = and_halves w (2 * one_shl n) in
    let inner : bit_and (w / 2) (2 * one_shl n / 2) ≡ bit (w / 2) n * one_shl n =
      ap (bit_and (w / 2)) e ∙ bit_and-one_shl (w / 2) n in
    omega (arith, step, inner)

pub one_shl-pos : (n : ℕ) → 0 < one_shl n
unfolding one_shl
one_shl-pos zero = omega arith
one_shl-pos (suc n) = omega (arith, one_shl-pos n)

pub one_shl-le-ones : (n k : ℕ) → n < k → one_shl n ≤ ones k
unfolding one_shl ones
one_shl-le-ones n zero h = absurd (omega arith)
one_shl-le-ones zero (suc k) h = omega arith
one_shl-le-ones (suc n) (suc k) h = omega (arith, one_shl-le-ones n k (omega arith))

-- `if (w & (1 << n))`
pub test_bit : (w n : ℕ) → (bit_and w (one_shl n) == 0) ≡ (bit w n == 0)
test_bit w n = ground (arith, bit_and-one_shl w n, bit-le w n, one_shl-pos n)

-- `w |= 1 << n`
pub bit-set_bit : (w n m : ℕ) → bit (bit_or w (one_shl n)) m ≡ (if m == n then 1 else bit w m)
bit-set_bit w n m = elim (ℕ_discrete m n) [
  | yes p ↦ ground (
    arith,
    bit-bit_or w (one_shl n) m,
    bit-one_shl_self n,
    bit-le w n,
    ap (λ k. bit (one_shl n) k) p,
    ap (λ k. bit w k) p,
  )
  | no p ↦
      ground (arith, bit-bit_or w (one_shl n) m, bit-one_shl_ne n m (λ e. p (sym e)), bit-le w m)
]

-- `w &= ~(1 << n)`, in a word of `k` bits.
pub bit-clear_bit :
    (k w n m : ℕ)
    → n < k
    → m < k
    → bit (bit_and w (bit_not k (one_shl n))) m ≡ (if m == n then 0 else bit w m)
bit-clear_bit k w n m hn hm = elim (ℕ_discrete m n) [
  | yes p ↦ ground (
    arith,
    bit-bit_and w (bit_not k (one_shl n)) m,
    bit-bit_not k (one_shl n) m (one_shl-le-ones n k hn) hm,
    bit-one_shl_self n,
    ap (λ k. bit (one_shl n) k) p,
  )
  | no p ↦ ground (
    arith,
    bit-bit_and w (bit_not k (one_shl n)) m,
    bit-bit_not k (one_shl n) m (one_shl-le-ones n k hn) hm,
    bit-one_shl_ne n m (λ e. p (sym e)),
    bit-le w m,
  )
]

bit_and-le_below : (n a b : ℕ) → a ≤ n → bit_and a b ≤ a
bit_and-le_below n zero b h = omega (arith, and_halves 0 b, bit_and-le_zero b)
  where
    bit_and-le_zero : (b : ℕ) → bit_and 0 b ≡ 0
    bit_and-le_zero b = Prim.Native.Nat.bit_and-bitwise 0 b
bit_and-le_below zero (suc a) b h = absurd (omega arith)
bit_and-le_below (suc n) (suc a) b h =
    omega (arith, and_halves (suc a) b, bit_and-le_below n (suc a / 2) (b / 2) (omega arith))

pub bit_and-le : (a b : ℕ) → bit_and a b ≤ a
bit_and-le a b = bit_and-le_below a a b (omega arith)

pub bit_or-le_ones : (k a b : ℕ) → a ≤ ones k → b ≤ ones k → bit_or a b ≤ ones k
unfolding ones
bit_or-le_ones zero a b p q =
    let ea : a ≡ 0 = omega arith in
    let eb : b ≡ 0 = omega arith in rw (ea, eb) (omega (arith, Prim.Native.Nat.bit_or-bitwise 0 0))
bit_or-le_ones (suc k) a b p q =
    omega (arith, or_halves a b, bit_or-le_ones k (a / 2) (b / 2) (omega arith) (omega arith))

-- A word below `1 << n` has no bit from `n` on.
pub bit_above : (w n m : ℕ) → w < one_shl n → n ≤ m → bit w m ≡ 0
unfolding bit one_shl
bit_above w zero m h l = rw (let e : w ≡ 0 = omega arith in e) (bit_zero m)
bit_above w (suc n) zero h l = absurd (omega arith)
bit_above w (suc n) (suc m) h l = bit_above (w / 2) n m (omega arith) (omega arith)
