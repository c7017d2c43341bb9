-- ===== src/Base/Bits.antt =====
-- Words as native numbers: the bit operations of C, through the bits of a word.
pub use Prim.Native.Nat.{bit_and, bit_or}
use Prim.Native.Nat.{
  ℕ, zero, suc, ◌+◌, ◌-◌, ◌*◌, ◌/◌, ◌%◌, ◌≤◌, ◌<◌, min, max, digits, bit_and-bitwise,
  bit_or-bitwise,
}
use mathlib.Core.Path.{◌≡◌, refl}
use mathlib.Core.Logic.{◌≢◌}
use native.Mathlib.Omega.{arith}

-- The two operations, digit by digit, do not depend on how many digits are walked.
abbrev and_walk : ℕ → ℕ → ℕ → ℕ
and_walk n a b = digits (λ b. zero) min n a b

and_walk_stable : (n m a b : ℕ) → a ≤ n → a ≤ m → and_walk n a b ≡ and_walk m a b
and_walk_stable zero zero a b p q = refl
and_walk_stable zero (suc m) zero b p q = refl
and_walk_stable zero (suc m) (suc a) b p q = absurd (omega arith)
and_walk_stable (suc n) zero zero b p q = refl
and_walk_stable (suc n) zero (suc a) b p q = absurd (omega arith)
and_walk_stable (suc n) (suc m) zero b p q = refl
and_walk_stable (suc n) (suc m) (suc a) b p q =
    omega (arith, and_walk_stable n m (suc a / 2) (b / 2) (omega arith) (omega arith))

pub and_halves : (a b : ℕ) → bit_and a b ≡ bit_and (a / 2) (b / 2) * 2 + min (a % 2) (b % 2)
and_halves zero b = omega (arith, bit_and-bitwise 0 b, bit_and-bitwise 0 (b / 2))
and_halves (suc a) b = omega (
  arith,
  bit_and-bitwise (suc a) b,
  bit_and-bitwise (suc a / 2) (b / 2),
  and_walk_stable a (suc a / 2) (suc a / 2) (b / 2) (omega arith) (omega arith),
)

abbrev or_walk : ℕ → ℕ → ℕ → ℕ
or_walk n a b = digits (λ b. b) max n a b

or_walk_stable : (n m a b : ℕ) → a ≤ n → a ≤ m → or_walk n a b ≡ or_walk m a b
or_walk_stable zero zero a b p q = refl
or_walk_stable zero (suc m) zero b p q = refl
or_walk_stable zero (suc m) (suc a) b p q = absurd (omega arith)
or_walk_stable (suc n) zero zero b p q = refl
or_walk_stable (suc n) zero (suc a) b p q = absurd (omega arith)
or_walk_stable (suc n) (suc m) zero b p q = refl
or_walk_stable (suc n) (suc m) (suc a) b p q =
    omega (arith, or_walk_stable n m (suc a / 2) (b / 2) (omega arith) (omega arith))

pub or_halves : (a b : ℕ) → bit_or a b ≡ bit_or (a / 2) (b / 2) * 2 + max (a % 2) (b % 2)
or_halves zero b = omega (arith, bit_or-bitwise 0 b, bit_or-bitwise 0 (b / 2))
or_halves (suc a) b = omega (
  arith,
  bit_or-bitwise (suc a) b,
  bit_or-bitwise (suc a / 2) (b / 2),
  or_walk_stable a (suc a / 2) (suc a / 2) (b / 2) (omega arith) (omega arith),
)

-- Bit `n` of `w`, as 0 or 1.
unfoldable pub bit : ℕ → ℕ → ℕ
bit w zero = w % 2
bit w (suc n) = bit (w / 2) n

-- `1 << n`, and the complement of a `k`-bit word.
unfoldable pub one_shl : ℕ → ℕ
one_shl zero = 1
one_shl (suc n) = 2 * one_shl n

unfoldable pub ones : ℕ → ℕ
ones zero = 0
ones (suc k) = 2 * ones k + 1

unfoldable pub bit_not : ℕ → ℕ → ℕ
unfolding ones
bit_not k w = ones k - w

pub bit-le : (w n : ℕ) → bit w n ≤ 1
unfolding bit
bit-le w zero = omega arith
bit-le w (suc n) = bit-le (w / 2) n

pub bit-bit_and : (a b n : ℕ) → bit (bit_and a b) n ≡ min (bit a n) (bit b n)
unfolding bit
bit-bit_and a b zero = omega (arith, and_halves a b)
bit-bit_and a b (suc n) =
    rw (let e : bit_and a b / 2 ≡ bit_and (a / 2) (b / 2) = omega (arith, and_halves a b) in e)
      (bit-bit_and (a / 2) (b / 2) n)

pub bit-bit_or : (a b n : ℕ) → bit (bit_or a b) n ≡ max (bit a n) (bit b n)
unfolding bit
bit-bit_or a b zero = omega (arith, or_halves a b)
bit-bit_or a b (suc n) =
    rw (let e : bit_or a b / 2 ≡ bit_or (a / 2) (b / 2) = omega (arith, or_halves a b) in e)
      (bit-bit_or (a / 2) (b / 2) n)

pub bit-one_shl_self : (n : ℕ) → bit (one_shl n) n ≡ 1
unfolding bit one_shl
bit-one_shl_self zero = refl
bit-one_shl_self (suc n) =
    rw (let e : 2 * one_shl n / 2 ≡ one_shl n = omega arith in e) (bit-one_shl_self n)

pub bit_zero : (n : ℕ) → bit 0 n ≡ 0
unfolding bit
bit_zero zero = refl
bit_zero (suc n) = bit_zero n

pub bit-one_shl_ne : (m n : ℕ) → m ≢ n → bit (one_shl m) n ≡ 0
unfolding bit one_shl
bit-one_shl_ne zero zero h = absurd (h refl)
bit-one_shl_ne zero (suc n) h = bit_zero n
bit-one_shl_ne (suc m) zero h = omega arith
bit-one_shl_ne (suc m) (suc n) h =
    rw (let e : 2 * one_shl m / 2 ≡ one_shl m = omega arith in e) (bit-one_shl_ne m n (omega arith))

pub bit-bit_not : (k w n : ℕ) → w ≤ ones k → n < k → bit (bit_not k w) n ≡ 1 - bit w n
unfolding bit bit_not
bit-bit_not zero w n h lt = absurd (omega arith)
bit-bit_not (suc k) w zero h lt = omega arith
bit-bit_not (suc k) w (suc n) h lt =
    rw (let e : (ones (suc k) - w) / 2 ≡ ones k - w / 2 = omega arith in e)
      (bit-bit_not k (w / 2) n (omega arith) (omega arith))
