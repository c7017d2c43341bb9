-- ===== src/Bitmap/Find.antt =====
-- `find_first_zero` finds the first zero bit, and leaves `b_data` behind its word.
use linux.Base.{
  ℕ, zero, suc, ◌+◌, ◌-◌, ◌*◌, ◌/◌, ◌%◌, ◌≤◌, ◌<◌, ◌≡◌, ◌≢◌, ◌⊎◌, inl, inr, Option, none, some,
  List, get_or, ◌==◌, arith, Bool-cases, Option-cases,
}
use mathlib.Core.Path.{subst}
use linux.Base.Bits.{bit, bit_not, ones, bit-bit_not, bit-le}
use linux.Bitmap.{Map, bsf, scan, find_first_zero}

abbrev Bsf : ℕ → ℕ → ℕ → Option ℕ → Type 0
Bsf k w i none = (n : ℕ) → n < k → bit w n ≡ 0
Bsf k w i (some j) =
    (i ≤ j) × (j < i + k) × (bit w (j - i) ≡ 1) × ((n : ℕ) → n < j - i → bit w n ≡ 0)

none-suc :
    (k w : ℕ)
    → w % 2 ≢ 1
    → ((n : ℕ) → n < k → bit (w / 2) n ≡ 0)
    → (n : ℕ) → n < suc k
    → bit w n ≡ 0
unfolding bit
none-suc k w h b zero l = omega arith
none-suc k w h b (suc n) l = b n (omega arith)

Bsf-suc : (k w i : ℕ) (o : Option ℕ) → w % 2 ≢ 1 → Bsf k (w / 2) (i + 1) o → Bsf (suc k) w i o
unfolding bit
Bsf-suc k w i none h b = none-suc k w h b
Bsf-suc k w i (some j) h b =
    (omega arith, omega arith, rw (let e : j - i ≡ suc (j - (i + 1)) = omega arith in e) b.2, below)
  where
    below : (n : ℕ) → n < j - i → bit w n ≡ 0
    below zero l = omega arith
    below (suc n) l = b.3 n (omega arith)

bsf-Bsf : (k w i : ℕ) → Bsf k w i (bsf k w i)
unfolding bsf bit
bsf-Bsf zero w i = λ n l. absurd (omega arith)
bsf-Bsf (suc k) w i = elim (Bool-cases (w % 2 == 1)) [
  | inl h ↦ rw h (
    omega arith,
    omega arith,
    rw (let e : i - i ≡ 0 = omega arith in e) (ground arith),
    λ n l. absurd (omega arith),
  )
  | inr h ↦ rw h (Bsf-suc k w i (bsf k (w / 2) (i + 1)) (ground arith) (bsf-Bsf k (w / 2) (i + 1)))
]

-- All 32 bits of a word are set.
abbrev pub IsFull : ℕ → Type 0
IsFull w = (n : ℕ) → n < 32 → bit w n ≡ 1

-- What a scan of `k` words from `ptr` says.
pub record Zero (words : List ℕ) (ptr k ecx : ℕ) (r : ℕ × ℕ) : Type 0 where
  pub index : ℕ
  pub low : ℕ
  pub in_range : (index < k) × (low < 32)
  pub result : r.0 ≡ ecx + 32 * index + low
  pub behind : r.1 ≡ ptr + index + 1
  pub is_zero : bit (get_or words (ptr + index) 0) low ≡ 0
  pub ones_below : (n : ℕ) → n < low → bit (get_or words (ptr + index) 0) n ≡ 1
  pub full_before : (i : ℕ) → i < index → IsFull (get_or words (ptr + i) 0)

pub record AllFull (words : List ℕ) (ptr k ecx : ℕ) (r : ℕ × ℕ) : Type 0 where
  pub result : r.0 ≡ ecx + 32 * k
  pub behind : r.1 ≡ ptr + k
  pub full : (i : ℕ) → i < k → IsFull (get_or words (ptr + i) 0)

-- Every word from `ptr` on fits 32 bits.
abbrev pub AreWords : List ℕ → Type 0
AreWords words = (i : ℕ) → get_or words i 0 ≤ ones 32

word-IsFull : (w : ℕ) → w ≤ ones 32 → bsf 32 (bit_not 32 w) 0 ≡ none → IsFull w
word-IsFull w h e n l = omega (
  arith,
  (subst (Bsf 32 (bit_not 32 w) 0) e (bsf-Bsf 32 (bit_not 32 w) 0)) n l,
  bit-bit_not 32 w n h l,
  bit-le w n,
)

word_zero :
    (w j : ℕ)
    → w ≤ ones 32
    → bsf 32 (bit_not 32 w) 0 ≡ some j
    → (j < 32) × (bit w j ≡ 0) × ((n : ℕ) → n < j → bit w n ≡ 1)
word_zero w j h e =
    let b = subst (Bsf 32 (bit_not 32 w) 0) e (bsf-Bsf 32 (bit_not 32 w) 0) in
    let here : bit (bit_not 32 w) j ≡ 1 =
      subst (λ k. bit (bit_not 32 w) k ≡ 1) (let e' : j - 0 ≡ j = omega arith in e') b.2 in
    (
      omega arith,
      omega (arith, bit-bit_not 32 w j h (omega arith), bit-le w j),
      λ n l. omega (arith, b.3 n (omega arith), bit-bit_not 32 w n h (omega arith), bit-le w n),
    )

abbrev pub Scanned : List ℕ → ℕ → ℕ → ℕ → ℕ × ℕ → Type 0
Scanned words ptr k ecx r = Zero words ptr k ecx r ⊎ AllFull words ptr k ecx r

IsFull-at :
    (words : List ℕ) (ptr i : ℕ)
    → IsFull (get_or words ptr 0)
    → ((j : ℕ) → j < i → IsFull (get_or words (ptr + 1 + j) 0))
    → (j : ℕ) → j < suc i
    → IsFull (get_or words (ptr + j) 0)
IsFull-at words ptr i h rest zero l =
    subst (λ k. IsFull (get_or words k 0)) (let e : ptr ≡ ptr + 0 = omega arith in e) h
IsFull-at words ptr i h rest (suc j) l =
    subst (λ k. IsFull (get_or words k 0)) (let e : ptr + 1 + j ≡ ptr + suc j = omega arith in e)
      (rest j (omega arith))

Scanned-suc :
    (words : List ℕ) (ptr k ecx : ℕ) (r : ℕ × ℕ)
    → IsFull (get_or words ptr 0)
    → Scanned words (ptr + 1) k (ecx + 32) r
    → Scanned words ptr (suc k) ecx r
Scanned-suc words ptr k ecx r h (inl z) =
    let same : ptr + 1 + z.index ≡ ptr + suc z.index = omega arith in
    inl (record {
      index = suc z.index;
      low = z.low;
      in_range = (omega arith, z.in_range.1);
      result = omega (arith, z.result);
      behind = omega (arith, z.behind);
      is_zero = subst (λ i. bit (get_or words i 0) z.low ≡ 0) same z.is_zero;
      ones_below = λ n l. subst (λ i. bit (get_or words i 0) n ≡ 1) same (z.ones_below n l);
      full_before = IsFull-at words ptr z.index h z.full_before;
    })
Scanned-suc words ptr k ecx r h (inr a) = inr (record {
  result = omega (arith, a.result);
  behind = omega (arith, a.behind);
  full = IsFull-at words ptr k h a.full;
})

scan-Scanned :
    (k : ℕ) (words : List ℕ) (ptr ecx : ℕ)
    → AreWords words
    → Scanned words ptr k ecx (scan k words ptr ecx)
unfolding scan
scan-Scanned zero words ptr ecx w =
    inr (record { result = omega arith; behind = omega arith; full = λ i l. absurd (omega arith) })
scan-Scanned (suc k) words ptr ecx w =
    elim (Option-cases (bsf 32 (bit_not 32 (get_or words ptr 0)) 0)) [
      | inl e ↦
          rw (e, scan)
            (Scanned-suc words ptr k ecx (scan k words (ptr + 1) (ecx + 32))
              (word-IsFull (get_or words ptr 0) (w ptr) e)
              (scan-Scanned k words (ptr + 1) (ecx + 32) w))
      | inr (j, e) ↦
          let z = word_zero (get_or words ptr 0) j (w ptr) e in
          let here : ptr ≡ ptr + 0 = omega arith in
          rw (e, scan)
            (inl (record {
              index = 0;
              low = j;
              in_range = (omega arith, z.0);
              result = omega arith;
              behind = omega arith;
              is_zero = subst (λ i. bit (get_or words i 0) j ≡ 0) here z.1;
              ones_below = λ n l. subst (λ i. bit (get_or words i 0) n ≡ 1) here (z.2 n l);
              full_before = λ i l. absurd (omega arith);
            }))
    ]

-- `find_first_zero` returns the number of the first zero bit of the 8192 bits from `b_data` on, and
-- leaves `b_data` behind the word of that bit; or, if all are set, 8192, with `b_data` behind the map.
pub find_first_zero_lem :
    (m : Map)
    → AreWords m.words
    → let (res, m') = find_first_zero m in Scanned m.words m.ptr 256 0 (res, m'.ptr)
unfolding find_first_zero
find_first_zero_lem m w = scan-Scanned 256 m.words m.ptr 0 w
