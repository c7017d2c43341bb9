-- ===== src/String/Copy/Bounded.antt =====
-- include/string.h: what `strncpy` and `strncat` store.
use linux.Base.{
  ℕ, zero, suc, ◌+◌, ◌-◌, ◌≤◌, ◌<◌, ◌≡◌, ◌⊎◌, inl, inr, true, false, ◌∙◌, ap, arith, leb, ltb,
  if◌then◌else◌,
}
use linux.String.{Memory, store_byte}
use linux.String.Search.{IsString, FirstAt-head, FirstAt-tail, FirstAt-zero}
use linux.String.Move.{inside, filled, rep_stosb_lem}
use linux.String.Copy.{strncpy, append_bytes, strncat}
use linux.String.Copy.Whole.{IsString-store_byte, end_of_string}

-- The block of `count` bytes at `dest`, with the `n` bytes at `src` and zeros after them.
unfoldable pub padded : ℕ → ℕ → ℕ → ℕ → Memory → Memory
padded dest src n count mem a =
    if inside dest count a then (if ltb (a - dest) n then mem (src + (a - dest)) else 0) else mem a

small : (n : ℕ) → suc n ≤ 0x80000000 → leb 0x80000000 n ≡ false
small n l = ground arith

place : (a b : ℕ) → (a < b) ⊎ ((a ≡ b) ⊎ (b < a))
place a b = ground arith

-- The bytes of the string that are copied later are not those stored to before.
later :
    (d s n : ℕ) (mem : Memory) (a : ℕ)
    → d < a
    → a - d < suc n
    → (d ≤ s) ⊎ (s + suc n < d)
    → store_byte d (mem s) mem (s + 1 + (a - (d + 1))) ≡ mem (s + (a - d))
later d s n mem a h l o = grind arith

padded_step :
    (d s n count : ℕ) (mem : Memory) (a : ℕ)
    → (d ≤ s) ⊎ (s + suc n < d)
    → padded (d + 1) (s + 1) n count (store_byte d (mem s) mem) a
      ≡ padded d s (suc n) (suc count) mem a
unfolding padded
padded_step d s n count mem a o = elim (place a d) [
  | inl lt ↦ grind arith
  | inr (inl eq) ↦ grind arith
  | inr (inr gt) ↦ elim (place (a - d) (suc n)) [
    | inl lt ↦
        let e : store_byte d (mem s) mem (s + 1 + (a - (d + 1))) ≡ mem (s + (a - d)) =
          later d s n mem a gt lt o in
        grind arith
    | inr ge ↦ grind arith
  ]
]

padded_end :
    (d s count : ℕ) (mem : Memory) (a : ℕ)
    → mem s ≡ 0
    → filled (d + 1) (mem s) count (store_byte d (mem s) mem) a ≡ padded d s 0 (suc count) mem a
unfolding padded filled
padded_end d s count mem a z = grind arith

-- `strncpy` stores `count` bytes, for a count up to 2 ^ 31: the bytes of the string of `n` bytes,
-- as far as the count goes, and zeros after them, where `dest` is not after the beginning of the
-- string and before its end. Every other byte stays.
pub strncpy_lem :
    (dest src count n : ℕ) (mem : Memory) (a : ℕ)
    → count ≤ 0x80000000
    → IsString src n mem
    → (dest ≤ src) ⊎ (src + n < dest)
    → strncpy dest src count mem a ≡ padded dest src n count mem a
unfolding strncpy padded
strncpy_lem d s zero n mem a h f o = ground arith
strncpy_lem d s (suc count) zero mem a h f o =
    rw (strncpy, small count h, FirstAt-zero 0 s mem f)
      (rep_stosb_lem count (mem s) (d + 1) (store_byte d (mem s) mem) a
        ∙ padded_end d s count mem a (ap mem (omega arith) ∙ f.here))
strncpy_lem d s (suc count) (suc n) mem a h f o =
    rw (strncpy, small count h, FirstAt-head 0 s n mem f)
      (strncpy_lem (d + 1) (s + 1) count n (store_byte d (mem s) mem) a (omega arith)
          (IsString-store_byte (s + 1) n d (mem s) mem
            (elim o [ inl u ↦ inl (omega arith) | inr u ↦ inr (omega arith) ])
            (FirstAt-tail 0 s n mem f))
          (elim o [ inl u ↦ inl (omega arith) | inr u ↦ inr (omega arith) ])
        ∙ padded_step d s n count mem a o)

-- The `n` bytes at `src`, and `m` zero bytes.
unfoldable pub spliced : ℕ → ℕ → ℕ → ℕ → Memory → Memory
spliced e src n m mem a =
    if inside e n a then mem (src + (a - e)) else if inside (e + n) m a then 0 else mem a

-- The bytes of the string of `n` bytes, up to the count, and a zero byte; where the count is above
-- the length, there is one more.
unfoldable pub appended : ℕ → ℕ → ℕ → ℕ → Memory → Memory
unfolding spliced
appended e src n count mem a =
    if ltb n count then spliced e src n 2 mem a else spliced e src count 1 mem a

spliced_step :
    (e s n m : ℕ) (mem : Memory) (a : ℕ)
    → (e ≤ s) ⊎ (s + suc n < e)
    → spliced (e + 1) (s + 1) n m (store_byte e (mem s) mem) a ≡ spliced e s (suc n) m mem a
unfolding spliced
spliced_step e s n m mem a o = elim (place a e) [
  | inl lt ↦ grind arith
  | inr (inl eq) ↦ grind arith
  | inr (inr gt) ↦ elim (place (a - e) (suc n)) [
    | inl lt ↦
        let r : store_byte e (mem s) mem (s + 1 + (a - (e + 1))) ≡ mem (s + (a - e)) =
          later e s n mem a gt lt o in
        grind arith
    | inr ge ↦ grind arith
  ]
]

appended_step :
    (e s n count : ℕ) (mem : Memory) (a : ℕ)
    → (e ≤ s) ⊎ (s + suc n < e)
    → appended (e + 1) (s + 1) n count (store_byte e (mem s) mem) a
      ≡ appended e s (suc n) (suc count) mem a
unfolding appended
appended_step e s n count mem a o = elim (place n count) [
  | inl lt ↦ rw (appended, ltb_true lt, ltb_true (suc_lt lt)) (spliced_step e s n 2 mem a o)
  | inr ge ↦
      rw (appended, ltb_false (ge_le ge), ltb_false (suc_le (ge_le ge)))
        (spliced_step e s count 1 mem a
          (elim o [ inl u ↦ inl u | inr u ↦ inr (let l : count ≤ n = ge_le ge in omega arith) ]))
]
  where
    ltb_true : {x y : ℕ} → x < y → ltb x y ≡ true
    ltb_true h = ground arith

    ltb_false : {x y : ℕ} → y ≤ x → ltb x y ≡ false
    ltb_false h = ground arith

    suc_lt : {x y : ℕ} → x < y → suc x < suc y
    suc_lt h = omega arith

    suc_le : {x y : ℕ} → x ≤ y → suc x ≤ suc y
    suc_le h = omega arith

    ge_le : (n ≡ count) ⊎ (count < n) → count ≤ n
    ge_le ge = elim ge [ inl u ↦ omega arith | inr u ↦ omega arith ]

appended_end :
    (e s count : ℕ) (mem : Memory) (a : ℕ)
    → mem s ≡ 0
    → store_byte (e + 1) 0 (store_byte e (mem s) mem) a ≡ appended e s 0 (suc count) mem a
unfolding appended spliced
appended_end e s count mem a z = grind arith

append_bytes_lem :
    (e s count n : ℕ) (mem : Memory) (a : ℕ)
    → count ≤ 0x80000000
    → IsString s n mem
    → (e ≤ s) ⊎ (s + n < e)
    → append_bytes e s count mem a ≡ appended e s n count mem a
unfolding append_bytes appended spliced
append_bytes_lem e s zero n mem a h f o = ground arith
append_bytes_lem e s (suc count) zero mem a h f o =
    rw (append_bytes, small count h, FirstAt-zero 0 s mem f)
      (appended_end e s count mem a (ap mem (omega arith) ∙ f.here))
append_bytes_lem e s (suc count) (suc n) mem a h f o =
    rw (append_bytes, small count h, FirstAt-head 0 s n mem f)
      (append_bytes_lem (e + 1) (s + 1) count n (store_byte e (mem s) mem) a (omega arith)
          (IsString-store_byte (s + 1) n e (mem s) mem
            (elim o [ inl u ↦ inl (omega arith) | inr u ↦ inr (omega arith) ])
            (FirstAt-tail 0 s n mem f))
          (elim o [ inl u ↦ inl (omega arith) | inr u ↦ inr (omega arith) ])
        ∙ appended_step e s n count mem a o)

-- `strncat` stores at the end of the string of `m` bytes at `dest` the bytes of the string of `n`
-- bytes at `src`, as far as a count up to 2 ^ 31 goes, and a zero byte. Where the count is above
-- `n` it stores another zero byte after that one, outside the string. Every other byte stays. The
-- end of the string at `dest` is not after the beginning of the string copied and before its end,
-- and `m` is less than 0xffffffff.
pub strncat_lem :
    (dest src count m n : ℕ) (mem : Memory) (a : ℕ)
    → count ≤ 0x80000000
    → m < 0xffffffff
    → IsString dest m mem
    → IsString src n mem
    → (dest + m ≤ src) ⊎ (src + n < dest + m)
    → strncat dest src count mem a ≡ appended (dest + m) src n count mem a
unfolding strncat
strncat_lem dest src count m n mem a h b g f o =
    ap (λ d. append_bytes d src count mem a) (end_of_string dest m mem b g)
    ∙ append_bytes_lem (dest + m) src count n mem a h f o
