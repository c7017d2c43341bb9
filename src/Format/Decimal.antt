-- ===== src/Format/Decimal.antt =====
-- kernel/vsprintf.c: what `number` prints, and that `skip_atoi` reads it back.
use Prim.Native.Nat.{max}
use linux.Base.{
  ℕ, zero, suc, ◌+◌, ◌-◌, ◌*◌, ◌/◌, ◌%◌, ◌^◌, ◌≡◌, ◌≢◌, ◌≤◌, ◌<◌, refl, ap, ◌∙◌, Bool, true, false,
  not, ◌&&◌, ◌||◌, List, [], ◌∷◌, ◌++◌, some, length, length-append, length-replicate, replicate,
  ltb, if-cases, ◌==◌, if◌then◌else◌, arith,
}
use linux.Base.Bits.{one_shl}
use linux.Format.{
  is_digit, skip_atoi, Flags, digit, digits_from, tmp, unwind, sign_of, magnitude, prefix,
  at_least_zero, layout, front_of, middle_of, shown, printed, number,
}

-- The number that decimal digits stand for, the last one first.
unfoldable pub value : List ℕ → ℕ
value [] = 0
value (c ∷ l) = (c - b'0') + 10 * value l

unfoldable pub Digits : List ℕ → Type 0
Digits [] = Unit
Digits (c ∷ l) = (b'0' ≤ c) × (c ≤ b'9') × Digits l

digits_from-Digits : (fuel num : ℕ) (small : Bool) → Digits (digits_from fuel small 10 num)
unfolding Digits digits_from digit
digits_from-Digits zero num small = tt
digits_from-Digits (suc fuel) num small =
    if-cases Digits (num == 0) [] (digit small (num % 10) ∷ digits_from fuel small 10 (num / 10))
      (λ z. tt) (λ nz. (ground arith, ground arith, digits_from-Digits fuel (num / 10) small))

-- Each unit of fuel is worth a binary digit.
value-digits_from :
    (fuel num : ℕ) (small : Bool) → num < one_shl fuel → value (digits_from fuel small 10 num) ≡ num
unfolding value digits_from digit one_shl
value-digits_from zero num small h = omega arith
value-digits_from (suc fuel) num small h =
    ground (arith, value-digits_from fuel (num / 10) small (omega arith))

skip_atoi-unwind :
    (l rest : List ℕ)
    → Digits l
    → value l < 2 ^ 32
    → skip_atoi (unwind l rest) 0 ≡ skip_atoi rest (value l)
unfolding skip_atoi unwind value Digits is_digit
skip_atoi-unwind [] rest d h = refl
skip_atoi-unwind (c ∷ l) rest (low, high, d) h =
    skip_atoi-unwind l (c ∷ rest) d (omega arith) ∙ ground arith

length-unwind : (l rest : List ℕ) → length (unwind l rest) ≡ length l + length rest
unfolding unwind
length-unwind [] rest = omega arith
length-unwind (c ∷ l) rest = omega (arith, length-unwind l (c ∷ rest))

Digits-tmp : (num : ℕ) (small : Bool) → Digits (tmp small 10 num)
unfolding tmp Digits
Digits-tmp num small =
    if-cases Digits (num == 0) (b'0' ∷ []) (digits_from 32 small 10 num)
      (λ z. (omega arith, omega arith, tt)) (λ nz. digits_from-Digits 32 num small)

value-tmp : (num : ℕ) (small : Bool) → num < 2 ^ 32 → value (tmp small 10 num) ≡ num
unfolding tmp value one_shl
value-tmp num small h = ground (arith, value-digits_from 32 num small h)

-- Leading zeros do not count.
skip_atoi-zeros :
    (k : ℕ) (s rest : List ℕ)
    → skip_atoi ((replicate k b'0' ++ s) ++ rest) 0 ≡ skip_atoi (s ++ rest) 0
unfolding skip_atoi is_digit
skip_atoi-zeros zero s rest = refl
skip_atoi-zeros (suc k) s rest = skip_atoi-zeros k s rest

unwind-append : (l s rest : List ℕ) → unwind l s ++ rest ≡ unwind l (s ++ rest)
unfolding unwind
unwind-append [] s rest = refl
unwind-append (c ∷ l) s rest = unwind-append l (c ∷ s) rest

-- The text goes on with something else than a digit.
abbrev pub EndsNumber : List ℕ → Type 0
EndsNumber [] = Unit
EndsNumber (c ∷ rest) = is_digit c ≡ false

skip_atoi-end : (i : ℕ) (rest : List ℕ) → EndsNumber rest → skip_atoi rest i ≡ (i, rest)
unfolding skip_atoi
skip_atoi-end i [] h = refl
skip_atoi-end i (c ∷ rest) h = rw h refl

-- The flags of `%0u`.
abbrev pub zero_padded : Bool → Flags
zero_padded small = record {
  zeropad = true;
  sign = false;
  plus = false;
  space = false;
  left = false;
  special = false;
  small = small;
}

module _ (middle zeros : ℕ) (digits rest : List ℕ) where
  skip_atoi-layout :
      (back : ℕ)
      → back ≡ 0
      → Digits digits
      → value digits < 2 ^ 32
      → skip_atoi (layout 0 [] middle b'0' zeros digits back ++ rest) 0
        ≡ skip_atoi rest (value digits)
  unfolding layout
  skip_atoi-layout back e d h = rw e (
      let tail : List ℕ = unwind digits [] ++ [] in
      let read : tail ++ rest ≡ unwind digits rest =
        ap (λ l. l ++ rest) (unwind-append digits [] []) ∙ unwind-append digits [] rest in
      skip_atoi-zeros middle (replicate zeros b'0' ++ tail) rest
      ∙ skip_atoi-zeros zeros tail rest
      ∙ ap (λ l. skip_atoi l 0) read
      ∙ skip_atoi-unwind digits rest d h)

-- An unsigned 32-bit number that is printed in decimal, with zeros up to any width and any
-- precision, and is followed by something else than a digit: `skip_atoi` reads the number and stops
-- behind it.
pub skip_atoi-number :
    (num size precision : ℕ) (small : Bool) (rest : List ℕ)
    → num < 2 ^ 32
    → EndsNumber rest
    → (text : List ℕ) × (number num 10 size precision (zero_padded small) ≡ some text)
      × (skip_atoi (text ++ rest) 0 ≡ (num, rest))
unfolding number printed sign_of prefix
skip_atoi-number num size precision small rest h ends =
    let digits = tmp small 10 num in
    let i = length digits in
    let room = at_least_zero size - 0 - shown i precision - 0 in
    let v : value digits ≡ num = value-tmp num small h in
    (
      printed num 10 size precision (zero_padded small),
      refl,
      skip_atoi-layout room (shown i precision - i) digits rest (room - room) (omega arith)
            (Digits-tmp num small) (rw v h)
          ∙ ap (skip_atoi rest) v
          ∙ skip_atoi-end num rest ends,
    )

length-layout :
    (front : ℕ) (head : List ℕ) (middle fill zeros : ℕ) (digits : List ℕ) (back : ℕ)
    → length (layout front head middle fill zeros digits back)
      ≡ front + length head + middle + zeros + length digits + back
unfolding layout
length-layout front head middle fill zeros digits back =
    rw
      (
        length-append (replicate front b' ') (
            head
            ++ (replicate middle fill
                ++ (replicate zeros b'0' ++ (unwind digits [] ++ replicate back b' ')))),
        length-append head (
            replicate middle fill
            ++ (replicate zeros b'0' ++ (unwind digits [] ++ replicate back b' '))),
        length-append (replicate middle fill)
            (replicate zeros b'0' ++ (unwind digits [] ++ replicate back b' ')),
        length-append (replicate zeros b'0') (unwind digits [] ++ replicate back b' '),
        length-append (unwind digits []) (replicate back b' '),
        length-unwind digits [],
        length-replicate {A = ℕ} front b' ',
        length-replicate {A = ℕ} middle fill,
        length-replicate {A = ℕ} zeros b'0',
        length-replicate {A = ℕ} back b' ',
      )
      (omega arith)

-- What the three parts of the room take together.
room_used :
    (type : Flags) (room : ℕ)
    → let front = front_of type room in
      let middle = middle_of type (room - front) in front + middle + (room - front - middle) ≡ room
room_used type room = ground arith

total :
    (front head middle filler i back size room shown : ℕ)
    → front + middle + back ≡ room
    → room ≡ size - head - shown
    → filler ≡ shown - i
    → i ≤ shown
    → front + head + middle + filler + i + back ≡ max size (head + shown)
total front head middle filler i back size room shown e f g h = omega arith

shown_max : (i precision : ℕ) → 1 ≤ i → shown i precision ≡ max (at_least_zero precision) i
shown_max i precision some_digit = ground arith

length-digits_from :
    (fuel num base : ℕ) (small : Bool)
    → num ≢ 0
    → 1 ≤ length (digits_from (suc fuel) small base num)
unfolding digits_from
length-digits_from fuel num base small nz = ground arith

length-tmp : (small : Bool) (base num : ℕ) → 1 ≤ length (tmp small base num)
unfolding tmp
length-tmp small base num =
    if-cases (λ (l : List ℕ). 1 ≤ length l) (num == 0) (b'0' ∷ []) (digits_from 32 small base num)
      (λ z. omega arith) (λ nz. length-digits_from 31 num base small (ground arith))

-- In a base from 2 to 36, `number` prints `size` characters, or as many as the sign, the prefix and
-- the digits, filled up to the precision, need if these are more. A negative size or precision
-- counts as 0.
pub length-number :
    (num base size precision : ℕ) (type : Flags)
    → 2 ≤ base
    → base ≤ 36
    → (text : List ℕ) × (number num base size precision type ≡ some text)
      × (length text
          ≡ max (at_least_zero size) (
              length (sign_of type num ++ prefix type base)
              + max (at_least_zero precision) (length (tmp type.small base (magnitude type num)))))
unfolding number printed
length-number num base size precision type low high =
    let digits = tmp type.small base (magnitude type num) in
    let i = length digits in
    let head = sign_of type num ++ prefix type base in
    let s = shown i precision in
    let room = at_least_zero size - length head - s in
    let front = front_of type room in
    let middle = middle_of type (room - front) in
    let fill = if type.zeropad && not type.left then b'0' else b' ' in
    let ok : (ltb base 2 || ltb 36 base) ≡ false = ground arith in
    let m = shown_max i precision (length-tmp type.small base (magnitude type num)) in
    (
      printed num base size precision type,
      rw ok refl,
      length-layout front head middle fill (s - i) digits (room - front - middle)
          ∙ total front (length head) middle (s - i) i (room - front - middle) (at_least_zero size)
              room s (room_used type room) refl refl (rw m (omega arith))
          ∙ ap (λ k. max (at_least_zero size) (length head + k)) m,
    )
