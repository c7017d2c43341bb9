-- ===== src/Format.antt =====
-- kernel/vsprintf.c: printing a number, and reading one in a format.
-- An `int` is its 32-bit pattern, a text is the list of its characters.
pub mod Decimal
pub mod Convert
pub mod Fuel
pub mod Ended
mod Tests
use linux.Base.{
  ℕ, zero, suc, ◌+◌, ◌-◌, ◌*◌, ◌/◌, ◌%◌, ◌^◌, Bool, true, false, not, ◌&&◌, ◌||◌, List, [], ◌∷◌,
  ◌++◌, Option, none, some, length, replicate, ltb, leb, ◌==◌, if◌then◌else◌,
}

unfoldable pub is_digit : ℕ → Bool
is_digit c = leb b'0' c && leb c b'9'

-- `skip_atoi`, from the value `i` on: the number, and the text behind it.
unfoldable pub skip_atoi : List ℕ → ℕ → ℕ × List ℕ
unfolding is_digit
skip_atoi [] i = (i, [])
skip_atoi (c ∷ s) i =
    let rest = skip_atoi s ((i * 10 + c - b'0') % 2 ^ 32) in if is_digit c then rest else (i, c ∷ s)

-- The bits of `type`.
pub record Flags : Type 0 where
  pub zeropad : Bool
  pub sign : Bool
  pub plus : Bool
  pub space : Bool
  pub left : Bool
  pub special : Bool
  pub small : Bool

-- `digits[k]`
unfoldable pub digit : Bool → ℕ → ℕ
digit small k = if ltb k 10 then b'0' + k else if small then b'a' + k - 10 else b'A' + k - 10

abbrev pub is_negative : ℕ → Bool
is_negative num = leb (2 ^ 31) num

-- The loop with `do_div`: the digits of `tmp`, the last one of the number first.
unfoldable pub digits_from : ℕ → Bool → ℕ → ℕ → List ℕ
digits_from zero small base num = []
digits_from (suc fuel) small base num =
    let rest = digits_from fuel small base (num / base) in
    if num == 0 then [] else digit small (num % base) ∷ rest

unfoldable pub tmp : Bool → ℕ → ℕ → List ℕ
unfolding digits_from
tmp small base num = if num == 0 then b'0' ∷ [] else digits_from 32 small base num

-- `while(i-->0) *str++ = tmp[i];`, in front of `rest`.
unfoldable pub unwind : List ℕ → List ℕ → List ℕ
unwind [] rest = rest
unwind (c ∷ l) rest = unwind l (c ∷ rest)

unfoldable pub sign_of : Flags → ℕ → List ℕ
sign_of type num =
    if type.sign && is_negative num
    then b'-' ∷ []
    else if type.plus
    then b'+' ∷ []
    else if type.space
    then b' ' ∷ []
    else []

abbrev pub magnitude : Flags → ℕ → ℕ
magnitude type num = if type.sign && is_negative num then 2 ^ 32 - num else num

unfoldable pub prefix : Flags → ℕ → List ℕ
unfolding digit
prefix type base =
    if type.special && (base == 8)
    then b'0' ∷ []
    else if type.special && (base == 16)
    then b'0' ∷ digit type.small 33 ∷ []
    else []

-- What a loop `while(size-->0)` makes of a negative number: nothing.
abbrev pub at_least_zero : ℕ → ℕ
at_least_zero n = if is_negative n then 0 else n

-- The output of the loops: blanks, the sign and the prefix, the filling, zeros up to the precision,
-- the digits, and blanks.
unfoldable pub layout : ℕ → List ℕ → ℕ → ℕ → ℕ → List ℕ → ℕ → List ℕ
layout front head middle fill zeros digits back =
    replicate front b' '
    ++ (head
        ++ (replicate middle fill
            ++ (replicate zeros b'0' ++ (unwind digits [] ++ replicate back b' '))))

-- Of `size`, the front takes all or nothing, then the middle, then the back.
abbrev pub front_of : Flags → ℕ → ℕ
front_of type size = if (type.zeropad && not type.left) || type.left then 0 else size

abbrev pub middle_of : Flags → ℕ → ℕ
middle_of type size = if type.left then 0 else size

-- `if (i>precision) precision=i;`
abbrev pub shown : ℕ → ℕ → ℕ
shown i precision = if ltb (at_least_zero precision) i then i else precision

unfoldable pub printed : ℕ → ℕ → ℕ → ℕ → Flags → List ℕ
unfolding layout sign_of prefix tmp
printed num base size precision type =
    let digits = tmp type.small base (magnitude type num) in
    let i = length digits in
    let head = sign_of type num ++ prefix type base in
    let room = at_least_zero size - length head - shown i precision in
    let front = front_of type room in
    let middle = middle_of type (room - front) in
    layout front head middle (if type.zeropad && not type.left then b'0' else b' ')
      (shown i precision - i) digits (room - front - middle)

-- `number`: `none` is the null pointer.
unfoldable pub number : ℕ → ℕ → ℕ → ℕ → Flags → Option (List ℕ)
unfolding printed
number num base size precision type =
    if ltb base 2 || ltb 36 base then none else some (printed num base size precision type)
