-- ===== src/Mktime.antt =====
-- kernel/mktime.c: `kernel_mktime`, from a broken-down time to seconds since 1970.
pub mod Calendar
mod Tests
use linux.Base.{
  ℕ, ◌+◌, ◌-◌, ◌*◌, ◌%◌, ◌^◌, ◌==◌, Bool, true, false, not, ◌&&◌, List, [], ◌∷◌, get_or, ltb,
  if◌then◌else◌,
}
use linux.Base.Int.{ℤ, pos, negsuc, ◌+ℤ◌, ◌-ℤ◌, ◌*ℤ◌, quot, rem}

-- The fields of `struct tm` that are read. The month counts from 0, the day of the month from 1.
pub record Tm : Type 0 where
  pub sec : ℕ
  pub min : ℕ
  pub hour : ℕ
  pub mday : ℕ
  pub mon : ℕ
  pub year : ℕ

abbrev pub minute : ℕ
minute = 60

abbrev pub hour : ℕ
hour = 60 * minute

abbrev pub day : ℕ
day = 24 * hour

abbrev pub year : ℕ
year = 365 * day

-- The static table: seconds of a leap year before each month.
abbrev pub month : List ℕ
month =
    0
    ∷ day * 31
    ∷ day * (31 + 29)
    ∷ day * (31 + 29 + 31)
    ∷ day * (31 + 29 + 31 + 30)
    ∷ day * (31 + 29 + 31 + 30 + 31)
    ∷ day * (31 + 29 + 31 + 30 + 31 + 30)
    ∷ day * (31 + 29 + 31 + 30 + 31 + 30 + 31)
    ∷ day * (31 + 29 + 31 + 30 + 31 + 30 + 31 + 31)
    ∷ day * (31 + 29 + 31 + 30 + 31 + 30 + 31 + 31 + 30)
    ∷ day * (31 + 29 + 31 + 30 + 31 + 30 + 31 + 31 + 30 + 31)
    ∷ day * (31 + 29 + 31 + 30 + 31 + 30 + 31 + 31 + 30 + 31 + 30)
    ∷ []

is_zero : ℤ → Bool
is_zero (pos n) = n == 0
is_zero (negsuc n) = false

signed : ℕ → ℤ
signed n = if ltb n (2 ^ 31) then pos n else pos n -ℤ pos (2 ^ 32)

-- What an `int` or a `long`, of 32 bits, holds of an integer.
unfoldable pub int32 : ℤ → ℤ
unfolding signed
int32 (pos n) = signed (n % 2 ^ 32)
int32 (negsuc n) = signed (2 ^ 32 - 1 - n % 2 ^ 32)

-- `int year` and `long res` go round at 32 bits.
unfoldable pub kernel_mktime : Tm → ℤ
unfolding is_zero int32
kernel_mktime tm =
    let y = int32 (pos tm.year -ℤ pos 70) in
    let res = int32 (pos year *ℤ y +ℤ pos day *ℤ quot (int32 (y +ℤ pos 1)) 4) in
    let res = int32 (res +ℤ pos (get_or month tm.mon 0)) in
    let res =
      if ltb 1 tm.mon && not (is_zero (rem (int32 (y +ℤ pos 2)) 4))
      then int32 (res -ℤ pos day)
      else res in
    let res = int32 (res +ℤ pos day *ℤ (pos tm.mday -ℤ pos 1)) in
    let res = int32 (res +ℤ pos (hour * tm.hour)) in
    let res = int32 (res +ℤ pos (minute * tm.min)) in int32 (res +ℤ pos tm.sec)
