-- ===== src/Mktime/Calendar.antt =====
-- The calendar that `kernel_mktime` computes by closed formulas, counted out day by day.
use linux.Base.{
  ℕ, zero, suc, ◌+◌, ◌-◌, ◌*◌, ◌/◌, ◌%◌, ◌≤◌, ◌<◌, ◌≡◌, refl, ap, sym, ◌∙◌, ◌==◌, Bool, true, false,
  not, ◌&&◌, ◌||◌, [], ◌∷◌, get_or, ltb, if◌then◌else◌, arith, Bool-cases, inl, inr, ==_iff, leb→le,
  leb, ◌^◌,
}
use linux.Base.Int.{pos, ◌+ℤ◌, ◌-ℤ◌, ◌*ℤ◌, ℤ, quot, rem}
use linux.Mktime.{Tm, minute, hour, day, year, month, kernel_mktime, is_zero, int32}

-- Whether the year 1970 + n has a 29th of February, by the Gregorian rule.
abbrev pub is_leap : ℕ → Bool
is_leap n = (n + 1970) % 4 == 0 && (not ((n + 1970) % 100 == 0) || (n + 1970) % 400 == 0)

-- The days from 1970 to the start of the year 1970 + n, year by year.
unfoldable pub days_before_year : ℕ → ℕ
days_before_year zero = 0
days_before_year (suc n) = days_before_year n + (if is_leap n then 366 else 365)

abbrev pub month_length : Bool → ℕ → ℕ
month_length leap m =
    get_or (31 ∷ (if leap then 29 else 28) ∷ 31 ∷ 30 ∷ 31 ∷ 30 ∷ 31 ∷ 31 ∷ 30 ∷ 31 ∷ 30 ∷ 31 ∷ []) m
      0

-- The days of a year before its month `m`, month by month.
unfoldable pub days_before_month : Bool → ℕ → ℕ
days_before_month leap zero = 0
days_before_month leap (suc m) = days_before_month leap m + month_length leap m

-- A date that exists, of the years 1970 to 2099.
pub record IsDate (tm : Tm) : Type 0 where
  pub year : (70 ≤ tm.year) × (tm.year < 200)
  pub mon : tm.mon < 12
  pub mday : (1 ≤ tm.mday) × (tm.mday ≤ month_length (is_leap (tm.year - 70)) tm.mon)
  pub hour : tm.hour < 24
  pub min : tm.min < 60
  pub sec : tm.sec < 60

abbrev pub days : Tm → ℕ
days tm =
    days_before_year (tm.year - 70)
    + days_before_month (is_leap (tm.year - 70)) tm.mon
    + (tm.mday - 1)

leap_days : (n : ℕ) → n < 130 → is_leap n ≡ ((n + 2) % 4 == 0)
leap_days n h = ground arith

years_formula : (n : ℕ) → n < 131 → days_before_year n ≡ 365 * n + (n + 1) / 4
unfolding days_before_year
years_formula zero h = refl
years_formula (suc n) h =
    rw (leap_days n (omega arith)) (ground (arith, years_formula n (omega arith)))

-- A test that holds at every number below `n`.
holds_below : ℕ → (ℕ → Bool) → Bool
holds_below zero p = true
holds_below (suc n) p = p n && holds_below n p

holds_below-at : (n : ℕ) (p : ℕ → Bool) (x : ℕ) → holds_below n p ≡ true → x < n → p x ≡ true
unfolding holds_below
holds_below-at zero p x h lt = absurd (omega arith)
holds_below-at (suc n) p x h lt = ground (arith, holds_below-at n p x)

shortage : Bool → ℕ → ℕ
shortage leap m = if ltb 1 m && not leap then day else 0

months_checked :
    (leap : Bool)
    → holds_below 12 (λ m. day * days_before_month leap m + shortage leap m == get_or month m 0)
      ≡ true
unfolding holds_below days_before_month shortage
months_checked true = refl
months_checked false = refl

-- The table of the source, less the day that a common year lacks from March on.
months_formula :
    (leap : Bool) (m : ℕ)
    → m < 12
    → day * days_before_month leap m + shortage leap m ≡ get_or month m 0
months_formula leap m h = (==_iff _ _).0 (
    holds_below-at 12 (λ m. day * days_before_month leap m + shortage leap m == get_or month m 0) m
      (months_checked leap) h)

add_pos : (a b : ℕ) → pos a +ℤ pos b ≡ pos (a + b)
unfolding ◌+ℤ◌
add_pos a b = ground arith

sub_pos : (a b : ℕ) → b ≤ a → pos a -ℤ pos b ≡ pos (a - b)
unfolding ◌-ℤ◌
sub_pos a b h = ground arith

mul_pos : (a b : ℕ) → pos a *ℤ pos b ≡ pos (a * b)
unfolding ◌*ℤ◌
mul_pos a b = ground arith

quot_pos : (a n : ℕ) → quot (pos a) n ≡ pos (a / n)
unfolding quot
quot_pos a n = refl

rem_pos : (a n : ℕ) → rem (pos a) n ≡ pos (a % n)
unfolding rem
rem_pos a n = refl

leap_test : (n : ℕ) → n < 130 → is_zero (rem (pos (n + 2)) 4) ≡ is_leap n
unfolding is_zero
leap_test n h = rw rem_pos (sym (leap_days n h))

int32_pos : (n : ℕ) → n < 2 ^ 31 → int32 (pos n) ≡ pos n
unfolding int32
int32_pos n h = ground arith

-- The seconds of a date, counted out.
abbrev pub seconds : Tm → ℕ
seconds tm = day * days tm + hour * tm.hour + minute * tm.min + tm.sec

-- The result by the year, month and day parts.
total : Tm → ℕ → ℕ
total tm before =
    year * (tm.year - 70)
    + day * ((tm.year - 70 + 1) / 4)
    + before
    + day * (tm.mday - 1)
    + hour * tm.hour
    + minute * tm.min
    + tm.sec

total-seconds :
    (tm : Tm) (before : ℕ)
    → IsDate tm
    → before ≡ day * days_before_month (is_leap (tm.year - 70)) tm.mon
    → total tm before ≡ seconds tm
unfolding total
total-seconds tm before d e = omega (arith, years_formula (tm.year - 70) (omega arith))

year_length_checked :
    (leap : Bool)
    → holds_below 12 (λ m. leb (days_before_month leap m + month_length leap m) 366) ≡ true
unfolding holds_below days_before_month
year_length_checked true = refl
year_length_checked false = refl

year_length : (leap : Bool) (m : ℕ) → m < 12 → days_before_month leap m + month_length leap m ≤ 366
year_length leap m h = leb→le _ _ (
    holds_below-at 12 (λ m. leb (days_before_month leap m + month_length leap m) 366) m
      (year_length_checked leap) h)

-- Up to the end of 2037 a date stays more than a day below 2^31.
seconds_fit : (tm : Tm) → IsDate tm → tm.year < 138 → seconds tm + day < 2 ^ 31
seconds_fit tm d h = omega (
  arith,
  years_formula (tm.year - 70) (omega arith),
  year_length (is_leap (tm.year - 70)) tm.mon d.mon,
  d.mday.0,
  d.mday.1,
)

add32 : (a b : ℕ) → a + b < 2 ^ 31 → int32 (pos a +ℤ pos b) ≡ pos (a + b)
add32 a b h = rw (add_pos a b) (int32_pos (a + b) h)

-- The end of `kernel_mktime`, from the sum for the years and months on.
finish : (tm : Tm) (n : ℕ) → ℤ
finish tm n = int32 (
    int32 (
      int32 (int32 (pos n +ℤ pos day *ℤ (pos tm.mday -ℤ pos 1)) +ℤ pos (hour * tm.hour))
      +ℤ pos (minute * tm.min))
    +ℤ pos tm.sec)

finish_pos :
    (tm : Tm) (n : ℕ)
    → 1 ≤ tm.mday
    → n + day * (tm.mday - 1) + hour * tm.hour + minute * tm.min + tm.sec < 2 ^ 31
    → finish tm n ≡ pos (n + day * (tm.mday - 1) + hour * tm.hour + minute * tm.min + tm.sec)
unfolding finish
finish_pos tm n h small =
    rw
      (
        sub_pos tm.mday 1 h,
        mul_pos day (tm.mday - 1),
        add32 n (day * (tm.mday - 1)) (omega arith),
        add32 (n + day * (tm.mday - 1)) (hour * tm.hour) (omega arith),
        add32 (n + day * (tm.mday - 1) + hour * tm.hour) (minute * tm.min) (omega arith),
        add32 (n + day * (tm.mday - 1) + hour * tm.hour + minute * tm.min) tm.sec small,
      )
      refl

-- `kernel_mktime` of a date that exists, of the years 1970 to 2037, is the number of seconds since the
-- start of 1970, counted year by year and month by month by the Gregorian calendar: no sum leaves
-- the 32 bits of a `long`.
pub kernel_mktime-seconds :
    (tm : Tm) → IsDate tm → tm.year < 138 → kernel_mktime tm ≡ pos (seconds tm)
unfolding kernel_mktime total shortage finish
kernel_mktime-seconds tm d h =
    let a = tm.year - 70 in
    let leap = is_leap a in
    let months = months_formula leap tm.mon d.mon in
    let fits = seconds_fit tm d h in
    let m = get_or month tm.mon 0 in
    let n = year * a + day * ((a + 1) / 4) in
    let whole_sum = total-seconds tm (m - shortage leap tm.mon) d (omega (arith, months)) in
    let most : shortage leap tm.mon ≤ day = ground arith in
    rw
      (
        sub_pos tm.year 70 d.year.0,
        int32_pos a (omega arith),
        add32 a 1 (omega arith),
        quot_pos (a + 1) 4,
        mul_pos year a,
        mul_pos day ((a + 1) / 4),
        add32 (year * a) (day * ((a + 1) / 4)) (omega (arith, whole_sum, fits)),
        add32 n m (omega (arith, whole_sum, fits, months, most)),
        add32 a 2 (omega arith),
        leap_test a (omega arith),
      )
      (elim (Bool-cases (ltb 1 tm.mon && not leap)) [
        | inl short ↦
            let lack : shortage leap tm.mon ≡ day = rw short in
            rw
              (
                short,
                sub_pos (n + m) day (omega (arith, months, lack)),
                int32_pos (n + m - day) (omega (arith, whole_sum, fits, months, lack)),
              )
              (finish_pos tm (n + m - day) d.mday.0 (omega (arith, whole_sum, fits, months, lack))
                ∙ ap pos (omega (arith, whole_sum, months, lack)))
        | inr whole ↦
            let lack : shortage leap tm.mon ≡ 0 = rw whole in
            rw whole (
              finish_pos tm (n + m) d.mday.0 (omega (arith, whole_sum, fits, months, lack))
              ∙ ap pos (omega (arith, whole_sum, months, lack)))
      ])
