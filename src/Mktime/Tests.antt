-- ===== src/Mktime/Tests.antt =====
-- Tests of `kernel_mktime`.
use linux.Base.{◌≡◌, arith}
use linux.Base.Int.{pos}
use linux.Mktime.{Tm, kernel_mktime}
use linux.Mktime.Calendar.{IsDate, seconds, kernel_mktime-seconds}

-- The end of February of the leap year 1992.
abbrev leap_day : Tm
leap_day = record { sec = 59; min = 59; hour = 23; mday = 29; mon = 1; year = 92 }

leap_day-IsDate : IsDate leap_day
leap_day-IsDate = record {
  year = (omega arith, omega arith);
  mon = omega arith;
  mday = (omega arith, omega arith);
  hour = omega arith;
  min = omega arith;
  sec = omega arith;
}

kernel_mktime-seconds_example : kernel_mktime leap_day ≡ pos (seconds leap_day)
kernel_mktime-seconds_example = kernel_mktime-seconds leap_day leap_day-IsDate (omega arith)
