-- ===== src/Sys/Time.antt =====
-- kernel/sys.c: `sys_gettimeofday`, `sys_settimeofday`, `adjust_clock`, `sys_stime`, `sys_time` and
-- `sys_times`, with CURRENT_TIME of include/linux/sched.h.
use linux.Base.{
  ℕ, ◌+◌, ◌-◌, ◌*◌, ◌/◌, ◌%◌, ◌^◌, ◌≤◌, ◌<◌, ◌≡◌, refl, ap₂, ltb, Bool, true, false, not, Option,
  some, none, if◌then◌else◌, arith,
}
use linux.Sys.Limits.{hz, ct_to_secs, ct_to_usecs, Times}

-- `jiffies`, `startup_time` and `jiffies_offset` are 32-bit patterns; the offset may be negative.
-- `firsttime` is the static variable of `sys_settimeofday`.
pub record Clock : Type 0 where
  pub jiffies : ℕ
  pub startup_time : ℕ
  pub jiffies_offset : ℕ
  pub minuteswest : ℕ
  pub dsttime : ℕ
  pub firsttime : Bool

abbrev pub word : ℕ
word = 2 ^ 32

-- `jiffies + jiffies_offset`
abbrev pub ticks : Clock → ℕ
ticks c = (c.jiffies + c.jiffies_offset) % word

-- CURRENT_TIME; `sys_time` returns it.
unfoldable pub sys_time : Clock → ℕ
sys_time c = (c.startup_time + ticks c / hz) % word

-- `sys_times` copies the ticks of the process out and returns `jiffies`.
unfoldable pub sys_times : Times → Clock → Times × ℕ
sys_times t c = (t, c.jiffies)

-- The seconds and microseconds that `sys_gettimeofday` stores.
unfoldable pub sys_gettimeofday : Clock → ℕ × ℕ
sys_gettimeofday c = ((c.startup_time + ct_to_secs (ticks c)) % word, ct_to_usecs (ticks c))

-- `startup_time = get_fs_long(tptr) - jiffies/HZ`; `none` is -EPERM.
unfoldable pub sys_stime : Bool → ℕ → Clock → Option Clock
sys_stime suser t c =
    if not suser
    then none
    else some (record c { startup_time = (t + word - c.jiffies / hz) % word; jiffies_offset = 0 })

-- `tz_minuteswest` is an `int` pattern; the product wraps.
unfoldable pub adjust_clock : Clock → Clock
adjust_clock c = record c { startup_time = (c.startup_time + c.minuteswest * 60) % word }

-- The part on the time zone; `no_time` says that `tv` is null.
set_zone : Bool → Option (ℕ × ℕ) → Clock → Clock
unfolding adjust_clock
set_zone no_time none c = c
set_zone no_time (some (west, dst)) c =
    let c' = record c { minuteswest = west; dsttime = dst } in
    if c.firsttime
    then (if no_time
        then adjust_clock (record c' { firsttime = false })
        else record c' { firsttime = false })
    else c'

-- The part on the time, for `usec` a number of microseconds that is not negative and small enough
-- for `usec * HZ` to stay in an `int`.
set_time : Option (ℕ × ℕ) → Clock → Clock
set_time none c = c
set_time (some (sec, usec)) c = record c {
  startup_time = (sec + word - c.jiffies / hz) % word;
  jiffies_offset = (usec * hz / 1000000 + word - c.jiffies % hz) % word;
}

is_none : Option (ℕ × ℕ) → Bool
is_none none = true
is_none (some x) = false

-- `none` is -EPERM.
unfoldable pub sys_settimeofday : Bool → Option (ℕ × ℕ) → Option (ℕ × ℕ) → Clock → Option Clock
unfolding set_zone set_time is_none
sys_settimeofday suser tv tz c =
    if not suser then none else some (set_time tv (set_zone (is_none tv) tz c))

jiffies-set_zone :
    (b : Bool) (tz : Option (ℕ × ℕ)) (c : Clock) → (set_zone b tz c).jiffies ≡ c.jiffies
unfolding set_zone
jiffies-set_zone b none c = refl
jiffies-set_zone b (some (west, dst)) c = ground arith

-- The offset makes the ticks since the last full second those of the microseconds.
ticks_of :
    (j t : ℕ) → j + hz ≤ word → t < hz → (j + (t + word - j % hz) % word) % word ≡ j / hz * hz + t
ticks_of j t hj ht =
    let back : (t + word - j % hz) % word + j % hz ≡ (if ltb t (j % hz) then t + word else t) =
      ground arith in
    ground arith

read_back :
    (sec usec j : ℕ)
    → sec < word
    → usec < 1000000
    → j + hz ≤ word
    → let n = (j + (usec * hz / 1000000 + word - j % hz) % word) % word in
      (((sec + word - j / hz) % word + n / hz) % word ≡ sec)
      × (n % hz * 1000000 / hz ≡ usec / 10000 * 10000)
read_back sec usec j hs hu hj =
    let e = ticks_of j (usec * hz / 1000000) hj (omega arith) in rw e (ground arith, omega arith)

-- What root sets with `sys_settimeofday`, with or without a time zone, `sys_gettimeofday` at the same
-- tick reads back: the seconds exactly, the microseconds rounded down to a tick of 10000, unless
-- `jiffies` is in its last second before it wraps.
pub gettimeofday-settimeofday :
    (sec usec : ℕ) (tz : Option (ℕ × ℕ)) (c : Clock)
    → sec < word
    → usec < 1000000
    → c.jiffies + hz ≤ word
    → (c' : Clock) × (sys_settimeofday true (some (sec, usec)) tz c ≡ some c')
      × (sys_gettimeofday c' ≡ (sec, usec / 10000 * 10000))
unfolding sys_settimeofday sys_gettimeofday
gettimeofday-settimeofday sec usec tz c hs hu hj =
    let r = read_back sec usec c.jiffies hs hu hj in
    (
      set_time (some (sec, usec)) (set_zone false tz c),
      refl,
      rw (jiffies-set_zone false tz c) (ap₂ (λ x y. (x, y)) r.0 r.1),
    )
