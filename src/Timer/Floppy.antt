-- ===== src/Timer/Floppy.antt =====
-- kernel/sched.c: the timers of the four floppy motors. `current_DOR` is an `unsigned char`; bit
-- 4 + n of it is the motor of drive n.
use linux.Base.{
  ℕ, zero, suc, ◌+◌, ◌-◌, ◌/◌, ◌≡◌, Bool, false, not, Option, none, some, List, [], ◌∷◌, get_or,
  set, ltb, ◌==◌, if◌then◌else◌, arith,
}
use linux.Base.Bits.{bit, bit_and, bit_or, bit_not, one_shl}
use linux.Base.Masks.{bit-set_bit}

pub record Motors : Type 0 where
  pub mon_timer : List ℕ
  pub moff_timer : List ℕ
  pub current_dor : ℕ

-- The value that `current_DOR` is to get, before it is masked for a selected drive.
abbrev pub with_motor : ℕ → Motors → ℕ
with_motor nr m = bit_or m.current_dor (one_shl (nr + 4))

abbrev pub wanted_dor : Bool → ℕ → Motors → ℕ
wanted_dor selected nr m =
    if selected then with_motor nr m else bit_or (bit_and (with_motor nr m) 0xFC) nr

-- `HZ/2` when a motor is started, 2 at least when only the drive changes.
abbrev pub new_mon : ℕ → ℕ → Motors → ℕ
new_mon mask nr m =
    if not (mask / 16 == m.current_dor / 16)
    then 50
    else if ltb (get_or m.mon_timer nr 0) 2
    then 2
    else get_or m.mon_timer nr 0

-- `ticks_to_floppy_on`: the ticks to wait, and the timers; `none` is a panic.
unfoldable ticks_to_floppy_on : Bool → ℕ → Motors → Option (ℕ × Motors)
ticks_to_floppy_on selected nr m =
    let mask = wanted_dor selected nr m in
    let off = set m.moff_timer nr 10000 in
    if ltb 3 nr
    then none
    else if mask == m.current_dor
    then some (get_or m.mon_timer nr 0, record m { moff_timer = off })
    else some (
      new_mon mask nr m,
      record {
        mon_timer = set m.mon_timer nr (new_mon mask nr m);
        moff_timer = off;
        current_dor = mask;
      },
    )

-- `floppy_off`
unfoldable floppy_off : ℕ → Motors → Motors
floppy_off nr m = record m { moff_timer = set m.moff_timer nr 300 }

-- The body of the loop of `do_floppy_timer` at drive `i`; true if its sleepers are woken.
motor_tick : ℕ → Motors → Motors × Bool
motor_tick i m =
    let mon = get_or m.mon_timer i 0 in
    let moff = get_or m.moff_timer i 0 in
    if bit_and (one_shl (i + 4)) m.current_dor == 0
    then (m, false)
    else if not (mon == 0)
    then (record m { mon_timer = set m.mon_timer i (mon - 1) }, mon == 1)
    else if moff == 0
    then (record m { current_dor = bit_and m.current_dor (bit_not 8 (one_shl (i + 4))) }, false)
    else (record m { moff_timer = set m.moff_timer i (moff - 1) }, false)

-- `do_floppy_timer`: the `k` drives from `i` on, and those whose sleepers are woken.
floppy_ticks : ℕ → ℕ → Motors → Motors × List ℕ
unfolding motor_tick
floppy_ticks zero i m = (m, [])
floppy_ticks (suc k) i m =
    let (m', woken) = motor_tick i m in
    let (out, others) = floppy_ticks k (i + 1) m' in (out, if woken then i ∷ others else others)

unfoldable do_floppy_timer : Motors → Motors × List ℕ
unfolding floppy_ticks
do_floppy_timer m = floppy_ticks 4 0 m

-- A motor whose time to be switched off has not come is left on by the tick of its drive.
motor_tick-stays_on :
    (i : ℕ) (m : Motors)
    → (get_or m.moff_timer i 0 == 0) ≡ false
    → (motor_tick i m).0.current_dor ≡ m.current_dor
unfolding motor_tick
motor_tick-stays_on i m h = ground arith

-- With a drive selected, the motor that was asked for is on.
with_motor-on : (nr : ℕ) (m : Motors) → bit (with_motor nr m) (nr + 4) ≡ 1
with_motor-on nr m = ground (arith, bit-set_bit m.current_dor (nr + 4) (nr + 4))
