-- ===== src/Timer.antt =====
-- kernel/sched.c: `add_timer`, `do_timer` with its two kinds of timers, and `sys_alarm`.
-- The chain that starts at `next_timer` is a list: `add_timer` swaps the contents of two slots and
-- never their order, so the list of contents says all. A function pointer is a number, 0 for NULL.
pub mod Add
pub mod Expire
pub mod Floppy
pub mod Table
mod Tests
use linux.Base.{
  ℕ, zero, suc, ◌+◌, ◌-◌, ◌*◌, ◌/◌, ◌^◌, ◌%◌, Bool, true, false, not, List, [], ◌∷◌, Option, none,
  some, length, ltb, leb, ◌==◌, if◌then◌else◌, get_or,
}
use linux.Base.Int.{ℤ, pos, negsuc, ◌-ℤ◌, ltb_ℤ, leb_ℤ, quot}
use linux.Base.Bits.{bit_and, bit_not, one_shl}

-- A used slot of `timer_list`.
pub record Timer : Type 0 where
  pub delta : ℤ
  pub fn : ℕ

abbrev pub time_requests : ℕ
time_requests = 64

-- `while (p->next && p->next->jiffies < p->jiffies)`: the new contents sink down the chain.
unfoldable pub sink : Timer → List Timer → List Timer
sink p [] = p ∷ []
sink p (n ∷ rest) =
    if ltb_ℤ n.delta p.delta
    then n ∷ sink (record p { delta = p.delta -ℤ n.delta }) rest
    else p ∷ n ∷ rest

-- What `add_timer` does: nothing, a call at once, a new chain, or a panic for want of a slot.
pub data Added : Type 0 where
  ignored : Added
  called : ℕ → Added
  queued : List Timer → Added
  panic : Added

unfoldable pub add_timer : ℤ → ℕ → List Timer → Added
unfolding sink
add_timer jiffies fn chain =
    if fn == 0
    then ignored
    else if leb_ℤ jiffies (pos 0)
    then called fn
    else if leb time_requests (length chain)
    then panic
    else queued (sink (record { delta = jiffies; fn = fn }) chain)

-- The part of `do_timer` on `next_timer`. `call` is what the timer's function does to the chain.
module _ (call : ℕ → List Timer → List Timer) where
  -- `while (next_timer && next_timer->jiffies <= 0)`, on fuel; `none` means that it ran out.
  unfoldable pub expire : ℕ → List Timer → Option (List Timer)
  expire zero chain = none
  expire (suc fuel) [] = some []
  expire (suc fuel) (t ∷ rest) =
      let next = expire fuel (call t.fn rest) in
      if leb_ℤ t.delta (pos 0) then next else some (t ∷ rest)

  unfoldable pub tick : ℕ → List Timer → Option (List Timer)
  unfolding expire
  tick fuel [] = some []
  tick fuel (t ∷ rest) = expire fuel (record t { delta = t.delta -ℤ pos 1 } ∷ rest)

-- `timer_active` and the `expires` fields of `timer_table[32]`.
pub record TimerTable : Type 0 where
  pub active : ℕ
  pub expires : List ℕ

-- The loop of `do_timer` over `timer_table`, at the entries from `i` on. `call` is what the function
-- of an entry does to the table; the loop goes on with the table that it leaves. The numbers of the
-- entries whose functions have run are returned too, in order.
unfoldable pub run_table :
    (ℕ → TimerTable → TimerTable) → ℕ → ℕ → ℕ → TimerTable → TimerTable × List ℕ
run_table call zero i jiffies st = (st, [])
run_table call (suc k) i jiffies st =
    let idle = run_table call k (i + 1) jiffies st in
    let due =
      run_table call k (i + 1) jiffies
        (call i (record st { active = bit_and st.active (bit_not 32 (one_shl i)) })) in
    if ltb st.active (one_shl i)
    then (st, [])
    else if bit_and st.active (one_shl i) == 0
    then idle
    else if ltb jiffies (get_or st.expires i 0)
    then idle
    else (due.0, i ∷ due.1)

-- `sys_alarm`, with the `alarm` field and `jiffies`: the new field and the result. `jiffies` is
-- unsigned, and so is the difference; a task that has no alarm set has field 0.
unfoldable pub sys_alarm : ℤ → ℕ → ℕ → ℕ × ℕ
sys_alarm seconds jiffies alarm = (
  (if ltb_ℤ (pos 0) seconds then (jiffies + 100 * pos_of seconds) % 2 ^ 32 else 0),
  (if alarm == 0 then 0 else (alarm + 2 ^ 32 - jiffies) % 2 ^ 32 / 100),
)
  where
    pos_of : ℤ → ℕ
    pos_of (pos n) = n
    pos_of (negsuc n) = 0
