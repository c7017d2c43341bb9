-- ===== src/Sched/Wake.antt =====
-- The first loop of `schedule`: timeouts, alarms and the waking of interruptible sleepers.
use linux.Base.{ℕ, ◌≤◌, ◌≡◌, Bool, true, arith, ◌&&◌, ◌||◌, not, ◌==◌, ltb, if◌then◌else◌}
use linux.Base.Bits.{
  bit, one_shl, bit_and, bit_or, bit_not, ones, bit-bit_and, bit-bit_or, bit-bit_not,
  bit-one_shl_self, bit_zero, bit-le,
}
use linux.Sched.{Task, running, interruptible, is_interruptible, check_alarm, check_task}

-- `timeout` or `alarm` is set and lies before `jiffies`.
abbrev pub expired : ℕ → ℕ → Bool
expired jiffies at = not (at == 0) && ltb at jiffies

-- The signals of a task, with SIGALRM (14) for an alarm that has passed.
abbrev pub signals_then : ℕ → Task → ℕ
signals_then jiffies t = if expired jiffies t.alarm then bit_or t.signal (one_shl 13) else t.signal

-- A task is runnable after the loop exactly when it was, or when it slept interruptibly and its
-- timeout has passed or a signal that it does not block is set, bit 13 (SIGALRM) of an alarm that has
-- passed included. All other states stay as they are.
pub check_task-state :
    (jiffies : ℕ) (t : Task)
    → (check_task jiffies t).state ≡ (
        if is_interruptible t.state
          && (expired jiffies t.timeout
              || not (bit_and (signals_then jiffies t) (bit_not 32 t.blocked) == 0))
        then running
        else t.state)
unfolding check_task check_alarm
check_task-state jiffies t = ground arith

-- The timers that have passed are cleared, the others kept.
pub check_task-timers :
    (jiffies : ℕ) (t : Task)
    → ((check_task jiffies t).timeout ≡ (if expired jiffies t.timeout then 0 else t.timeout))
      × ((check_task jiffies t).alarm ≡ (if expired jiffies t.alarm then 0 else t.alarm))
unfolding check_task
check_task-timers jiffies t = ground arith

alarm_signalled :
    (jiffies : ℕ) (t : Task)
    → expired jiffies t.alarm ≡ true
    → t.blocked ≤ ones 32
    → bit t.blocked 13 ≡ 0
    → bit (bit_and (signals_then jiffies t) (bit_not 32 t.blocked)) 13 ≡ 1
alarm_signalled jiffies t e fits b = rw e (
    omega (
      arith,
      bit-bit_and (bit_or t.signal (one_shl 13)) (bit_not 32 t.blocked) 13,
      bit-bit_or t.signal (one_shl 13) 13,
      bit-bit_not 32 t.blocked 13 fits (omega arith),
      bit-one_shl_self 13,
      bit-le t.signal 13,
    ))

-- An alarm that has passed wakes a task that sleeps interruptibly and does not block SIGALRM.
pub alarm_wakes :
    (jiffies : ℕ) (t : Task)
    → t.state ≡ interruptible
    → expired jiffies t.alarm ≡ true
    → t.blocked ≤ ones 32
    → bit t.blocked 13 ≡ 0
    → (check_task jiffies t).state ≡ running
alarm_wakes jiffies t s e fits b =
    ground (arith, check_task-state jiffies t, alarm_signalled jiffies t e fits b, bit_zero 13)
