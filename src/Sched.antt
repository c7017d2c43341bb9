-- ===== src/Sched.antt =====
-- kernel/sched.c: `schedule`, with the fields of `struct task_struct` that it reads and writes.
-- The task table `task[NR_TASKS]` is a list of 64 entries, `none` for a null pointer.
pub mod Pick
pub mod Wake
pub mod Choose
pub mod Nice
mod Tests
use linux.Base.{
  ℕ, zero, suc, ◌+◌, ◌*◌, Bool, true, false, not, ◌&&◌, ◌||◌, Option, none, some, List, [], ◌∷◌,
  map, get_or, ltb, ◌==◌, if◌then◌else◌,
}
use linux.Base.Int.{ℤ, pos, negsuc, ◌+ℤ◌, ◌-ℤ◌, quot, shr_one, ltb_ℤ, pos_part}
use linux.Base.Bits.{bit_and, bit_or, bit_not, one_shl}

-- The values of `state` (TASK_RUNNING, ...).
pub data TaskState : Type 0 where
  running interruptible uninterruptible zombie stopped : TaskState

abbrev pub is_running : TaskState → Bool
is_running running = true
is_running _ = false

abbrev pub is_interruptible : TaskState → Bool
is_interruptible interruptible = true
is_interruptible _ = false

pub record Task : Type 0 where
  pub state : TaskState
  pub counter : ℤ
  pub priority : ℤ
  pub signal : ℕ
  pub blocked : ℕ
  pub timeout : ℕ
  pub alarm : ℕ

abbrev pub Table : Type 0
Table = List (Option Task)

abbrev pub nr_tasks : ℕ
nr_tasks = 64

-- SIGALRM is 14.
abbrev pub alarm_mask : ℕ
alarm_mask = one_shl 13

-- `(*p)->signal & ~(*p)->blocked`
abbrev pub pending : Task → ℕ
pending t = bit_and t.signal (bit_not 32 t.blocked)

-- `if (timeout && timeout < jiffies) { timeout = 0; if (interruptible) state = running; }`
pub check_timeout : ℕ → Task → Task
check_timeout jiffies t =
    if not (t.timeout == 0) && ltb t.timeout jiffies
    then record t { timeout = 0; state = if is_interruptible t.state then running else t.state }
    else t

-- `if (alarm && alarm < jiffies) { signal |= 1<<(SIGALRM-1); alarm = 0; }`
pub check_alarm : ℕ → Task → Task
check_alarm jiffies t =
    if not (t.alarm == 0) && ltb t.alarm jiffies
    then record t { signal = bit_or t.signal alarm_mask; alarm = 0 }
    else t

-- `if ((signal & ~blocked) && state == TASK_INTERRUPTIBLE) state = TASK_RUNNING;`
pub check_signal : Task → Task
check_signal t =
    if not (pending t == 0) && is_interruptible t.state then record t { state = running } else t

unfoldable pub check_task : ℕ → Task → Task
unfolding check_timeout check_alarm check_signal
check_task jiffies t = check_signal (check_alarm jiffies (check_timeout jiffies t))

abbrev pub map_entry : (Task → Task) → Option Task → Option Task
map_entry f none = none
map_entry f (some t) = some (f t)

-- The loops of `schedule` from LAST_TASK down to, and without, FIRST_TASK.
abbrev pub map_tasks : (Task → Task) → Table → Table
map_tasks f [] = []
map_tasks f (idle ∷ ts) = idle ∷ map (map_entry f) ts

-- `counter = (counter >> 1) + priority`
unfoldable pub recharge_task : Task → Task
recharge_task t = record t { counter = shr_one t.counter +ℤ t.priority }

abbrev pub task_at : Table → ℕ → Option Task
task_at ts i = get_or ts i none

-- The body of the selection loop, at the entry `task[i]`: it updates `c` and `next`.
pub consider : Option Task → ℕ → ℤ × ℕ → ℤ × ℕ
consider none i acc = acc
consider (some t) i (c, next) =
    if is_running t.state && ltb_ℤ c t.counter then (t.counter, i) else (c, next)

-- `while (--i)`: the entries `task[k]` down to `task[1]`.
unfoldable pub pick : Table → ℕ → ℤ × ℕ → ℤ × ℕ
unfolding consider
pick ts zero acc = acc
pick ts (suc k) acc = pick ts k (consider (task_at ts (suc k)) (suc k) acc)

abbrev pub is_zero : ℤ → Bool
is_zero (pos n) = n == 0
is_zero (negsuc n) = false

-- `while (1) { ...; if (c) break; ... }`, on fuel; `none` means that the fuel ran out. The result
-- is the entry to switch to, with the table as the loop leaves it.
unfoldable pub choose : ℕ → Table → Option (ℕ × Table)
unfolding pick recharge_task
choose zero ts = none
choose (suc fuel) ts =
    let (c, next) = pick ts 63 (negsuc 0, 0) in
    let again = choose fuel (map_tasks recharge_task ts) in
    if not (is_zero c) then some (next, ts) else again

-- `schedule` at the time `jiffies`: the entry that `switch_to` is called with.
unfoldable pub schedule : ℕ → ℕ → Table → Option (ℕ × Table)
unfolding choose check_task
schedule fuel jiffies ts = choose fuel (map_tasks (check_task jiffies) ts)

-- `sys_nice`, with `suser()` given: -EPERM is `none`.
unfoldable pub sys_nice : Bool → ℤ → Task → Option Task
sys_nice suser increment t =
    if ltb_ℤ increment (pos 0) && not suser
    then none
    else if ltb_ℤ t.priority increment
    then some (record t { priority = t.priority -ℤ (t.priority -ℤ pos 1) })
    else some (record t { priority = t.priority -ℤ increment })
