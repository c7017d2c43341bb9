-- ===== src/Signal.antt =====
-- kernel/exit.c: `send_sig`, `kill_pg` and `kill_proc`; kernel/signal.c: the masks and the handlers.
-- A task is known by its entry in the task table; bit n - 1 of `signal` stands for the signal n. The
-- call of `schedule` by a traced process that signals itself is left out.
pub mod Stop
pub mod Handlers
mod Tests
use linux.Base.{
  ℕ, zero, suc, ◌+◌, ◌-◌, Bool, true, false, not, ◌&&◌, ◌||◌, Option, none, some, List, get_or, set,
  ltb, leb, ◌==◌, if◌then◌else◌,
}
use linux.Base.Int.{ℤ, pos, negsuc}
use linux.Base.Bits.{bit_and, bit_or, bit_not, one_shl}
use linux.Sched.{TaskState, running, interruptible, stopped, is_running, is_interruptible}

abbrev pub sigkill : ℕ
sigkill = 9

abbrev pub sigcont : ℕ
sigcont = 18

abbrev pub sigstop : ℕ
sigstop = 19

abbrev pub sigttou : ℕ
sigttou = 22

-- The fields of `struct task_struct` that signals are about. `ptraced` is PF_PTRACED.
pub record Receiver : Type 0 where
  pub pid : ℕ
  pub pgrp : ℕ
  pub euid : ℕ
  pub state : TaskState
  pub signal : ℕ
  pub exit_code : ℕ
  pub ptraced : Bool
  pub parent : ℕ

abbrev pub Receivers : Type 0
Receivers = List (Option Receiver)

abbrev pub is_stopped : TaskState → Bool
is_stopped stopped = true
is_stopped _ = false

-- The bits of SIGSTOP, SIGTSTP, SIGTTIN and SIGTTOU.
abbrev pub stop_mask : ℕ
stop_mask = bit_or (one_shl 18) (bit_or (one_shl 19) (bit_or (one_shl 20) (one_shl 21)))

-- `if ((sig == SIGKILL) || (sig == SIGCONT))`
pub resume : ℕ → Receiver → Receiver
resume sig t =
    if sig == sigkill || sig == sigcont
    then record t {
      state = if is_stopped t.state then running else t.state;
      exit_code = 0;
      signal = bit_and t.signal (bit_not 32 stop_mask);
    }
    else t

-- `if ((sig >= SIGSTOP) && (sig <= SIGTTOU))`
pub forget_cont : ℕ → Receiver → Receiver
forget_cont sig t =
    if leb sigstop sig && leb sig sigttou
    then record t { signal = bit_and t.signal (bit_not 32 (one_shl (sigcont - 1))) }
    else t

abbrev pub raise : ℕ → Receiver → Receiver
raise sig t = record t { signal = bit_or t.signal (one_shl (sig - 1)) }

-- `if (p->flags & PF_PTRACED)`, on the task.
abbrev pub trace : ℕ → Receiver → Receiver
trace sig t =
    if t.ptraced
    then record t {
      exit_code = sig;
      state = if is_interruptible t.state || is_running t.state then stopped else t.state;
    }
    else t

unfoldable pub deliver : ℕ → Receiver → Receiver
unfolding resume forget_cont
deliver sig t = trace sig (raise sig (forget_cont sig (resume sig t)))

abbrev pub awake : Receiver → Receiver
awake p = record p { state = if is_interruptible p.state then running else p.state }

-- The parent of a traced task is woken.
abbrev pub wake_parent : Receiver → Receivers → Receivers
wake_parent t ts =
    if t.ptraced
    then elim (get_or ts t.parent none) [ none ↦ ts | some p ↦ set ts t.parent (some (awake p)) ]
    else ts

pub data Sent : Type 0 where
  einval : Sent
  eperm : Sent
  esrch : Sent
  undefined : Sent
  sent : Receivers → Sent

-- `send_sig` to the task `t` at the entry `i`; `euid` is the caller's.
unfoldable pub send_sig : ℤ → ℕ → Receiver → Bool → ℕ → Receivers → Sent
unfolding deliver
send_sig (negsuc n) i t priv euid ts = einval
send_sig (pos sig) i t priv euid ts =
    if ltb 32 sig
    then einval
    else if not priv && not (euid == t.euid) && not (euid == 0)
    then eperm
    else if sig == 0
    then sent ts
    else sent (set (wake_parent t ts) i (some (deliver sig t)))

-- The state of the loop of `kill_pg`: `found`, `retval` as a result, and the table.
abbrev pub keep_going : Bool → Sent → Receivers → Sent → Bool × Sent × Receivers
keep_going found retval ts (sent ts') = (true, retval, ts')
keep_going found retval ts einval = (found, einval, ts)
keep_going found retval ts eperm = (found, eperm, ts)
keep_going found retval ts esrch = (found, retval, ts)
keep_going found retval ts undefined = (found, retval, ts)

-- The loop at the entries `k` down to 1; a null entry is followed without a test.
kill_pg_from : ℕ → ℕ → ℤ → Bool → ℕ → Bool × Sent × Receivers → Sent
unfolding send_sig
kill_pg_from zero pgrp sig priv euid (found, retval, ts) = if found then sent ts else retval
kill_pg_from (suc k) pgrp sig priv euid (found, retval, ts) = elim (get_or ts (suc k) none) [
  | none ↦ undefined
  | some t ↦ kill_pg_from k pgrp sig priv euid (
      if t.pgrp == pgrp
      then keep_going found retval ts (send_sig sig (suc k) t priv euid ts)
      else (found, retval, ts))
]

-- `kill_pg` with the signal in range. A signal of 0 is sent to no one, and counts as found.
unfoldable kill_pg : ℕ → ℤ → Bool → ℕ → Receivers → Sent
unfolding kill_pg_from
kill_pg pgrp (negsuc n) priv euid ts = einval
kill_pg pgrp (pos sig) priv euid ts =
    if ltb 32 sig || (pgrp == 0)
    then einval
    else kill_pg_from 63 pgrp (pos sig) (priv || (sig == 0)) euid (false, esrch, ts)

kill_proc_from : ℕ → ℕ → ℤ → Bool → ℕ → Receivers → Sent
unfolding send_sig
kill_proc_from zero pid sig priv euid ts = esrch
kill_proc_from (suc k) pid sig priv euid ts =
    let further = kill_proc_from k pid sig priv euid ts in
    elim (get_or ts (suc k) none) [
      | none ↦ undefined
      | some t ↦ if t.pid == pid then send_sig sig (suc k) t priv euid ts else further
    ]

-- `kill_proc`. A signal of 0 asks only whether the task is there.
unfoldable kill_proc : ℕ → ℤ → Bool → ℕ → Receivers → Sent
unfolding kill_proc_from
kill_proc pid (negsuc n) priv euid ts = einval
kill_proc pid (pos sig) priv euid ts =
    if ltb 32 sig then einval else kill_proc_from 63 pid (pos sig) (priv || (sig == 0)) euid ts

-- `sys_ssetmask`: SIGKILL and SIGSTOP cannot be blocked.
unfoldable pub sys_ssetmask : ℕ → ℕ
sys_ssetmask newmask =
    bit_and (bit_and newmask (bit_not 32 (one_shl (sigkill - 1))))
      (bit_not 32 (one_shl (sigstop - 1)))

-- `sys_sigpending`: the word that is stored.
unfoldable sys_sigpending : ℕ → ℕ → ℕ
sys_sigpending blocked signal = bit_and blocked signal
