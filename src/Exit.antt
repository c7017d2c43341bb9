-- ===== src/Exit.antt =====
-- kernel/exit.c: `sys_waitpid`. The children of the caller are a list, along the links `p_osptr` from
-- `p_cptr` on; taking a child out of the task table (`release`) takes it out of the list.
pub mod Wait
pub mod Report
mod Tests
use linux.Base.{ℕ, ◌+◌, ◌*◌, Bool, true, false, not, ◌&&◌, ◌||◌, List, [], ◌∷◌, ◌==◌, if◌then◌else◌}
use linux.Base.Int.{ℤ, pos, negsuc}
use linux.Base.Bits.{bit_or}
use linux.Sched.{TaskState, running, interruptible, uninterruptible, zombie, stopped}

pub record Child : Type 0 where
  pub pid : ℕ
  pub pgrp : ℕ
  pub state : TaskState
  pub exit_code : ℕ
  pub utime : ℕ
  pub stime : ℕ

-- `current`: its group, its children, and the times of the children that it has waited for.
pub record Parent : Type 0 where
  pub pgrp : ℕ
  pub children : List Child
  pub cutime : ℕ
  pub cstime : ℕ

-- The tests before the `switch`.
unfoldable pub is_wanted : ℤ → ℕ → Child → Bool
is_wanted (pos pid) pgrp p = if pid == 0 then p.pgrp == pgrp else p.pid == pid
is_wanted (negsuc n) pgrp p = (n == 0) || (p.pgrp == n + 1)

-- What the `switch` does with a child: `done` is a return.
pub data Step : Type 0 where
  done_stopped done_zombie passed waiting : Step

-- `untraced` is the bit WUNTRACED of the options.
unfoldable pub on_child : Bool → Child → Step
on_child untraced p = go p.state
  where
    go : TaskState → Step
    go stopped = if not untraced || (p.exit_code == 0) then passed else done_stopped
    go zombie = done_zombie
    go running = waiting
    go interruptible = waiting
    go uninterruptible = waiting

-- The process number, and the status that is stored at `stat_addr`.
pub data Waited : Type 0 where
  reported : ℕ → ℕ → Parent → Waited
  zero_result : Waited
  sleeps : Waited
  echild : Waited

-- A child in front of those that the loop has gone on to.
unfoldable pub keep : Child → Waited → Waited
keep p (reported pid status c) = reported pid status (record c { children = p ∷ c.children })
keep p zero_result = zero_result
keep p sleeps = sleeps
keep p echild = echild

abbrev pub stopped_status : Child → ℕ
stopped_status p = bit_or (p.exit_code * 256) 0x7f

abbrev pub reaped : Child → List Child → Parent → Parent
reaped p rest c = record c {
  children = rest;
  cutime = c.cutime + p.utime;
  cstime = c.cstime + p.stime;
}

-- After the loop; `nohang` is the bit WNOHANG of the options.
unfoldable pub after_scan : Bool → Bool → Waited
after_scan nohang flag = if flag then (if nohang then zero_result else sleeps) else echild

-- What the loop does with a wanted child; `further` is what the rest of the loop returns.
unfoldable pub on_step : Step → Child → List Child → Parent → Waited → Waited
unfolding keep
on_step done_stopped p rest c further =
    reported p.pid (stopped_status p) (record c { children = record p { exit_code = 0 } ∷ rest })
on_step done_zombie p rest c further = reported p.pid p.exit_code (reaped p rest c)
on_step passed p rest c further = keep p further
on_step waiting p rest c further = keep p further

abbrev pub is_waiting : Step → Bool
is_waiting waiting = true
is_waiting _ = false

-- The loop over the children.
unfoldable pub scan_children : ℤ → Bool → Bool → Bool → Parent → List Child → Waited
unfolding is_wanted on_child on_step after_scan
scan_children pid nohang untraced flag c [] = after_scan nohang flag
scan_children pid nohang untraced flag c (p ∷ rest) =
    let wanted = is_wanted pid c.pgrp p in
    let step = on_child untraced p in
    let flag' = flag || (wanted && is_waiting step) in
    let further = scan_children pid nohang untraced flag' c rest in
    if wanted then on_step step p rest c further else keep p further

-- `sys_waitpid` up to the sleep.
unfoldable pub sys_waitpid : ℤ → Bool → Bool → Parent → Waited
unfolding scan_children
sys_waitpid pid nohang untraced c = scan_children pid nohang untraced false c c.children
