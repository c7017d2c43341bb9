-- ===== src/Sched/Tests.antt =====
-- Tests of kernel/sched.c on tables with one task besides the idle one.
use linux.Base.{ℕ, zero, suc, ◌<◌, ◌≡◌, refl, none, some, [], ◌∷◌, arith}
use linux.Base.Int.{pos}
use linux.Base.Bits.{bit_not, one_shl}
use linux.Sched.{
  Task, Table, running, interruptible, task_at, map_tasks, check_task, choose, schedule,
}
use linux.Sched.Choose.{IsValid, Chosen, schedule_lem}
use linux.Sched.Wake.{check_task-state, check_task-timers}
use linux.Sched.Nice.{IsStuck, choose-IsStuck}

abbrev worker : Task
worker = record {
  state = running;
  counter = pos 0;
  priority = pos 15;
  signal = 0;
  blocked = 0;
  timeout = 0;
  alarm = 0;
}

abbrev sleeper : Task
sleeper = record worker { state = interruptible; alarm = 40 }

abbrev two : Table
two = some worker ∷ some worker ∷ []

two-IsValid : IsValid two
two-IsValid zero t h e = absurd (omega arith)
two-IsValid (suc zero) t h e = ground arith
two-IsValid (suc (suc i)) t h e = cc

schedule_lem_example :
    (next : ℕ) × (ts' : Table) × (schedule 2 100 two ≡ some (next, ts'))
    × Chosen (map_tasks (check_task 100) two) next ts'
schedule_lem_example = schedule_lem 100 two two-IsValid

check_task-state_example : (check_task 100 sleeper).state ≡ running
unfolding check_task one_shl bit_not
check_task-state_example = check_task-state 100 sleeper

check_task-timers_example :
    ((check_task 100 sleeper).timeout ≡ 0) × ((check_task 100 sleeper).alarm ≡ 0)
check_task-timers_example = check_task-timers 100 sleeper

abbrev tired : Task
tired = record worker { priority = pos 0 }

abbrev stuck : Table
stuck = some worker ∷ some tired ∷ []

stuck-spent :
    (i : ℕ) (t : Task)
    → 0 < i
    → task_at stuck i ≡ some t
    → t.state ≡ running
    → (t.counter ≡ pos 0) × (t.priority ≡ pos 0)
stuck-spent zero t h e r = absurd (omega arith)
stuck-spent (suc zero) t h e r = ground arith
stuck-spent (suc (suc i)) t h e r = cc

stuck-IsStuck : IsStuck stuck
stuck-IsStuck = record {
  entry = 1;
  task = tired;
  in_table = (omega arith, omega arith);
  at_entry = refl;
  runnable = refl;
  spent = stuck-spent;
}

choose-IsStuck_example : choose 1000 stuck ≡ none
choose-IsStuck_example = choose-IsStuck 1000 stuck stuck-IsStuck
