-- ===== src/Exit/Tests.antt =====
-- kernel/exit.c: runs of `sys_waitpid` with two children.
use linux.Base.{◌≡◌, refl, true, false, [], ◌∷◌}
use linux.Base.Int.{pos, negsuc}
use linux.Sched.{stopped, running, zombie}
use linux.Exit.{Child, Parent, sys_waitpid, echild}
use linux.Exit.Wait.{AllStopped, sys_waitpid-stopped}
use linux.Exit.Report.{Outcome, sys_waitpid-Outcome}

abbrev sleeper : Child
sleeper = record { pid = 7; pgrp = 3; state = running; exit_code = 0; utime = 1; stime = 1 }

abbrev dead : Child
dead = record { pid = 8; pgrp = 3; state = zombie; exit_code = 256; utime = 5; stime = 2 }

abbrev halted : Child
halted = record { pid = 9; pgrp = 3; state = stopped; exit_code = 19; utime = 0; stime = 0 }

abbrev two : Parent
two = record { pgrp = 3; children = sleeper ∷ dead ∷ []; cutime = 0; cstime = 0 }

abbrev with_halted : Parent
with_halted = record { pgrp = 3; children = halted ∷ []; cutime = 0; cstime = 0 }

sys_waitpid-Outcome_example :
    Outcome (negsuc 0) false true two (sys_waitpid (negsuc 0) false true two)
sys_waitpid-Outcome_example = sys_waitpid-Outcome (negsuc 0) false true two

halted-AllStopped : AllStopped with_halted.children
unfolding AllStopped
halted-AllStopped = (refl, tt)

sys_waitpid-stopped_example : sys_waitpid (pos 9) true false with_halted ≡ echild
sys_waitpid-stopped_example = sys_waitpid-stopped (pos 9) true with_halted halted-AllStopped
