-- ===== src/Sys/Tests.antt =====
-- Tests of the calls of kernel/sys.c.
use linux.Base.{refl, none, some, [], ◌∷◌, true, false}
use linux.Base.Int.{pos, negsuc}
use linux.Sys.Process.{
  Proc, Table, sys_setpgid, set_pgrp, setpgid_from, Changed, sys_setpgid-Changed,
}
use linux.Sys.Limits.{Rlimit}

-- The task at entry 1 is the caller, that at entry 2 its child.
abbrev caller : Proc
caller = record { pid = 5; pgrp = 5; session = 5; leader = true; tty = negsuc 0; parent = 0 }

abbrev child : Proc
child = record { pid = 6; pgrp = 5; session = 5; leader = false; tty = negsuc 0; parent = 1 }

abbrev tasks : Table
tasks = none ∷ some caller ∷ some child ∷ []

abbrev tasks_after : Table
tasks_after = none ∷ some caller ∷ some (record child { pgrp = 6 }) ∷ []

sys_setpgid-Changed_example : Changed 1 5 6 6 tasks tasks_after
unfolding sys_setpgid setpgid_from set_pgrp
sys_setpgid-Changed_example = sys_setpgid-Changed 1 6 6 caller tasks tasks_after refl

abbrev old : Rlimit
old = record { cur = pos 10; max = pos 20 }

abbrev new : Rlimit
new = record { cur = pos 15; max = pos 20 }
