-- ===== src/Sys/Process.antt =====
-- kernel/sys.c: `sys_setpgid`, `sys_setsid`, `sys_brk`, `sys_umask`, `sys_reboot`, and
-- `session_of_pgrp` of kernel/exit.c.
use linux.Base.{
  ℕ, zero, suc, ◌+◌, ◌-◌, ◌^◌, ◌%◌, ◌≡◌, ◌⊎◌, inl, inr, ◌==◌, Bool, true, false, not, ◌&&◌, ◌||◌,
  List, Option, some, none, get_or, set, ltb, leb, if◌then◌else◌, arith, Bool-cases, Option-cases,
}
use linux.Base.Int.{ℤ, pos, negsuc}
use linux.Base.Bits.{bit_and}

-- The fields of `struct task_struct` that decide on process groups. `parent` is the entry of
-- `p_pptr` in the task table; a task is known by its entry.
pub record Proc : Type 0 where
  pub pid : ℕ
  pub pgrp : ℕ
  pub session : ℕ
  pub leader : Bool
  pub tty : ℤ
  pub parent : ℕ

abbrev pub Table : Type 0
Table = List (Option Proc)

-- A look-up that follows a null pointer has no defined result.
pub data Session : Type 0 where
  null_pointer : Session
  missing : Session
  found : ℕ → Session

-- `session_of_pgrp`, at the entries `k` down to 1. It does not test `*p`.
unfoldable pub session_of_pgrp : ℕ → ℕ → Table → Session
session_of_pgrp zero pgrp ts = missing
session_of_pgrp (suc k) pgrp ts =
    let further = session_of_pgrp k pgrp ts in
    elim (get_or ts (suc k) none) [
      | none ↦ null_pointer
      | some t ↦ if t.pgrp == pgrp then found t.session else further
    ]

pub data SetPgid : Type 0 where
  eperm : SetPgid
  einval : SetPgid
  esrch : SetPgid
  undefined : SetPgid
  done : Table → SetPgid

-- `task[i]->pid == pid && (task[i]->p_pptr == current || task[i] == current)`
abbrev pub is_target : ℕ → ℕ → ℕ → Proc → Bool
is_target current pid i t = t.pid == pid && (t.parent == current || i == current)

abbrev pub in_session : Session → ℕ → Option Bool
in_session null_pointer s = none
in_session missing s = some false
in_session (found t) s = some (t == s)

-- The body of the loop, at the task that fits. `mine` is `current->session`.
unfoldable pub set_pgrp : ℕ → ℕ → ℕ → ℕ → Proc → Table → SetPgid
unfolding session_of_pgrp
set_pgrp mine pid pgid i t ts =
    if t.leader
    then eperm
    else if not (t.session == mine)
    then eperm
    else if pgid == pid
    then done (set ts i (some (record t { pgrp = pgid })))
    else elim (in_session (session_of_pgrp 63 pgid ts) mine) [
      | none ↦ undefined
      | some same ↦ if same then done (set ts i (some (record t { pgrp = pgid }))) else eperm
    ]

-- The loop over the `k` entries from `i` on.
unfoldable pub setpgid_from : ℕ → ℕ → ℕ → ℕ → ℕ → ℕ → Table → SetPgid
unfolding set_pgrp
setpgid_from zero i current mine pid pgid ts = esrch
setpgid_from (suc k) i current mine pid pgid ts =
    let further = setpgid_from k (i + 1) current mine pid pgid ts in
    elim (get_or ts i none) [
      | none ↦ further
      | some t ↦ if is_target current pid i t then set_pgrp mine pid pgid i t ts else further
    ]

abbrev pub or_self : ℕ → ℕ → ℕ
or_self self n = if n == 0 then self else n

-- `current` is the entry of the caller `c`. A negative `pid` fits no task.
unfoldable pub sys_setpgid : ℕ → Proc → ℤ → ℤ → Table → SetPgid
unfolding setpgid_from
sys_setpgid current c pid (negsuc n) ts = einval
sys_setpgid current c (negsuc m) (pos n) ts = esrch
sys_setpgid current c (pos m) (pos n) ts =
    setpgid_from 64 0 current c.session (or_self c.pid m) (or_self c.pid n) ts

-- `sys_setsid`; `none` is -EPERM.
unfoldable pub sys_setsid : Bool → Proc → Option Proc
sys_setsid suser p =
    if p.leader && not suser
    then none
    else some (record p { leader = true; session = p.pid; pgrp = p.pid; tty = negsuc 0 })

-- `sys_brk`, with the fields that it reads: the new `brk`, which it also returns.
unfoldable pub sys_brk : (end_code start_stack brk end_data_seg : ℕ) → ℕ
sys_brk end_code start_stack brk end_data_seg =
    if leb end_code end_data_seg && ltb end_data_seg ((start_stack + 2 ^ 32 - 16384) % 2 ^ 32)
    then end_data_seg
    else brk

-- `sys_umask`: the new mask and the result.
unfoldable pub sys_umask : ℕ → ℕ → ℕ × ℕ
sys_umask mask umask = (bit_and mask 0o777, umask)

pub data Reboot : Type 0 where
  eperm : Reboot
  einval : Reboot
  reset : Reboot
  ctrl_alt_del : Bool → Reboot

-- `sys_reboot`: refused, a reset, or a new value of `C_A_D`. The arguments are 32-bit patterns.
unfoldable pub sys_reboot : Bool → ℕ → ℕ → ℕ → Reboot
sys_reboot suser magic magic_too flag =
    if not suser
    then Reboot.eperm
    else if not (magic == 0xfee1dead) || not (magic_too == 672274793)
    then Reboot.einval
    else if flag == 0x01234567
    then reset
    else if flag == 0x89ABCDEF
    then ctrl_alt_del true
    else if flag == 0
    then ctrl_alt_del false
    else Reboot.einval

-- What a successful `sys_setpgid` did.
pub record Changed (current mine pid pgid : ℕ) (ts ts' : Table) : Type 0 where
  pub entry : ℕ
  pub task : Proc
  pub at_entry : get_or ts entry none ≡ some task
  pub is_pid : task.pid ≡ pid
  pub mine_or_child : (task.parent ≡ current) ⊎ (entry ≡ current)
  pub no_leader : task.leader ≡ false
  pub same_session : task.session ≡ mine
  pub group_in_session : (pgid ≡ pid) ⊎ (session_of_pgrp 63 pgid ts ≡ found mine)
  pub only : ts' ≡ set ts entry (some (record task { pgrp = pgid }))

in_session-true : (s : Session) (mine : ℕ) → in_session s mine ≡ some true → s ≡ found mine
in_session-true null_pointer mine h = cc
in_session-true missing mine h = cc
in_session-true (found t) mine h = ground arith

-- The group that `set_pgrp` sets, with the two tests on the task passed.
set_pgrp-done :
    (mine pid pgid i : ℕ) (t : Proc) (ts ts' : Table)
    → t.leader ≡ false
    → (t.session == mine) ≡ true
    → set_pgrp mine pid pgid i t ts ≡ done ts'
    → ((pgid ≡ pid) ⊎ (session_of_pgrp 63 pgid ts ≡ found mine))
      × (ts' ≡ set ts i (some (record t { pgrp = pgid })))
unfolding set_pgrp
set_pgrp-done mine pid pgid i t ts ts' l s e = elim (Bool-cases (pgid == pid)) [
  | inl own ↦
      let is : done (set ts i (some (record t { pgrp = pgid; leader = false }))) ≡ done ts' =
        rw (l, s, own) at e in
      (inl (ground arith), rw l cc)
  | inr other ↦ elim (Option-cases (in_session (session_of_pgrp 63 pgid ts) mine)) [
    | inl lost ↦ let is : undefined ≡ done ts' = rw (l, s, other, lost) at e in absurd cc
    | inr (true, found_it) ↦
        let is : done (set ts i (some (record t { pgrp = pgid }))) ≡ done ts' =
          rw (l, s, other, found_it) at e in
        (inr (in_session-true (session_of_pgrp 63 pgid ts) mine found_it), cc)
    | inr (false, elsewhere) ↦
        let is : SetPgid.eperm ≡ done ts' = rw (l, s, other, elsewhere) at e in absurd cc
  ]
]

set_pgrp-no_leader :
    (mine pid pgid i : ℕ) (t : Proc) (ts ts' : Table)
    → set_pgrp mine pid pgid i t ts ≡ done ts'
    → (t.leader ≡ false) × ((t.session == mine) ≡ true)
unfolding set_pgrp
set_pgrp-no_leader mine pid pgid i t ts ts' e = elim (Bool-cases t.leader) [
  | inl l ↦ let refused : SetPgid.eperm ≡ done ts' = rw l at e in absurd cc
  | inr l ↦ elim (Bool-cases (t.session == mine)) [
    | inl s ↦ (l, s)
    | inr s ↦ let refused : SetPgid.eperm ≡ done ts' = rw (l, s) at e in absurd cc
  ]
]

set_pgrp-Changed :
    (current mine pid pgid i : ℕ) (t : Proc) (ts ts' : Table)
    → get_or ts i none ≡ some t
    → is_target current pid i t ≡ true
    → set_pgrp mine pid pgid i t ts ≡ done ts'
    → Changed current mine pid pgid ts ts'
set_pgrp-Changed current mine pid pgid i t ts ts' at h e =
    let (l, s) = set_pgrp-no_leader mine pid pgid i t ts ts' e in
    let (group, set_to) = set_pgrp-done mine pid pgid i t ts ts' l s e in
    record {
      entry = i;
      task = t;
      at_entry = at;
      is_pid = ground arith;
      mine_or_child = ground arith;
      no_leader = l;
      same_session = ground arith;
      group_in_session = group;
      only = set_to;
    }

setpgid_from-Changed :
    (k i current mine pid pgid : ℕ) (ts ts' : Table)
    → setpgid_from k i current mine pid pgid ts ≡ done ts'
    → Changed current mine pid pgid ts ts'
unfolding setpgid_from
setpgid_from-Changed zero i current mine pid pgid ts ts' e = cc
setpgid_from-Changed (suc k) i current mine pid pgid ts ts' e =
    elim (Option-cases (get_or ts i none)) [
      | inl empty ↦
          setpgid_from-Changed k (i + 1) current mine pid pgid ts ts' (ground (arith, empty))
      | inr (t, at) ↦ elim (Bool-cases (is_target current pid i t)) [
        | inl y ↦ set_pgrp-Changed current mine pid pgid i t ts ts' at y (ground (arith, at, y))
        | inr n ↦
            setpgid_from-Changed k (i + 1) current mine pid pgid ts ts' (ground (arith, at, n))
      ]
    ]

-- A successful `sys_setpgid` changes the process group of one task and nothing else: the caller or a
-- child of it, that is no session leader, in the caller's session; and the group is the task's own
-- or one that `session_of_pgrp` finds in that session.
pub sys_setpgid-Changed :
    (current m n : ℕ) (c : Proc) (ts ts' : Table)
    → sys_setpgid current c (pos m) (pos n) ts ≡ done ts'
    → Changed current c.session (or_self c.pid m) (or_self c.pid n) ts ts'
unfolding sys_setpgid
sys_setpgid-Changed current m n c ts ts' e =
    setpgid_from-Changed 64 0 current c.session (or_self c.pid m) (or_self c.pid n) ts ts' e
