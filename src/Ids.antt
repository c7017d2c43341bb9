-- ===== src/Ids.antt =====
-- kernel/sys.c: the user and group identities of a process, `sys_setuid`, `sys_setreuid`,
-- `sys_setgid` and `sys_setregid`, with `suser()` of include/linux/kernel.h.
pub mod Safety
pub mod Regain
mod Tests
use linux.Base.{ℕ, Bool, true, false, ◌||◌, List, [], ◌∷◌, ◌==◌, if◌then◌else◌}
use linux.Base.Int.{ℤ, pos, negsuc, to_u16, ltb_ℤ}

-- The fields `uid`, `euid`, ... of `struct task_struct`; each is an `unsigned short`.
pub record Creds : Type 0 where
  pub uid : ℕ
  pub euid : ℕ
  pub suid : ℕ
  pub gid : ℕ
  pub egid : ℕ
  pub sgid : ℕ

-- What a call returns: 0 or -EPERM.
pub data Status : Type 0 where
  ok eperm : Status

abbrev pub suser : Creds → Bool
suser c = c.euid == 0

-- An `unsigned short` compared with an `int`.
abbrev pub is_id : ℕ → ℤ → Bool
is_id n (pos m) = n == m
is_id n (negsuc m) = false

abbrev pub is_positive : ℤ → Bool
is_positive n = ltb_ℤ (pos 0) n

setregid_egid : ℤ → Creds → Creds × Status
setregid_egid egid c =
    if is_positive egid
    then (if is_id c.gid egid || is_id c.egid egid || suser c
        then (record c { egid = to_u16 egid; sgid = to_u16 egid }, ok)
        else (c, eperm))
    else (c, ok)

unfoldable pub sys_setregid : ℤ → ℤ → Creds → Creds × Status
unfolding setregid_egid
sys_setregid rgid egid c =
    if is_positive rgid
    then (if is_id c.gid rgid || suser c
        then setregid_egid egid (record c { gid = to_u16 rgid })
        else (c, eperm))
    else setregid_egid egid c

unfoldable pub sys_setgid : ℤ → Creds → Creds × Status
sys_setgid gid c =
    if suser c
    then (record c { gid = to_u16 gid; egid = to_u16 gid; sgid = to_u16 gid }, ok)
    else if is_id c.gid gid || is_id c.sgid gid
    then (record c { egid = to_u16 gid }, ok)
    else (c, eperm)

-- `old_ruid` is the real user id from before the call.
setreuid_euid : ℕ → ℤ → Creds → Creds × Status
setreuid_euid old_ruid euid c =
    if is_positive euid
    then (if is_id old_ruid euid || is_id c.euid euid || suser c
        then (record c { euid = to_u16 euid; suid = to_u16 euid }, ok)
        else (record c { uid = old_ruid }, eperm))
    else (c, ok)

unfoldable pub sys_setreuid : ℤ → ℤ → Creds → Creds × Status
unfolding setreuid_euid
sys_setreuid ruid euid c =
    if is_positive ruid
    then (if is_id c.euid ruid || is_id c.uid ruid || suser c
        then setreuid_euid c.uid euid (record c { uid = to_u16 ruid })
        else (c, eperm))
    else setreuid_euid c.uid euid c

unfoldable pub sys_setuid : ℤ → Creds → Creds × Status
sys_setuid uid c =
    if suser c
    then (record c { uid = to_u16 uid; euid = to_u16 uid; suid = to_u16 uid }, ok)
    else if is_id c.uid uid || is_id c.suid uid
    then (record c { euid = to_u16 uid }, ok)
    else (c, eperm)

-- What a process can ask for, and its calls in order.
pub data Call : Type 0 where
  setuid : ℤ → Call
  setreuid : ℤ → ℤ → Call
  setgid : ℤ → Call
  setregid : ℤ → ℤ → Call

unfoldable pub call : Call → Creds → Creds × Status
unfolding sys_setuid sys_setreuid sys_setgid sys_setregid
call (setuid u) c = sys_setuid u c
call (setreuid r e) c = sys_setreuid r e c
call (setgid g) c = sys_setgid g c
call (setregid r e) c = sys_setregid r e c

unfoldable pub calls : List Call → Creds → Creds
unfolding call
calls [] c = c
calls (k ∷ ks) c = calls ks (call k c).0
