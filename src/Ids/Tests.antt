-- ===== src/Ids/Tests.antt =====
-- Tests of the identity calls of kernel/sys.c.
use linux.Base.{[], ◌∷◌, arith}
use linux.Base.Int.{pos}
use linux.Ids.{Creds, setuid, calls}
use linux.Ids.Safety.{Within, IsUnprivileged, calls-Within}

abbrev guest : Creds
guest = record { uid = 100; euid = 100; suid = 200; gid = 10; egid = 10; sgid = 10 }

abbrev root : Creds
root = record { uid = 0; euid = 0; suid = 0; gid = 0; egid = 0; sgid = 0 }

-- Root with the effective id of a user.
abbrev as_user : Creds
as_user = record root { euid = 100; suid = 100 }

calls-Within_example :
    Within guest (calls (setuid (pos 0) ∷ setuid (pos 200) ∷ []) guest)
    × IsUnprivileged (calls (setuid (pos 0) ∷ setuid (pos 200) ∷ []) guest)
calls-Within_example =
    calls-Within (setuid (pos 0) ∷ setuid (pos 200) ∷ []) guest
      (record {
        uid = omega arith;
        euid = omega arith;
        suid = omega arith;
        gid = omega arith;
        egid = omega arith;
        sgid = omega arith;
      })
      (omega arith, omega arith, omega arith)
