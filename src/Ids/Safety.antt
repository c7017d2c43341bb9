-- ===== src/Ids/Safety.antt =====
-- A process that is not root gets no identity that it did not have.
use linux.Base.{ℕ, ◌<◌, ◌≡◌, ◌≢◌, ◌⊎◌, true, List, [], ◌∷◌, arith}
use linux.Base.Int.{pos, to_u16}
use linux.Ids.{Creds, eperm, suser, Call, setuid, setreuid, setgid, setregid, call, calls}

-- Every identity fits an `unsigned short`.
pub record IsWords (c : Creds) : Type 0 where
  pub uid : c.uid < 65536
  pub euid : c.euid < 65536
  pub suid : c.suid < 65536
  pub gid : c.gid < 65536
  pub egid : c.egid < 65536
  pub sgid : c.sgid < 65536

-- One of the three user ids, or one of the three group ids.
abbrev pub UserOf : Creds → ℕ → Type 0
UserOf c x = (x ≡ c.uid) ⊎ (x ≡ c.euid) ⊎ (x ≡ c.suid)

abbrev pub GroupOf : Creds → ℕ → Type 0
GroupOf c x = (x ≡ c.gid) ⊎ (x ≡ c.egid) ⊎ (x ≡ c.sgid)

pub record Within (c d : Creds) : Type 0 where
  pub uid : UserOf c d.uid
  pub euid : UserOf c d.euid
  pub suid : UserOf c d.suid
  pub gid : GroupOf c d.gid
  pub egid : GroupOf c d.egid
  pub sgid : GroupOf c d.sgid

-- A process with no way to root: none of its user ids is 0.
abbrev pub IsUnprivileged : Creds → Type 0
IsUnprivileged c = (c.uid ≢ 0) × (c.euid ≢ 0) × (c.suid ≢ 0)

Within-refl : (c : Creds) → Within c c
Within-refl c = ground arith

Within-trans : (a b c : Creds) → Within a b → Within b c → Within a c
Within-trans a b c p q = ground arith

call-IsWords : (k : Call) (c : Creds) → IsWords c → IsWords (call k c).0
unfolding call to_u16
call-IsWords (setuid u) c w = ground arith
call-IsWords (setreuid r e) c w = ground arith
call-IsWords (setgid g) c w = ground arith
call-IsWords (setregid r e) c w = ground arith

call-Within : (k : Call) (c : Creds) → IsWords c → c.euid ≢ 0 → Within c (call k c).0
unfolding call to_u16
call-Within (setuid u) c w h = ground arith
call-Within (setreuid r e) c w h = ground arith
call-Within (setgid g) c w h = ground arith
call-Within (setregid r e) c w h = ground arith

Within-IsUnprivileged : (c d : Creds) → Within c d → IsUnprivileged c → IsUnprivileged d
Within-IsUnprivileged c d w u = ground arith

-- A process none of whose user ids is 0 cannot become root by any sequence of `sys_setuid`,
-- `sys_setreuid`, `sys_setgid` and `sys_setregid`, and every user and group id that it then has was one of its ids before.
pub calls-Within :
    (ks : List Call) (c : Creds)
    → IsWords c
    → IsUnprivileged c
    → Within c (calls ks c) × IsUnprivileged (calls ks c)
unfolding calls
calls-Within [] c w u = (Within-refl c, u)
calls-Within (k ∷ ks) c w u =
    let one = call-Within k c w u.1 in
    let (within, safe) =
      calls-Within ks (call k c).0 (call-IsWords k c w)
        (Within-IsUnprivileged c (call k c).0 one u) in
    (Within-trans c (call k c).0 (calls ks (call k c).0) one within, safe)

-- A call that fails with -EPERM changes no identity, also where it had set one before it failed.
pub call-eperm : (k : Call) (c : Creds) → IsWords c → (call k c).1 ≡ eperm → (call k c).0 ≡ c
unfolding call to_u16
call-eperm (setuid u) c w h = ground arith
call-eperm (setreuid r e) c w h = ground arith
call-eperm (setgid g) c w h = ground arith
call-eperm (setregid r e) c w h = ground arith

-- Root that sets its user id to another user gives root up for good: whatever it calls then, all
-- its user ids are that user's.
pub setuid_drops :
    (u : ℕ) (ks : List Call) (c : Creds)
    → IsWords c
    → suser c ≡ true
    → u ≢ 0
    → u < 65536
    → let d = calls (setuid (pos u) ∷ ks) c in (d.uid ≡ u) × (d.euid ≡ u) × (d.suid ≡ u)
unfolding calls call to_u16
setuid_drops u ks c w root ne small =
    let d : Creds = (call (setuid (pos u)) c).0 in
    let is : (d.uid ≡ u) × (d.euid ≡ u) × (d.suid ≡ u) = ground arith in
    let within = calls-Within ks d (call-IsWords (setuid (pos u)) c w) (ground arith) in
    ground (arith, within.0)
