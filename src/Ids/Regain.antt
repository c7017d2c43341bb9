-- ===== src/Ids/Regain.antt =====
-- What `sys_setreuid` cannot do: it takes the id 0 for "leave unchanged".
use linux.Base.{◌≢◌, List, [], ◌∷◌, arith}
use linux.Base.Int.{ℤ, to_u16}
use linux.Ids.{Creds, sys_setreuid}
use linux.Ids.Safety.{IsWords}

-- The calls of `sys_setreuid` that a process makes, in order.
unfoldable pub setreuids : List (ℤ × ℤ) → Creds → Creds
setreuids [] c = c
setreuids ((r, e) ∷ ks) c = setreuids ks (sys_setreuid r e c).0

setreuid-ne_zero : (r e : ℤ) (c : Creds) → IsWords c → c.euid ≢ 0 → (sys_setreuid r e c).0.euid ≢ 0
unfolding sys_setreuid to_u16
setreuid-ne_zero r e c w h = ground arith

setreuid-IsWords : (r e : ℤ) (c : Creds) → IsWords c → IsWords (sys_setreuid r e c).0
unfolding sys_setreuid to_u16
setreuid-IsWords r e c w = ground arith

-- Once the effective user id is not 0, no sequence of calls of `sys_setreuid` makes it 0 again, also
-- where the real user id is 0: swapping the two does not bring root back.
pub setreuids-ne_zero :
    (ks : List (ℤ × ℤ)) (c : Creds) → IsWords c → c.euid ≢ 0 → (setreuids ks c).euid ≢ 0
unfolding setreuids
setreuids-ne_zero [] c w h = h
setreuids-ne_zero ((r, e) ∷ ks) c w h =
    setreuids-ne_zero ks (sys_setreuid r e c).0 (setreuid-IsWords r e c w)
      (setreuid-ne_zero r e c w h)
