-- ===== src/Sys/Host.antt =====
-- kernel/sys.c: `sys_sethostname` and `sys_uname`, on the field `nodename` of `thisname`.
use linux.Base.{ℕ, ◌+◌, ◌==◌, Bool, not, List, [], ◌∷◌, get_or, set, length, ltb, if◌then◌else◌}

-- MAXHOSTNAMELEN; `nodename` has one byte more.
abbrev pub max_host_name_len : ℕ
max_host_name_len = 8

-- The loop over the user's `len` bytes from `i` on: the array, and where it stopped.
copy_name : List ℕ → ℕ → List ℕ → List ℕ × ℕ
copy_name [] i node = (node, i)
copy_name (b ∷ bs) i node =
    let rest = copy_name bs (i + 1) (set node i b) in if b == 0 then (set node i b, i) else rest

-- `if (nodename[i]) nodename[i>MAX ? MAX : i] = 0;`
end_name : List ℕ × ℕ → List ℕ
end_name (node, i) =
    if get_or node i 0 == 0
    then node
    else set node (if ltb max_host_name_len i then max_host_name_len else i) 0

pub data SetHost : Type 0 where
  eperm : SetHost
  einval : SetHost
  done : List ℕ → SetHost

-- The list is what the user's array holds; its length is `len`.
unfoldable pub sys_sethostname : Bool → List ℕ → List ℕ → SetHost
unfolding copy_name end_name
sys_sethostname suser name node =
    if not suser
    then eperm
    else if ltb max_host_name_len (length name)
    then einval
    else done (end_name (copy_name name 0 node))
