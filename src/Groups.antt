-- ===== src/Groups.antt =====
-- kernel/sys.c: the supplementary groups (`sys_getgroups`, `sys_setgroups`, `in_group_p`), and
-- `permission` of fs/namei.c, which asks them. `groups` is a list of 32 `int`s.
pub mod Laws
pub mod Permission
mod Tests
use linux.Base.{
  ℕ, zero, suc, ◌+◌, ◌/◌, ◌^◌, Bool, true, false, not, ◌&&◌, ◌||◌, Option, none, some, List, [],
  ◌∷◌, length, ltb, leb, ◌==◌, if◌then◌else◌,
}
use linux.Base.Int.{ℤ, pos, negsuc}
use linux.Base.Bits.{bit_and}

abbrev pub ngroups : ℕ
ngroups = 32

-- NOGROUP is -1; a group id is an `unsigned short`, so no group is equal to it.
abbrev pub nogroup : ℤ
nogroup = negsuc 0

abbrev pub is_nogroup : ℤ → Bool
is_nogroup (pos n) = false
is_nogroup (negsuc n) = n == 0

abbrev pub is_group : ℤ → ℕ → Bool
is_group (pos n) g = n == g
is_group (negsuc n) g = false

-- `put_fs_word`: the low 16 bits of an `int`.
abbrev pub put_word : ℤ → ℕ
put_word g = linux.Base.Int.to_u16 g

-- The loop of `sys_getgroups` from the entry `i` on: the words written to the user, and `i` at the
-- end; `none` is -EINVAL. With a size of 0 nothing is written.
getgroups_from : ℕ → ℕ → List ℤ → Option (ℕ × List ℕ)
getgroups_from size i [] = some (i, [])
getgroups_from size i (g ∷ gs) =
    let rest = getgroups_from size (i + 1) gs in
    if is_nogroup g
    then some (i, [])
    else if size == 0
    then rest
    else if leb size i
    then none
    else elim rest [ none ↦ none | some (n, ws) ↦ some (n, put_word g ∷ ws) ]

unfoldable pub sys_getgroups : ℕ → List ℤ → Option (ℕ × List ℕ)
unfolding getgroups_from
sys_getgroups size groups = getgroups_from size 0 groups

pub data SetGroups : Type 0 where
  eperm : SetGroups
  einval : SetGroups
  done : List ℤ → SetGroups

-- The loop that stores the user's words, and NOGROUP behind them if there is room.
store_groups : List ℕ → List ℤ → List ℤ
store_groups ws [] = []
store_groups [] (g ∷ gs) = nogroup ∷ gs
store_groups (w ∷ ws) (g ∷ gs) = pos w ∷ store_groups ws gs

-- The list is what the user's array holds; its length is `gidsetsize`.
unfoldable pub sys_setgroups : Bool → List ℕ → List ℤ → SetGroups
unfolding store_groups
sys_setgroups suser words groups =
    if not suser
    then eperm
    else if ltb ngroups (length words)
    then einval
    else done (store_groups words groups)

search_group : ℕ → List ℤ → Bool
search_group grp [] = false
search_group grp (g ∷ gs) =
    if is_nogroup g then false else if is_group g grp then true else search_group grp gs

unfoldable pub in_group_p : ℕ → ℕ → List ℤ → Bool
unfolding search_group
in_group_p egid grp groups = if grp == egid then true else search_group grp groups

-- The fields of `struct inode` that `permission` reads.
pub record Inode : Type 0 where
  pub dev : ℕ
  pub nlink : ℕ
  pub mode : ℕ
  pub uid : ℕ
  pub gid : ℕ

-- The caller: `current->euid`, `current->egid` and `current->groups`.
pub record Caller : Type 0 where
  pub euid : ℕ
  pub egid : ℕ
  pub groups : List ℤ

-- The mode shifted to the class of the caller.
class_mode : Caller → Inode → ℕ
class_mode c i =
    if c.euid == i.uid
    then i.mode / 2 ^ 6
    else if in_group_p c.egid i.gid c.groups
    then i.mode / 2 ^ 3
    else i.mode

unfoldable pub permission : Caller → Inode → ℕ → Bool
unfolding class_mode
permission c i mask =
    if not (i.dev == 0) && (i.nlink == 0)
    then false
    else (bit_and (bit_and (class_mode c i) mask) 7 == mask) || (c.euid == 0)
