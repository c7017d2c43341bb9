-- ===== src/Groups/Tests.antt =====
-- Tests of the groups of kernel/sys.c and of `permission` of fs/namei.c.
use linux.Base.{◌≡◌, ◌≢◌, [], arith, true, ◌↔◌, ◌⊎◌}
use linux.Groups.{in_group_p, permission, Inode, Caller}
use linux.Groups.Permission.{permission_iff, HasBits}

-- rw-r-----, owned by user 1 and group 7.
abbrev file : Inode
file = record { dev = 1; nlink = 1; mode = 0o640; uid = 1; gid = 7 }

abbrev member : Caller
member = record { euid = 2; egid = 7; groups = [] }

permission_iff_example :
    (permission member file 4 ≡ true)
    ↔ (((file.dev ≡ 0) ⊎ (file.nlink ≢ 0)) × ((member.euid ≡ 0) ⊎ HasBits file.mode 3 4))
unfolding in_group_p
permission_iff_example = permission_iff member file 4 (omega arith)
