-- ===== src/Files.antt =====
-- fs/fcntl.c: `dupfd`, `sys_dup` and `sys_fcntl`, on the descriptors of a process.
-- `filp` has 20 entries; a file is known by its place in the file table, whose entries are found
-- by that number.
pub mod Dup
pub mod Open
pub mod Counts
mod Tests
use linux.Base.{
  ℕ, zero, suc, ◌+◌, ◌-◌, ◌/◌, ◌^◌, ◌%◌, Bool, true, false, not, ◌||◌, Option, none, some, List,
  get_or, set, ltb, leb, ◌==◌, if◌then◌else◌,
}
use linux.Base.Bits.{bit_and, bit_or, bit_not, one_shl}

abbrev pub nr_open : ℕ
nr_open = 20

-- `struct file`; the first three are `unsigned short`. Inodes are numbers; f_op is left out.
pub record File : Type 0 where
  pub mode : ℕ
  pub flags : ℕ
  pub count : ℕ
  pub inode : ℕ
  pub pos : ℕ

pub record Descriptors : Type 0 where
  pub filp : List (Option ℕ)
  pub close_on_exec : ℕ
  pub files : ℕ → File

abbrev pub file_of : Descriptors → ℕ → Option ℕ
file_of p fd = get_or p.filp fd none

-- `while (arg < NR_OPEN)`: the first free entry of the `k` from `arg` on.
unfoldable pub first_free : ℕ → ℕ → List (Option ℕ) → Option ℕ
first_free zero arg filp = none
first_free (suc k) arg filp =
    let further = first_free k (arg + 1) filp in
    elim (get_or filp arg none) [ none ↦ some arg | some f ↦ further ]

pub data Fcntl : Type 0 where
  ebadf : Fcntl
  einval : Fcntl
  emfile : Fcntl
  enosys : Fcntl
  done : ℕ → Descriptors → Fcntl

abbrev pub change : (ℕ → File) → ℕ → File → ℕ → File
change files f v g = if g == f then v else files g

-- `(filp[arg] = filp[fd])->f_count++`, with the bit of close_on_exec cleared.
abbrev pub install : ℕ → ℕ → Descriptors → Descriptors
install arg f p = record {
  filp = set p.filp arg (some f);
  close_on_exec = bit_and p.close_on_exec (bit_not 32 (one_shl arg));
  files = change p.files f (record (p.files f) { count = ((p.files f).count + 1) % 2 ^ 16 });
}

abbrev pub dup_to : ℕ → Descriptors → Option ℕ → Fcntl
dup_to f p none = emfile
dup_to f p (some arg) = done arg (install arg f p)

abbrev pub dup_file : ℕ → Descriptors → Option ℕ → Fcntl
dup_file arg p none = ebadf
dup_file arg p (some f) =
    if leb nr_open arg then einval else dup_to f p (first_free (nr_open - arg) arg p.filp)

unfoldable pub dupfd : ℕ → ℕ → Descriptors → Fcntl
unfolding first_free
dupfd fd arg p = if leb nr_open fd then ebadf else dup_file arg p (file_of p fd)

unfoldable sys_dup : ℕ → Descriptors → Fcntl
unfolding dupfd
sys_dup fildes p = dupfd fildes 0 p

-- O_APPEND | O_NONBLOCK
abbrev pub settable : ℕ
settable = 0o6000

abbrev set_flags : ℕ → File → File
set_flags arg file = record file {
  flags = bit_or (bit_and file.flags (bit_not 16 settable)) (bit_and arg settable);
}

-- The commands from F_DUPFD to F_SETLKW, with the file `f` of the descriptor.
unfoldable pub fcntl_cmd : ℕ → ℕ → ℕ → ℕ → Descriptors → Fcntl
unfolding dupfd
fcntl_cmd cmd fd arg f p =
    if cmd == 0
    then dupfd fd arg p
    else if cmd == 1
    then done (p.close_on_exec / 2 ^ fd % 2) p
    else if cmd == 2
    then done 0 (record p {
      close_on_exec =
          if arg % 2 == 1
          then bit_or p.close_on_exec (one_shl fd)
          else bit_and p.close_on_exec (bit_not 32 (one_shl fd));
    })
    else if cmd == 3
    then done (p.files f).flags p
    else if cmd == 4
    then done 0 (record p { files = change p.files f (set_flags arg (p.files f)) })
    else if leb cmd 7
    then enosys
    else einval

unfoldable pub sys_fcntl : ℕ → ℕ → ℕ → Descriptors → Fcntl
unfolding fcntl_cmd
sys_fcntl fd cmd arg p =
    if leb nr_open fd
    then ebadf
    else elim (file_of p fd) [ none ↦ ebadf | some f ↦ fcntl_cmd cmd fd arg f p ]
