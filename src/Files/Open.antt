-- ===== src/Files/Open.antt =====
-- fs/open.c: `sys_open`, `sys_creat` and `sys_close`, on the descriptors of a process and the file table;
-- `sys_dup2` of fs/fcntl.c, which calls `sys_close`; and sequences of these calls.
-- What `open_namei` finds for the name is an argument, and what the `open` of the inode returns, 0 if it
-- has none. The inode that is given to `iput` is part of the result.
use linux.Base.{
  ℕ, zero, suc, ◌+◌, ◌-◌, ◌%◌, ◌^◌, Option, none, some, List, [], ◌∷◌, set, leb, ◌==◌,
  if◌then◌else◌,
}
use linux.Base.Bits.{bit_and, bit_not, one_shl}
use linux.Files.{
  nr_open, File, Descriptors, file_of, first_free, change, Fcntl, ebadf, einval, emfile, enosys,
  done, dupfd, sys_fcntl,
}

abbrev pub nr_file : ℕ
nr_file = 64

-- The loop over the file table, with `k` files left from `i` on.
unfoldable pub first_unused : ℕ → ℕ → (ℕ → File) → Option ℕ
first_unused zero i files = none
first_unused (suc k) i files =
    let further = first_unused k (i + 1) files in if (files i).count == 0 then some i else further

-- An error number, or the inode of the name.
pub data Named : Type 0 where
  no_inode : ℕ → Named
  inode_of : ℕ → Named

pub data Opened : Type 0 where
  refused : Descriptors → Opened
  failed : ℕ → Option ℕ → Descriptors → Opened
  opened : ℕ → Descriptors → Opened

-- The bit of close_on_exec is cleared.
abbrev pub keep_on_exec : ℕ → Descriptors → Descriptors
keep_on_exec fd p = record p { close_on_exec = bit_and p.close_on_exec (bit_not 32 (one_shl fd)) }

-- `(current->filp[fd]=f)->f_count++`
abbrev pub attach : ℕ → ℕ → Descriptors → Descriptors
attach fd f p = record p {
  filp = set p.filp fd (some f);
  files = change p.files f (record (p.files f) { count = ((p.files f).count + 1) % 2 ^ 16 });
}

-- The descriptor and the file are free again.
abbrev pub detach : ℕ → ℕ → Descriptors → Descriptors
detach fd f p = record p {
  filp = set p.filp fd none;
  files = change p.files f (record (p.files f) { count = 0 });
}

abbrev pub fill_file : ℕ → ℕ → ℕ → Descriptors → Descriptors
fill_file f flag inode p = record p {
  files = change p.files f (record {
    mode = (flag % 4 + 1) % 4;
    flags = flag % 2 ^ 16;
    count = 1;
    inode = inode;
    pos = 0;
  });
}

-- From the call of `open_namei` on.
abbrev pub open_named : ℕ → ℕ → ℕ → ℕ → Named → Descriptors → Opened
open_named flag driver fd f (no_inode e) p = failed e none (detach fd f p)
open_named flag driver fd f (inode_of inode) p =
    if driver == 0
    then opened fd (fill_file f flag inode p)
    else failed driver (some inode) (detach fd f (fill_file f flag inode p))

abbrev pub open_file : ℕ → ℕ → ℕ → Named → Descriptors → Option ℕ → Opened
open_file flag driver fd named p none = refused p
open_file flag driver fd named p (some f) = open_named flag driver fd f named (attach fd f p)

abbrev pub open_at : ℕ → ℕ → Named → Descriptors → Option ℕ → Opened
open_at flag driver named p none = refused p
open_at flag driver named p (some fd) =
    open_file flag driver fd named (keep_on_exec fd p) (first_unused nr_file 0 p.files)

unfoldable pub sys_open : ℕ → ℕ → Named → Descriptors → Opened
unfolding first_free first_unused
sys_open flag driver named p = open_at flag driver named p (first_free nr_open 0 p.filp)

-- O_CREAT | O_WRONLY | O_TRUNC
unfoldable pub sys_creat : ℕ → Named → Descriptors → Opened
unfolding sys_open
sys_creat driver named p = sys_open 0o1101 driver named p

pub data Closed : Type 0 where
  bad_descriptor : Descriptors → Closed
  panicked : Closed
  closed : Option ℕ → Descriptors → Closed

-- The file of the descriptor has one user less.
abbrev pub release : ℕ → Descriptors → Closed
release f p =
    let file = p.files f in
    let p' : Descriptors = record p {
      files = change p.files f (record file { count = file.count - 1 });
    } in
    if file.count == 0
    then panicked
    else closed (if file.count - 1 == 0 then some file.inode else none) p'

abbrev pub close_file : ℕ → Descriptors → Option ℕ → Closed
close_file fd p none = bad_descriptor p
close_file fd p (some f) = release f (record p { filp = set p.filp fd none })

unfoldable pub sys_close : ℕ → Descriptors → Closed
sys_close fd p =
    if leb nr_open fd then bad_descriptor p else close_file fd (keep_on_exec fd p) (file_of p fd)

-- none is the panic.
abbrev pub after_close : Closed → Option Descriptors
after_close (bad_descriptor p) = some p
after_close panicked = none
after_close (closed inode p) = some p

-- What `sys_close` leaves, and what `dupfd` makes of it.
unfoldable pub sys_dup2 : ℕ → ℕ → Descriptors → Option (Descriptors × Fcntl)
unfolding sys_close dupfd
sys_dup2 oldfd newfd p =
    if newfd == oldfd then some (p, done newfd p) else elim (after_close (sys_close newfd p)) [
      | none ↦ none
      | some q ↦ some (q, dupfd oldfd newfd q)
    ]

-- A call that fails leaves the descriptors as they are.
abbrev pub after_fcntl : Descriptors → Fcntl → Descriptors
after_fcntl p ebadf = p
after_fcntl p einval = p
after_fcntl p emfile = p
after_fcntl p enosys = p
after_fcntl p (done n p') = p'

abbrev pub after_dup2 : Option (Descriptors × Fcntl) → Option Descriptors
after_dup2 none = none
after_dup2 (some (q, r)) = some (after_fcntl q r)

abbrev pub after_open : Opened → Descriptors
after_open (refused p) = p
after_open (failed e inode p) = p
after_open (opened fd p) = p

pub data FileCall : Type 0 where
  call_open : ℕ → ℕ → Named → FileCall
  call_close : ℕ → FileCall
  call_dup2 : ℕ → ℕ → FileCall
  call_fcntl : ℕ → ℕ → ℕ → FileCall

unfoldable pub file_call : FileCall → Descriptors → Option Descriptors
unfolding sys_open sys_close sys_dup2 sys_fcntl
file_call (call_open flag driver named) p = some (after_open (sys_open flag driver named p))
file_call (call_close fd) p = after_close (sys_close fd p)
file_call (call_dup2 oldfd newfd) p = after_dup2 (sys_dup2 oldfd newfd p)
file_call (call_fcntl fd cmd arg) p = some (after_fcntl p (sys_fcntl fd cmd arg p))

unfoldable pub file_calls : List FileCall → Descriptors → Option Descriptors
unfolding file_call
file_calls [] p = some p
file_calls (c ∷ cs) p = elim (file_call c p) [ none ↦ none | some q ↦ file_calls cs q ]
