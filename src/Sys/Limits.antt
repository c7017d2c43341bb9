-- ===== src/Sys/Limits.antt =====
-- kernel/sys.c: `sys_getrlimit`, `sys_setrlimit` and `sys_getrusage`.
use linux.Base.{
  ℕ, zero, suc, ◌*◌, ◌/◌, ◌%◌, ◌<◌, ◌≡◌, ◌≢◌, Bool, false, not, ◌&&◌, ◌||◌, List, Option, some,
  none, get_elem?, set, length, leb, if◌then◌else◌, arith, get_elem?-set_self, get_elem?-set_ne,
}
use linux.Base.Int.{ℤ, pos, negsuc, ◌≤ℤ◌, ltb_ℤ}

pub record Rlimit : Type 0 where
  pub cur : ℤ
  pub max : ℤ

abbrev pub rlim_nlimits : ℕ
rlim_nlimits = 6

-- `outside` is an access to `rlim` out of its bounds: the test has no lower bound.
pub data GetLimit : Type 0 where
  einval : GetLimit
  outside : GetLimit
  limit : Rlimit → GetLimit

at_limit : Option Rlimit → GetLimit
at_limit none = outside
at_limit (some r) = limit r

unfoldable pub sys_getrlimit : ℤ → List Rlimit → GetLimit
unfolding at_limit
sys_getrlimit (negsuc n) rlim = outside
sys_getrlimit (pos n) rlim = if leb rlim_nlimits n then einval else at_limit (get_elem? rlim n)

pub data SetLimit : Type 0 where
  einval : SetLimit
  eperm : SetLimit
  outside : SetLimit
  done : List Rlimit → SetLimit

set_limit : Bool → Rlimit → ℕ → List Rlimit → Option Rlimit → SetLimit
set_limit suser new n rlim none = SetLimit.outside
set_limit suser new n rlim (some old) =
    if (ltb_ℤ old.max new.cur || ltb_ℤ old.max new.max) && not suser
    then eperm
    else done (set rlim n new)

unfoldable pub sys_setrlimit : Bool → ℤ → Rlimit → List Rlimit → SetLimit
unfolding set_limit
sys_setrlimit suser (negsuc n) new rlim = SetLimit.outside
sys_setrlimit suser (pos n) new rlim =
    if leb rlim_nlimits n then SetLimit.einval else set_limit suser new n rlim (get_elem? rlim n)

-- The clock ticks of `struct task_struct`, and a time in seconds and microseconds.
pub record Times : Type 0 where
  pub utime : ℕ
  pub stime : ℕ
  pub cutime : ℕ
  pub cstime : ℕ

pub record Usage : Type 0 where
  pub user_sec : ℕ
  pub user_usec : ℕ
  pub system_sec : ℕ
  pub system_usec : ℕ

abbrev pub hz : ℕ
hz = 100

-- CT_TO_SECS and CT_TO_USECS.
abbrev pub ct_to_secs : ℕ → ℕ
ct_to_secs x = x / hz

abbrev pub ct_to_usecs : ℕ → ℕ
ct_to_usecs x = x % hz * 1000000 / hz

abbrev pub usage : ℕ → ℕ → Usage
usage u s = record {
  user_sec = ct_to_secs u;
  user_usec = ct_to_usecs u;
  system_sec = ct_to_secs s;
  system_usec = ct_to_usecs s;
}

-- `sys_getrusage`: RUSAGE_SELF is 0, RUSAGE_CHILDREN -1; `none` is -EINVAL.
unfoldable pub sys_getrusage : ℤ → Times → Option Usage
sys_getrusage (pos zero) t = some (usage t.utime t.stime)
sys_getrusage (pos (suc n)) t = none
sys_getrusage (negsuc zero) t = some (usage t.cutime t.cstime)
sys_getrusage (negsuc (suc n)) t = none

-- A process that is not root cannot raise a maximum: after a successful `sys_setrlimit` each limit
-- is what it was, but for the one asked for, which is the new one and not above the old maximum.
pub sys_setrlimit_lem :
    (n : ℕ) (new old : Rlimit) (rlim rlim' : List Rlimit)
    → get_elem? rlim n ≡ some old
    → n < length rlim
    → sys_setrlimit false (pos n) new rlim ≡ done rlim'
    → (n < rlim_nlimits)
      × (new.cur ≤ℤ old.max)
      × (new.max ≤ℤ old.max)
      × (get_elem? rlim' n ≡ some new)
      × ((j : ℕ) → n ≢ j → get_elem? rlim' j ≡ get_elem? rlim j)
unfolding sys_setrlimit
sys_setrlimit_lem n new old rlim rlim' at inside e =
    let is : rlim' ≡ set rlim n new = ground arith in
    (
      ground arith,
      ground arith,
      ground arith,
      rw is (get_elem?-set_self rlim n new inside),
      λ j ne. rw is (get_elem?-set_ne rlim new ne),
    )
