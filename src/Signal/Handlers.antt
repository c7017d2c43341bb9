-- ===== src/Signal/Handlers.antt =====
-- kernel/signal.c: `sys_signal` and `sys_sigaction`, on the array `sigaction` of a task. A number
-- below 1 is refused, so a signal is an ℕ here.
use linux.Base.{
  ℕ, ◌+◌, ◌-◌, ◌≤◌, ◌≡◌, ◌≢◌, refl, Bool, false, ◌||◌, Option, none, some, List, get_or, get_elem?,
  set, length, ltb, ◌==◌, if◌then◌else◌, arith, Bool-cases, inl, inr, get_elem?-set_self,
  get_elem?-set_ne,
}
use linux.Base.Bits.{bit, bit_and, bit_or, one_shl, bit_zero}
use linux.Base.Masks.{bit-set_bit}
use linux.Signal.{sigkill, sigstop}

-- `struct sigaction`; a function pointer is a number.
pub record Action : Type 0 where
  pub handler : ℕ
  pub mask : ℕ
  pub flags : ℕ
  pub restorer : ℕ

abbrev pub sa_nomask : ℕ
sa_nomask = 0x40000000

abbrev pub sa_oneshot : ℕ
sa_oneshot = 0x80000000

abbrev pub no_action : Action
no_action = record { handler = 0; mask = 0; flags = 0; restorer = 0 }

-- `signum<1 || signum>32 || signum==SIGKILL || signum==SIGSTOP`
abbrev pub is_fixed : ℕ → Bool
is_fixed signum = ltb signum 1 || ltb 32 signum || signum == sigkill || signum == sigstop

-- Both calls give what the caller gets, and the new array; -EINVAL is `none`.
unfoldable pub sys_signal : ℕ → ℕ → ℕ → List Action → Option (ℕ × List Action)
sys_signal signum handler restorer actions =
    if is_fixed signum
    then none
    else some (
      (get_or actions (signum - 1) no_action).handler,
      set actions (signum - 1) (record {
        handler = handler;
        mask = 0;
        flags = sa_oneshot + sa_nomask;
        restorer = restorer;
      }),
    )

-- The mask of an action as it is stored.
unfoldable pub stored_action : ℕ → Action → Action
stored_action signum a =
    if bit_and a.flags sa_nomask == 0
    then record a { mask = bit_or a.mask (one_shl (signum - 1)) }
    else record a { mask = 0 }

unfoldable pub sys_sigaction : ℕ → Action → List Action → Option (Action × List Action)
unfolding stored_action
sys_sigaction signum action actions =
    if is_fixed signum
    then none
    else some (
      get_or actions (signum - 1) no_action,
      set actions (signum - 1) (stored_action signum action),
    )

-- What a call may change: the action of one signal that is neither SIGKILL nor SIGSTOP.
pub record Replaced (signum : ℕ) (new : Action) (actions actions' : List Action) : Type 0 where
  pub in_range : (1 ≤ signum) × (signum ≤ 32)
  pub free : (signum ≢ sigkill) × (signum ≢ sigstop)
  pub is_new : get_elem? actions' (signum - 1) ≡ some new
  pub others : (j : ℕ) → signum - 1 ≢ j → get_elem? actions' j ≡ get_elem? actions j

set-Replaced :
    (signum : ℕ) (new : Action) (actions : List Action)
    → length actions ≡ 32
    → is_fixed signum ≡ false
    → Replaced signum new actions (set actions (signum - 1) new)
set-Replaced signum new actions full free = record {
  in_range = (ground arith, ground arith);
  free = (ground arith, ground arith);
  is_new = get_elem?-set_self actions (signum - 1) new (ground arith);
  others = λ j h. get_elem?-set_ne actions new h;
}

-- What `new` takes over from the action given, and its mask.
abbrev pub IsStored : ℕ → Action → Action → Type 0
IsStored signum action new =
    (new.handler ≡ action.handler)
    × (new.flags ≡ action.flags)
    × (new.restorer ≡ action.restorer)
    × ((n : ℕ)
        → bit new.mask n ≡ (
            if bit_and action.flags sa_nomask == 0
            then (if n == signum - 1 then 1 else bit action.mask n)
            else 0))

stored_action-IsStored : (signum : ℕ) (a : Action) → IsStored signum a (stored_action signum a)
unfolding stored_action
stored_action-IsStored signum a = elim (Bool-cases (bit_and a.flags sa_nomask == 0)) [
  | inl y ↦ rw y (refl, refl, refl, λ n. bit-set_bit a.mask (signum - 1) n)
  | inr y ↦ rw y (refl, refl, refl, λ n. bit_zero n)
]

-- `sys_sigaction`, where it succeeds, returns the old action and replaces the action of that signal
-- alone, which is neither SIGKILL nor SIGSTOP. The handler, the flags and the restorer are those
-- given; with SA_NOMASK the mask is empty, and otherwise it has the signal itself besides the given ones.
pub sys_sigaction-Replaced :
    (signum : ℕ) (action old : Action) (actions actions' : List Action)
    → length actions ≡ 32
    → sys_sigaction signum action actions ≡ some (old, actions')
    → (new : Action) × Replaced signum new actions actions'
      × (old ≡ get_or actions (signum - 1) no_action)
      × IsStored signum action new
unfolding sys_sigaction
sys_sigaction-Replaced signum action old actions actions' full e =
    elim (Bool-cases (is_fixed signum)) [
      | inl fixed ↦ let refused : none ≡ some (old, actions') = rw fixed at e in absurd cc
      | inr free ↦
          let is : some (
            get_or actions (signum - 1) no_action,
            set actions (signum - 1) (stored_action signum action),
          )
              ≡ some (old, actions') =
            rw free at e in
          let same : set actions (signum - 1) (stored_action signum action) ≡ actions' = cc in
          (
            stored_action signum action,
            rw (← same) (set-Replaced signum (stored_action signum action) actions full free),
            cc,
            stored_action-IsStored signum action,
          )
    ]
