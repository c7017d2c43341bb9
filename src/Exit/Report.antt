-- ===== src/Exit/Report.antt =====
-- kernel/exit.c: what `sys_waitpid` returns, said with the fields of the children alone.
use linux.Base.{
  ℕ, zero, suc, ◌+◌, ◌*◌, ◌≡◌, ◌≢◌, refl, sym, ap, ◌∙◌, ◌⊎◌, inl, inr, Bool, true, false, not, ◌&&◌,
  ◌||◌, List, [], ◌∷◌, ◌++◌, ◌==◌, if◌then◌else◌, Bool-cases, arith,
}
use linux.Base.Int.{ℤ, pos, negsuc}
use linux.Base.Bits.{bit_or}
use linux.Sched.{TaskState, running, interruptible, uninterruptible, zombie, stopped}
use linux.Exit.{
  Child, Parent, is_wanted, done_stopped, done_zombie, passed, waiting, on_child, Waited, reported,
  zero_result, sleeps, echild, after_scan, is_waiting, sys_waitpid,
}
use linux.Exit.Wait.{
  is_done, NoneReady, any_waits, Scanned, first_ready, none_ready, report, sys_waitpid-Scanned,
}

-- A positive number is that of a process, 0 the caller's group, -1 every child, and another negative
-- number a group.
abbrev pub Wanted : ℤ → ℕ → Child → Type 0
Wanted (pos zero) pgrp p = p.pgrp ≡ pgrp
Wanted (pos (suc n)) pgrp p = p.pid ≡ suc n
Wanted (negsuc zero) pgrp p = Unit
Wanted (negsuc (suc n)) pgrp p = p.pgrp ≡ suc (suc n)

-- A zombie; or a stopped child, if these are asked for, that has not been reported yet.
abbrev pub Reportable : Bool → Child → Type 0
Reportable untraced p =
    (p.state ≡ zombie) ⊎ (p.state ≡ stopped) × (untraced ≡ true) × (p.exit_code ≢ 0)

-- It runs or sleeps.
abbrev pub Lives : Child → Type 0
Lives p = (p.state ≢ zombie) × (p.state ≢ stopped)

module _ (pid : ℤ) (nohang untraced : Bool) (c : Parent) where
  abbrev pub NothingToReport : List Child → Type 0
  NothingToReport [] = Unit
  NothingToReport (p ∷ l) = (Wanted pid c.pgrp p → Reportable untraced p → ⊥) × NothingToReport l

  abbrev pub SomeLives : List Child → Type 0
  SomeLives [] = ⊥
  SomeLives (p ∷ l) = (Wanted pid c.pgrp p × Lives p) ⊎ SomeLives l

  pub data Outcome (w : Waited) : Type 0 where
    zombie_child :
        (before : List Child) (p : Child) (after : List Child)
        → c.children ≡ before ++ (p ∷ after)
        → NothingToReport before
        → Wanted pid c.pgrp p
        → p.state ≡ zombie
        → w
          ≡ reported p.pid p.exit_code (record c {
            children = before ++ after;
            cutime = c.cutime + p.utime;
            cstime = c.cstime + p.stime;
          })
        → Outcome w
    stopped_child :
        (before : List Child) (p : Child) (after : List Child)
        → c.children ≡ before ++ (p ∷ after)
        → NothingToReport before
        → Wanted pid c.pgrp p
        → p.state ≡ stopped
        → untraced ≡ true
        → p.exit_code ≢ 0
        → w
          ≡ reported p.pid
              (bit_or (p.exit_code * 256) 0x7f)
              (record c { children = before ++ (record p { exit_code = 0 } ∷ after) })
        → Outcome w
    one_lives :
        NothingToReport c.children
        → SomeLives c.children
        → w ≡ (if nohang then zero_result else sleeps)
        → Outcome w
    no_child : NothingToReport c.children → (SomeLives c.children → ⊥) → w ≡ echild → Outcome w

is_wanted-Wanted :
    (pid : ℤ) (pgrp : ℕ) (p : Child) → is_wanted pid pgrp p ≡ true → Wanted pid pgrp p
unfolding is_wanted
is_wanted-Wanted (pos zero) pgrp p h = ground (arith, h)
is_wanted-Wanted (pos (suc n)) pgrp p h = ground (arith, h)
is_wanted-Wanted (negsuc zero) pgrp p h = tt
is_wanted-Wanted (negsuc (suc n)) pgrp p h = ground (arith, h)

Wanted-is_wanted :
    (pid : ℤ) (pgrp : ℕ) (p : Child) → Wanted pid pgrp p → is_wanted pid pgrp p ≡ true
unfolding is_wanted
Wanted-is_wanted (pos zero) pgrp p h = ground (arith, h)
Wanted-is_wanted (pos (suc n)) pgrp p h = ground (arith, h)
Wanted-is_wanted (negsuc zero) pgrp p h = ground arith
Wanted-is_wanted (negsuc (suc n)) pgrp p h = ground (arith, h)

on_zombie : (u : Bool) (p : Child) → p.state ≡ zombie → on_child u p ≡ done_zombie
unfolding on_child
on_zombie u p e = rw e refl

on_stopped :
    (u : Bool) (p : Child)
    → p.state ≡ stopped
    → on_child u p ≡ (if not u || (p.exit_code == 0) then passed else done_stopped)
unfolding on_child
on_stopped u p e = rw e refl

-- The states of a child.
state_cases : (p : Child) → (p.state ≡ zombie) ⊎ (p.state ≡ stopped) ⊎ Lives p
state_cases p = go p.state
  where
    go : (s : TaskState) → (s ≡ zombie) ⊎ (s ≡ stopped) ⊎ (s ≢ zombie) × (s ≢ stopped)
    go running = inr (inr (λ e. cc, λ e. cc))
    go interruptible = inr (inr (λ e. cc, λ e. cc))
    go uninterruptible = inr (inr (λ e. cc, λ e. cc))
    go zombie = inl refl
    go stopped = inr (inl refl)

on_living : (u : Bool) (p : Child) → Lives p → on_child u p ≡ waiting
unfolding on_child
on_living u p h = go p.state refl
  where
    go : (s : TaskState) → p.state ≡ s → on_child u p ≡ waiting
    go running e = rw e refl
    go interruptible e = rw e refl
    go uninterruptible e = rw e refl
    go zombie e = absurd (h.0 e)
    go stopped e = absurd (h.1 e)

is_done-Reportable : (u : Bool) (p : Child) → is_done (on_child u p) ≡ true → Reportable u p
is_done-Reportable u p h = elim (state_cases p) [
  | inl z ↦ inl z
  | inr (inl s) ↦
      let t = chosen u (p.exit_code == 0) (sym (ap is_done (on_stopped u p s)) ∙ h) in
      inr (s, t.0, ground (arith, t.1))
  | inr (inr l) ↦ absurd (let f = sym (ap is_done (on_living u p l)) ∙ h in cc)
]
  where
    chosen :
        (u e : Bool)
        → is_done (if not u || e then passed else done_stopped) ≡ true
        → (u ≡ true) × (e ≡ false)
    chosen true true k = cc
    chosen true false k = (refl, refl)
    chosen false e k = cc

Reportable-is_done : (u : Bool) (p : Child) → Reportable u p → is_done (on_child u p) ≡ true
Reportable-is_done u p (inl z) = ap is_done (on_zombie u p z)
Reportable-is_done u p (inr (s, t, e)) =
    let fresh : (p.exit_code == 0) ≡ false = ground arith in
    ap is_done (on_stopped u p s) ∙ rw (t, fresh) refl

living_waits : (u : Bool) (p : Child) → Lives p → is_waiting (on_child u p) ≡ true
living_waits u p h = ap is_waiting (on_living u p h)

waits_living : (u : Bool) (p : Child) → is_waiting (on_child u p) ≡ true → Lives p
waits_living u p h = elim (state_cases p) [
  | inl z ↦ absurd (let f = sym (ap is_waiting (on_zombie u p z)) ∙ h in cc)
  | inr (inl s) ↦
      absurd (never (not u || (p.exit_code == 0)) (sym (ap is_waiting (on_stopped u p s)) ∙ h))
  | inr (inr l) ↦ l
]
  where
    never : (b : Bool) → is_waiting (if b then passed else done_stopped) ≡ true → ⊥
    never true k = cc
    never false k = cc

both : (a b : Bool) → (a && b) ≡ true → (a ≡ true) × (b ≡ true)
both a b h = ground arith

module _ (pid : ℤ) (nohang untraced : Bool) (c : Parent) where
  none_to_report :
      (l : List Child) → NoneReady pid nohang untraced c l → NothingToReport pid nohang untraced c l
  none_to_report [] h = tt
  none_to_report (p ∷ l) (h, k) = (
    λ w r.
        let a = Wanted-is_wanted pid c.pgrp p w in
        let b = Reportable-is_done untraced p r in ground (arith, a, b, h),
    none_to_report l k,
  )

  some_lives :
      (l : List Child)
      → any_waits pid nohang untraced c l ≡ true
      → SomeLives pid nohang untraced c l
  unfolding any_waits
  some_lives [] h = cc
  some_lives (p ∷ l) h =
      elim (Bool-cases (is_wanted pid c.pgrp p && is_waiting (on_child untraced p))) [
        | inl y ↦
            let (a, b) = both _ _ y in
            inl (is_wanted-Wanted pid c.pgrp p a, waits_living untraced p b)
        | inr n ↦ inr (
            some_lives l
              (let k : any_waits pid nohang untraced c l ≡ true = ground (arith, n, h) in k))
      ]

  lives_waits :
      (l : List Child)
      → SomeLives pid nohang untraced c l
      → any_waits pid nohang untraced c l ≡ true
  unfolding any_waits
  lives_waits [] h = elim h [ ]
  lives_waits (p ∷ l) (inl (w, v)) =
      let a = Wanted-is_wanted pid c.pgrp p w in
      let b = living_waits untraced p v in ground (arith, a, b)
  lives_waits (p ∷ l) (inr s) = let a = lives_waits l s in ground (arith, a)

  report-Outcome :
      (before : List Child) (p : Child) (after : List Child) (w : Waited)
      → c.children ≡ before ++ (p ∷ after)
      → NothingToReport pid nohang untraced c before
      → Wanted pid c.pgrp p
      → Reportable untraced p
      → w ≡ report pid nohang untraced c (on_child untraced p) p before after
      → Outcome pid nohang untraced c w
  report-Outcome before p after w e n a (inl z) f =
      zombie_child before p after e n a z
        (f ∙ ap (λ s. report pid nohang untraced c s p before after) (on_zombie untraced p z))
  report-Outcome before p after w e n a (inr (s, t, x)) f =
      let fresh : (p.exit_code == 0) ≡ false = ground arith in
      let step : on_child untraced p ≡ done_stopped =
        on_stopped untraced p s ∙ rw (t, fresh) refl in
      stopped_child before p after e n a s t x
        (f ∙ ap (λ s. report pid nohang untraced c s p before after) step)

  outcome :
      (w : Waited)
      → Scanned pid nohang untraced c false c.children w
      → Outcome pid nohang untraced c w
  unfolding after_scan
  outcome w (first_ready before p after e n r f) =
      let (a, b) = both _ _ r in
      report-Outcome before p after w e (none_to_report before n) (is_wanted-Wanted pid c.pgrp p a)
        (is_done-Reportable untraced p b) f
  outcome w (none_ready n f) = elim (Bool-cases (any_waits pid nohang untraced c c.children)) [
    | inl y ↦
        one_lives (none_to_report c.children n) (some_lives c.children y)
          (f ∙ ap (after_scan nohang) y)
    | inr idle ↦
        no_child (none_to_report c.children n) (λ s. let y = lives_waits c.children s in cc)
          (f ∙ ap (after_scan nohang) idle)
  ]

  -- `sys_waitpid` reports the first wanted child that is a zombie, or that is stopped, with a signal
  -- not yet reported, if stopped children are asked for. A zombie's exit code is reported, it is gone
  -- from the children, and its times are added to the caller's; a stopped child is reported with its
  -- signal above 0x7f and stays, with its exit code cleared. If there is no such child, the call
  -- sleeps, or returns 0 with WNOHANG, if a wanted child runs or sleeps, and fails with ECHILD if
  -- none does.
  pub sys_waitpid-Outcome : Outcome pid nohang untraced c (sys_waitpid pid nohang untraced c)
  sys_waitpid-Outcome =
      outcome (sys_waitpid pid nohang untraced c) (sys_waitpid-Scanned pid nohang untraced c)
