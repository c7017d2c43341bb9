-- ===== src/Exit/Wait.antt =====
-- kernel/exit.c: which child `sys_waitpid` reports, and when it finds none.
use linux.Base.{
  ◌+◌, ◌≡◌, refl, ap, ◌∙◌, Bool, true, false, ◌&&◌, ◌||◌, List, [], ◌∷◌, ◌++◌, if◌then◌else◌,
  Bool-cases, inl, inr,
}
use linux.Base.Int.{ℤ}
use linux.Sched.{stopped}
use linux.Exit.{
  Child, Parent, is_wanted, Step, done_stopped, done_zombie, passed, waiting, on_child, Waited,
  reported, echild, keep, stopped_status, after_scan, on_step, is_waiting, scan_children,
  sys_waitpid,
}

abbrev pub is_done : Step → Bool
is_done done_stopped = true
is_done done_zombie = true
is_done _ = false

module _ (pid : ℤ) (nohang untraced : Bool) (c : Parent) where
  -- The child is wanted, and has something to report.
  abbrev pub IsReady : Child → Type 0
  IsReady p = (is_wanted pid c.pgrp p && is_done (on_child untraced p)) ≡ true

  abbrev pub waits_for : Child → Bool
  waits_for p = is_wanted pid c.pgrp p && is_waiting (on_child untraced p)

  abbrev pub NoneReady : List Child → Type 0
  NoneReady [] = Unit
  NoneReady (p ∷ l) =
      ((is_wanted pid c.pgrp p && is_done (on_child untraced p)) ≡ false) × NoneReady l

  unfoldable pub any_waits : List Child → Bool
  any_waits [] = false
  any_waits (p ∷ l) = waits_for p || any_waits l

  -- The status, and the caller afterwards.
  abbrev pub report : Step → Child → List Child → List Child → Waited
  report done_stopped p before after =
      reported p.pid (stopped_status p)
        (record c { children = before ++ (record p { exit_code = 0 } ∷ after) })
  report _ p before after = reported p.pid p.exit_code (record c {
    children = before ++ after;
    cutime = c.cutime + p.utime;
    cstime = c.cstime + p.stime;
  })

  -- The first ready child of the list is reported; without one, the result depends on whether there
  -- is a wanted child to wait for, or `flag` is set.
  pub data Scanned (flag : Bool) (l : List Child) (w : Waited) : Type 0 where
    first_ready :
        (before : List Child) (p : Child) (after : List Child)
        → l ≡ before ++ (p ∷ after)
        → NoneReady before
        → IsReady p
        → w ≡ report (on_child untraced p) p before after
        → Scanned flag l w
    none_ready : NoneReady l → w ≡ after_scan nohang (flag || any_waits l) → Scanned flag l w

  keep-Scanned :
      (flag : Bool) (p : Child) (l : List Child) (w : Waited)
      → (is_wanted pid c.pgrp p && is_done (on_child untraced p)) ≡ false
      → Scanned (flag || waits_for p) l w
      → Scanned flag (p ∷ l) (keep p w)
  unfolding keep any_waits after_scan
  keep-Scanned flag p l w h (first_ready before q after e n r f) =
      first_ready (p ∷ before) q after (ap (λ k. p ∷ k) e) (h, n) r
        (ap (keep p) f ∙ kept (on_child untraced q) q before after)
    where
      kept :
          (s : Step) (q : Child) (before after : List Child)
          → keep p (report s q before after) ≡ report s q (p ∷ before) after
      kept done_stopped q before after = refl
      kept done_zombie q before after = refl
      kept passed q before after = refl
      kept waiting q before after = refl
  keep-Scanned flag p l w h (none_ready n f) =
      none_ready (h, n)
        (ap (keep p) f
          ∙ same nohang ((flag || waits_for p) || any_waits l)
          ∙ ap (after_scan nohang) (assoc flag (waits_for p) (any_waits l)))
    where
      same : (nohang flag : Bool) → keep p (after_scan nohang flag) ≡ after_scan nohang flag
      same true true = refl
      same false true = refl
      same nohang false = refl

      assoc : (a b d : Bool) → ((a || b) || d) ≡ (a || (b || d))
      assoc true b d = refl
      assoc false b d = refl

  scan-Scanned :
      (flag : Bool) (l : List Child) → Scanned flag l (scan_children pid nohang untraced flag c l)
  unfolding scan_children any_waits on_step
  scan-Scanned flag [] = none_ready tt (ap (after_scan nohang) (unit flag))
    where
      unit : (a : Bool) → a ≡ (a || false)
      unit true = refl
      unit false = refl
  scan-Scanned flag (p ∷ rest) =
      wanted_step flag p rest (is_wanted pid c.pgrp p) (on_child untraced p) refl refl _
        (scan-Scanned (flag || waits_for p) rest)
    where
      wanted_step :
          (flag : Bool) (p : Child) (rest : List Child) (b : Bool) (s : Step)
          → is_wanted pid c.pgrp p ≡ b
          → on_child untraced p ≡ s
          → (w : Waited) → Scanned (flag || waits_for p) rest w
          → Scanned flag (p ∷ rest) (if b then on_step s p rest c w else keep p w)
      wanted_step flag p rest false s e f w r = keep-Scanned flag p rest w (rw e refl) r
      wanted_step flag p rest true done_stopped e f w r =
          first_ready [] p rest refl tt (rw (e, f) refl) (rw f refl)
      wanted_step flag p rest true done_zombie e f w r =
          first_ready [] p rest refl tt (rw (e, f) refl) (rw f refl)
      wanted_step flag p rest true passed e f w r = keep-Scanned flag p rest w (rw (e, f) refl) r
      wanted_step flag p rest true waiting e f w r = keep-Scanned flag p rest w (rw (e, f) refl) r

  -- `sys_waitpid` reports the first child that is wanted and has something to report, a zombie or a
  -- stopped child that was asked for. A zombie is then gone from the children, and its times are
  -- added to the caller's; a stopped child stays, with its exit code cleared. If there is no such
  -- child, the call sleeps, or returns 0 with WNOHANG, exactly if a wanted child runs or sleeps, and
  -- fails with ECHILD otherwise.
  pub sys_waitpid-Scanned : Scanned false c.children (sys_waitpid pid nohang untraced c)
  unfolding sys_waitpid
  sys_waitpid-Scanned = scan-Scanned false c.children

unfoldable pub AllStopped : List Child → Type 0
AllStopped [] = Unit
AllStopped (p ∷ l) = (p.state ≡ stopped) × AllStopped l

on_child-stopped : (p : Child) → p.state ≡ stopped → on_child false p ≡ passed
unfolding on_child
on_child-stopped p e = rw e refl

only_stopped :
    (pid : ℤ) (nohang : Bool) (c : Parent) (l : List Child)
    → AllStopped l
    → scan_children pid nohang false false c l ≡ echild
unfolding AllStopped scan_children on_step keep after_scan
only_stopped pid nohang c [] h = refl
only_stopped pid nohang c (p ∷ l) (e, h) =
    let rest = only_stopped pid nohang c l h in
    elim (Bool-cases (is_wanted pid c.pgrp p)) [
      | inl y ↦ rw (y, on_child-stopped p e, rest) refl
      | inr n ↦ rw (n, rest) refl
    ]

-- A caller all of whose children are stopped, and who does not ask for stopped children, is told
-- that it has no children, with or without WNOHANG.
pub sys_waitpid-stopped :
    (pid : ℤ) (nohang : Bool) (c : Parent)
    → AllStopped c.children
    → sys_waitpid pid nohang false c ≡ echild
unfolding sys_waitpid
sys_waitpid-stopped pid nohang c h = only_stopped pid nohang c c.children h
