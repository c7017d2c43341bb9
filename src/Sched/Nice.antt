-- ===== src/Sched/Nice.antt =====
-- `sys_nice`, and what `schedule` does when the priorities that it leaves are 0.
use linux.Base.{
  ℕ, zero, suc, ◌≤◌, ◌<◌, ◌≡◌, refl, ap, ◌∙◌, ◌↔◌, inl, inr, Bool, true, false, none, some, arith,
}
use linux.Base.Int.{ℤ, pos, negsuc, ◌≤ℤ◌, ◌<ℤ◌, ◌-ℤ◌, ◌+ℤ◌, shr_one, pos_part, neg_part}
use linux.Sched.{
  Task, Table, running, task_at, map_tasks, map_entry, recharge_task, pick, choose, is_zero,
  sys_nice,
}
use linux.Sched.Pick.{pick-Max, pick-Picked}
use linux.Sched.Choose.{task_at-map_tasks, task_before}

-- `sys_nice` subtracts an increment up to the priority, and sets the priority to 1 for a larger one;
-- one that is not the superuser cannot raise it. A positive priority does not become negative, and
-- becomes 0 exactly when the increment equals it.
pub sys_nice_lem :
    (suser : Bool) (increment : ℤ) (t t' : Task)
    → pos 1 ≤ℤ t.priority
    → sys_nice suser increment t ≡ some t'
    → (pos 0 ≤ℤ t'.priority)
      × (suser ≡ false → t'.priority ≤ℤ t.priority)
      × (increment ≤ℤ t.priority → t'.priority ≡ t.priority -ℤ increment)
      × (t.priority <ℤ increment → t'.priority ≡ pos 1)
      × ((t'.priority ≡ pos 0) ↔ (increment ≡ t.priority))
unfolding sys_nice ◌-ℤ◌
sys_nice_lem suser increment t t' h e =
    (ground arith, ground arith, ground arith, ground arith, (ground arith, ground arith))

-- Some task is runnable, and every runnable task but the idle one has no time left and priority 0.
pub record IsStuck (ts : Table) : Type 0 where
  pub entry : ℕ
  pub task : Task
  pub in_table : (0 < entry) × (entry ≤ 63)
  pub at_entry : task_at ts entry ≡ some task
  pub runnable : task.state ≡ running
  pub spent :
      (i : ℕ) (t : Task)
      → 0 < i
      → task_at ts i ≡ some t
      → t.state ≡ running
      → (t.counter ≡ pos 0) × (t.priority ≡ pos 0)

recharge-stuck :
    (s t : Task)
    → recharge_task s ≡ t
    → t.state ≡ running
    → (s.state ≡ running → (s.counter ≡ pos 0) × (s.priority ≡ pos 0))
    → (t.counter ≡ pos 0) × (t.priority ≡ pos 0)
unfolding recharge_task ◌+ℤ◌ shr_one
recharge-stuck s t e r h = ground (arith, h)

recharge-state : (s : Task) → s.state ≡ running → (recharge_task s).state ≡ running
unfolding recharge_task
recharge-state s r = r

recharge-IsStuck : (ts : Table) → IsStuck ts → IsStuck (map_tasks recharge_task ts)
recharge-IsStuck ts k = record {
  entry = k.entry;
  task = recharge_task k.task;
  in_table = k.in_table;
  at_entry =
      task_at-map_tasks recharge_task ts k.entry k.in_table.0
      ∙ ap (map_entry recharge_task) k.at_entry;
  runnable = recharge-state k.task k.runnable;
  spent = λ i t h at r.
      let (s, before, e) = task_before recharge_task ts i t h at in
      recharge-stuck s t e r (k.spent i s h before);
}

pick-IsStuck : (ts : Table) → IsStuck ts → is_zero (pick ts 63 (negsuc 0, 0)).0 ≡ true
pick-IsStuck ts k = elim (pick-Picked ts 63 (negsuc 0, 0)) [
  | inl p ↦ rw (← p.counter, (k.spent _ p.task p.not_idle p.at_entry p.runnable).0) refl
  | inr e ↦ absurd (
      omega (
        arith,
        ap (λ (x : ℤ × ℕ). pos_part x.0) e,
        ap (λ (x : ℤ × ℕ). neg_part x.0) e,
        pick-Max ts 63 k.entry (negsuc 0, 0) k.task k.in_table.0 k.in_table.1 k.at_entry k.runnable,
        ap neg_part (k.spent k.entry k.task k.in_table.0 k.at_entry k.runnable).0,
      ))
]

-- When some task is runnable, and every runnable one has no time left and priority 0, the loop of
-- `schedule` never ends.
pub choose-IsStuck : (fuel : ℕ) (ts : Table) → IsStuck ts → choose fuel ts ≡ none
unfolding choose
choose-IsStuck zero ts k = refl
choose-IsStuck (suc fuel) ts k =
    rw (pick-IsStuck ts k)
      (choose-IsStuck fuel (map_tasks recharge_task ts) (recharge-IsStuck ts k))
