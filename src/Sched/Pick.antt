-- ===== src/Sched/Pick.antt =====
-- The selection loop of `schedule` finds a runnable task with the largest counter.
use native.Mathlib.Decide.{ℕ_discrete}
use linux.Base.{
  ap, sym, ◌∙◌, ◌≢◌, ℕ, zero, suc, ◌≤◌, ◌<◌, ◌≡◌, refl, ◌⊎◌, inl, inr, Option, none, some, arith,
  Bool-cases,
}
use linux.Base.Int.{ℤ, ◌≤ℤ◌, ltb_ℤ}
use linux.Sched.{Task, Table, running, is_running, task_at, consider, pick}

consider-ge : (e : Option Task) (i : ℕ) (c : ℤ) (next : ℕ) → c ≤ℤ (consider e i (c, next)).0
unfolding consider
consider-ge none i c next = omega arith
consider-ge (some t) i c next = ground arith

consider-ge-counter :
    (e : Option Task) (i : ℕ) (c : ℤ) (next : ℕ) (t : Task)
    → e ≡ some t
    → t.state ≡ running
    → t.counter ≤ℤ (consider e i (c, next)).0
unfolding consider
consider-ge-counter e i c next t h r = ground arith

pub pick-ge : (ts : Table) (k : ℕ) (acc : ℤ × ℕ) → acc.0 ≤ℤ (pick ts k acc).0
unfolding pick
pick-ge ts zero acc = omega arith
pick-ge ts (suc k) (c, next) = omega (
  arith,
  pick-ge ts k (consider (task_at ts (suc k)) (suc k) (c, next)),
  consider-ge (task_at ts (suc k)) (suc k) c next,
)

-- No runnable task among `task[1] ... task[k]` has a larger counter than the one returned.
pub pick-Max :
    (ts : Table) (k i : ℕ) (acc : ℤ × ℕ) (t : Task)
    → 0 < i
    → i ≤ k
    → task_at ts i ≡ some t
    → t.state ≡ running
    → t.counter ≤ℤ (pick ts k acc).0
unfolding pick
pick-Max ts zero i acc t h l e r = absurd (omega arith)
pick-Max ts (suc k) i (c, next) t h l e r = elim (ℕ_discrete i (suc k)) [
  | yes p ↦ omega (
    arith,
    pick-ge ts k (consider (task_at ts (suc k)) (suc k) (c, next)),
    consider-ge-counter (task_at ts (suc k)) (suc k) c next t (ap (task_at ts) (sym p) ∙ e) r,
  )
  | no p ↦ pick-Max ts k i (consider (task_at ts (suc k)) (suc k) (c, next)) t h (omega arith) e r
]

-- The task at entry `r.1` is runnable and has the counter `r.0`.
pub record Picked (ts : Table) (k : ℕ) (r : ℤ × ℕ) : Type 0 where
  pub task : Task
  pub at_entry : task_at ts r.1 ≡ some task
  pub runnable : task.state ≡ running
  pub counter : task.counter ≡ r.0
  pub not_idle : 0 < r.1
  pub in_table : r.1 ≤ k

Picked-mono : (ts : Table) (k : ℕ) (r : ℤ × ℕ) → Picked ts k r → Picked ts (suc k) r
Picked-mono ts k r p = record {
  task = p.task;
  at_entry = p.at_entry;
  runnable = p.runnable;
  counter = p.counter;
  not_idle = p.not_idle;
  in_table = omega arith;
}

consider-Picked :
    (ts : Table) (k : ℕ) (e : Option Task) (acc : ℤ × ℕ)
    → task_at ts (suc k) ≡ e
    → Picked ts (suc k) (consider e (suc k) acc) ⊎ (consider e (suc k) acc ≡ acc)
unfolding consider
consider-Picked ts k none acc h = inr refl
consider-Picked ts k (some t) (c, next) h = elim (Bool-cases (is_running t.state)) [
  | inr n ↦ inr (rw n)
  | inl y ↦ elim (Bool-cases (ltb_ℤ c t.counter)) [
    | inr n ↦ inr (rw (y, n))
    | inl m ↦ inl (
        rw (y, m)
          (record {
            task = t;
            at_entry = h;
            runnable = ground arith;
            counter = refl;
            not_idle = omega arith;
            in_table = omega arith;
          }))
  ]
]

-- The loop returns what it was given, or a runnable task that it met.
pub pick-Picked :
    (ts : Table) (k : ℕ) (acc : ℤ × ℕ) → Picked ts k (pick ts k acc) ⊎ (pick ts k acc ≡ acc)
unfolding pick
pick-Picked ts zero acc = inr refl
pick-Picked ts (suc k) acc = elim (pick-Picked ts k (consider (task_at ts (suc k)) (suc k) acc)) [
  | inl p ↦ inl (Picked-mono ts k _ p)
  | inr e ↦ rw e (consider-Picked ts k (task_at ts (suc k)) acc refl)
]

-- With no runnable task the loop returns what it was given.
pub pick_none :
    (ts : Table) (k : ℕ) (acc : ℤ × ℕ)
    → ((i : ℕ) (t : Task) → 0 < i → i ≤ k → task_at ts i ≡ some t → t.state ≢ running)
    → pick ts k acc ≡ acc
pick_none ts k acc h = elim (pick-Picked ts k acc) [
  | inl p ↦ absurd (h (pick ts k acc).1 p.task p.not_idle p.in_table p.at_entry p.runnable)
  | inr e ↦ e
]
