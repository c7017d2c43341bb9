-- ===== src/Sched/Choose.antt =====
-- The selection loop ends after two rounds at most, with the task that has the most time left.
use linux.Base.{
  ℕ, zero, suc, ◌≤◌, ◌<◌, ◌≡◌, refl, ap, sym, ◌∙◌, ◌⊎◌, inl, inr, ◌≢◌, false, Option, none, some,
  arith, [], ◌∷◌, map, get_or,
}
use linux.Base.Int.{ℤ, pos, negsuc, ◌≤ℤ◌, ◌<ℤ◌, pos_part, neg_part, ◌+ℤ◌, shr_one}
use linux.Sched.{
  Task, Table, running, task_at, map_entry, map_tasks, recharge_task, pick, is_zero, choose,
  schedule, check_task,
}
use linux.Sched.Pick.{Picked, pick-Max, pick-Picked}

-- Every task but the idle one has a counter that is not negative and a positive priority.
abbrev pub IsValid : Table → Type 0
IsValid ts =
    (i : ℕ) (t : Task)
    → 0 < i
    → task_at ts i ≡ some t
    → (pos 0 ≤ℤ t.counter) × (pos 1 ≤ℤ t.priority)

-- No task but the idle one is runnable.
abbrev pub NoneRunnable : Table → Type 0
NoneRunnable ts = (i : ℕ) (t : Task) → 0 < i → i ≤ 63 → task_at ts i ≡ some t → t.state ≢ running

-- Every runnable task has used up its time.
abbrev pub AllSpent : Table → Type 0
AllSpent ts =
    (i : ℕ) (t : Task)
    → 0 < i
    → i ≤ 63
    → task_at ts i ≡ some t
    → t.state ≡ running
    → t.counter ≡ pos 0

-- `next` is a runnable task with time left, and none has more.
pub record IsBest (ts : Table) (next : ℕ) : Type 0 where
  pub counter : ℤ
  pub picked : Picked ts 63 (counter, next)
  pub time_left : pos 0 <ℤ counter
  pub best :
      (i : ℕ) (t : Task)
      → 0 < i
      → i ≤ 63
      → task_at ts i ≡ some t
      → t.state ≡ running
      → t.counter ≤ℤ counter

abbrev pub Chosen : Table → ℕ → Table → Type 0
Chosen ts next ts' =
    ((ts' ≡ ts) ⊎ (AllSpent ts × (ts' ≡ map_tasks recharge_task ts)))
    × (((next ≡ 0) × NoneRunnable ts') ⊎ IsBest ts' next)

get_or-map :
    (f : Task → Task) (ts : Table) (i : ℕ)
    → get_or (map (map_entry f) ts) i none ≡ map_entry f (get_or ts i none)
get_or-map f [] i = refl
get_or-map f (e ∷ ts) zero = refl
get_or-map f (e ∷ ts) (suc i) = get_or-map f ts i

pub task_at-map_tasks :
    (f : Task → Task) (ts : Table) (i : ℕ)
    → 0 < i
    → task_at (map_tasks f ts) i ≡ map_entry f (task_at ts i)
task_at-map_tasks f ts zero h = absurd (omega arith)
task_at-map_tasks f [] (suc i) h = refl
task_at-map_tasks f (e ∷ ts) (suc i) h = get_or-map f ts i

-- An entry after the pass comes from one before it.
map_entry-some :
    (f : Task → Task) (e : Option Task) (t : Task)
    → map_entry f e ≡ some t
    → (s : Task) × (e ≡ some s) × (f s ≡ t)
map_entry-some f none t h = cc
map_entry-some f (some s) t h = (s, refl, cc)

pub task_before :
    (f : Task → Task) (ts : Table) (i : ℕ) (t : Task)
    → 0 < i
    → task_at (map_tasks f ts) i ≡ some t
    → (s : Task) × (task_at ts i ≡ some s) × (f s ≡ t)
task_before f ts i t h e = map_entry-some f (task_at ts i) t (sym (task_at-map_tasks f ts i h) ∙ e)

IsBest-intro :
    (ts : Table) (next : ℕ) (c : ℤ)
    → pick ts 63 (negsuc 0, 0) ≡ (c, next)
    → Picked ts 63 (c, next)
    → pos 0 <ℤ c
    → IsBest ts next
IsBest-intro ts next c e p h = record {
  counter = c;
  picked = p;
  time_left = h;
  best = λ i t hi hk at r.
      rw (ap (λ (x : ℤ × ℕ). x.0) e) at (pick-Max ts 63 i (negsuc 0, 0) t hi hk at r);
}

abbrev Round : Table → Type 0
Round ts =
    ((pick ts 63 (negsuc 0, 0) ≡ (negsuc 0, 0)) × NoneRunnable ts)
    ⊎ ((c : ℤ) × (next : ℕ) × (pick ts 63 (negsuc 0, 0) ≡ (c, next))
        × (is_zero c ≡ false)
        × IsBest ts next)
    ⊎ ((next : ℕ) × (pick ts 63 (negsuc 0, 0) ≡ (pos 0, next))
        × Picked ts 63 (pos 0, next)
        × AllSpent ts)

Round-some :
    (ts : Table)
    → IsValid ts
    → (r : ℤ × ℕ) → pick ts 63 (negsuc 0, 0) ≡ r
    → Picked ts 63 r
    → Round ts
Round-some ts v (negsuc n, next) e p = absurd (
    omega
      (arith, v next p.task p.not_idle p.at_entry, ap neg_part p.counter, ap pos_part p.counter))
Round-some ts v (pos zero, next) e p = inr (
    inr (
      next,
      e,
      p,
      λ i t hi hk at r. ground (
        arith,
        v i t hi at,
        rw (ap (λ (x : ℤ × ℕ). x.0) e) at (pick-Max ts 63 i (negsuc 0, 0) t hi hk at r),
      ),
    ))
Round-some ts v (pos (suc n), next) e p =
    inr (
      inl
        (pos (suc n), next, e, ground arith, IsBest-intro ts next (pos (suc n)) e p (omega arith)))

round : (ts : Table) → IsValid ts → Round ts
round ts v = elim (pick-Picked ts 63 (negsuc 0, 0)) [
  | inl p ↦ Round-some ts v (pick ts 63 (negsuc 0, 0)) refl p
  | inr e ↦ inl (
    e,
    λ i t hi hk at r. absurd (
        omega (
          arith,
          v i t hi at,
          rw (ap (λ (x : ℤ × ℕ). x.0) e) at (pick-Max ts 63 i (negsuc 0, 0) t hi hk at r),
        )),
  )
]

recharge-pos :
    (s : Task) → pos 0 ≤ℤ s.counter → pos 1 ≤ℤ s.priority → pos 1 ≤ℤ (recharge_task s).counter
unfolding recharge_task ◌+ℤ◌ shr_one
recharge-pos s h k = ground arith

recharge-priority : (s : Task) → (recharge_task s).priority ≡ s.priority
unfolding recharge_task
recharge-priority s = refl

recharge-state : (s : Task) → (recharge_task s).state ≡ s.state
unfolding recharge_task
recharge-state s = refl

recharge-IsValid : (ts : Table) → IsValid ts → IsValid (map_tasks recharge_task ts)
recharge-IsValid ts v i t hi at =
    let (s, before, e) = task_before recharge_task ts i t hi at in
    let old = v i s hi before in
    rw (← e) (omega (arith, recharge-pos s old.0 old.1, old.1), rw (recharge-priority s) old.1)

-- After a recharge the task that was picked has time left.
recharged-Picked :
    (ts : Table) (next : ℕ)
    → IsValid ts
    → Picked ts 63 (pos 0, next)
    → (t : Task) × (task_at (map_tasks recharge_task ts) next ≡ some t)
      × (t.state ≡ running)
      × (pos 1 ≤ℤ t.counter)
recharged-Picked ts next v p =
    let old = v next p.task p.not_idle p.at_entry in
    (
      recharge_task p.task,
      task_at-map_tasks recharge_task ts next p.not_idle ∙ ap (map_entry recharge_task) p.at_entry,
      recharge-state p.task ∙ p.runnable,
      recharge-pos p.task old.0 old.1,
    )

-- After a recharge the selection ends.
second_round :
    (ts : Table) (next : ℕ)
    → IsValid ts
    → Picked ts 63 (pos 0, next)
    → let ts' = map_tasks recharge_task ts in
      (n : ℕ) × (choose 1 ts' ≡ some (n, ts')) × IsBest ts' n
unfolding choose
second_round ts next v p =
    let (t, at, r, left) = recharged-Picked ts next v p in
    elim (round (map_tasks recharge_task ts) (recharge-IsValid ts v)) [
      | inl (e, nothing) ↦ absurd (nothing next t p.not_idle p.in_table at r)
      | inr (inl (c, n, e, z, b)) ↦ (n, rw (e, z), b)
      | inr (inr (n, e, q, spent)) ↦
          absurd (omega (arith, ap pos_part (spent next t p.not_idle p.in_table at r), left))
    ]

-- The loop of `schedule` ends: two rounds are enough. It leaves the table as it was, or, when every
-- runnable task has used up its time, recharged once. It chooses the idle task exactly when no
-- other is runnable, and otherwise a runnable task with time left such that none has more.
pub choose_lem :
    (ts : Table)
    → IsValid ts
    → (next : ℕ) × (ts' : Table) × (choose 2 ts ≡ some (next, ts')) × Chosen ts next ts'
unfolding choose
choose_lem ts v = elim (round ts v) [
  | inl (e, nothing) ↦ (0, ts, rw e, (inl refl, inl (refl, nothing)))
  | inr (inl (c, next, e, z, b)) ↦ (next, ts, rw (e, z), (inl refl, inr b))
  | inr (inr (next, e, p, spent)) ↦
      let (n, e', b) = second_round ts next v p in
      (n, map_tasks recharge_task ts, rw e e', (inr (spent, refl), inr b))
]

check_task-counter :
    (jiffies : ℕ) (s : Task)
    → ((check_task jiffies s).counter ≡ s.counter) × ((check_task jiffies s).priority ≡ s.priority)
unfolding check_task
check_task-counter jiffies s = ground arith

check_tasks-IsValid :
    (jiffies : ℕ) (ts : Table) → IsValid ts → IsValid (map_tasks (check_task jiffies) ts)
check_tasks-IsValid jiffies ts v i t hi at =
    let (s, before, e) = task_before (check_task jiffies) ts i t hi at in
    let (c, p) = check_task-counter jiffies s in rw (← e, c, p) (v i s hi before)

-- `schedule` returns a choice for every table of tasks whose counters are not negative and whose
-- priorities are positive: from the table that the wake-up pass leaves, the idle task if no other
-- is runnable, and otherwise a runnable task with time left such that none has more. It recharges
-- the counters once at most, and only if every runnable task had used up its time.
pub schedule_lem :
    (jiffies : ℕ) (ts : Table)
    → IsValid ts
    → (next : ℕ) × (ts' : Table) × (schedule 2 jiffies ts ≡ some (next, ts'))
      × Chosen (map_tasks (check_task jiffies) ts) next ts'
unfolding schedule
schedule_lem jiffies ts v =
    choose_lem (map_tasks (check_task jiffies) ts) (check_tasks-IsValid jiffies ts v)

-- A recharge keeps every counter between 0 and twice the priority, and never lowers a counter that
-- is at most twice the priority; so no task can save up more than two turns.
pub recharge_bounds :
    (s : Task)
    → pos 0 ≤ℤ s.counter
    → pos 0 ≤ℤ s.priority
    → s.counter ≤ℤ s.priority +ℤ s.priority
    → (s.counter ≤ℤ (recharge_task s).counter)
      × ((recharge_task s).counter ≤ℤ s.priority +ℤ s.priority)
unfolding recharge_task ◌+ℤ◌ shr_one
recharge_bounds s h k b = ground arith
