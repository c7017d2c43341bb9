-- ===== src/Timer/Add.antt =====
-- Where `add_timer` puts a new timer, and what that does to the others.
use mathlib.Core.Path.{subst}
use linux.Base.{
  ℕ, ◌≢◌, ◌<◌, ◌≡◌, refl, ap, ap₂, ◌∙◌, inl, inr, List, [], ◌∷◌, ◌++◌, map, arith, Bool-cases,
  length,
}
use linux.Base.Int.{ℤ, pos, ◌+ℤ◌, ◌-ℤ◌, ◌<ℤ◌, ◌≤ℤ◌, ltb_ℤ, int_laws, +ℤ_parts, -ℤ_parts}
use linux.Timer.{Timer, sink, time_requests, add_timer, queued}

-- The tick at which each timer runs, counted from `from`: the deltas add up.
unfoldable pub due : ℤ → List Timer → List (ℤ × ℕ)
due from [] = []
due from (t ∷ ts) = (from +ℤ t.delta, t.fn) ∷ due (from +ℤ t.delta) ts

-- The tick at which the last timer of a list runs.
unfoldable pub last_due : ℤ → List Timer → ℤ
last_due from [] = from
last_due from (t ∷ ts) = last_due (from +ℤ t.delta) ts

pub due-append :
    (from : ℤ) (xs ys : List Timer) → due from (xs ++ ys) ≡ due from xs ++ due (last_due from xs) ys
unfolding due last_due
due-append from [] ys = refl
due-append from (x ∷ xs) ys =
    ap (λ l. (from +ℤ x.delta, x.fn) ∷ l) (due-append (from +ℤ x.delta) xs ys)

-- Every timer of a schedule runs before the tick `at`.
abbrev pub AllBefore : ℤ → List (ℤ × ℕ) → Type 0
AllBefore at [] = Unit
AllBefore at ((x, fn) ∷ l) = (x <ℤ at) × AllBefore at l

-- The first timer of a schedule does not.
abbrev pub FirstNotBefore : ℤ → List (ℤ × ℕ) → Type 0
FirstNotBefore at [] = Unit
FirstNotBefore at ((x, fn) ∷ l) = at ≤ℤ x

-- The chain after `add_timer` falls into the timers before the new one, it, and those after.
pub record Placed (from : ℤ) (p : Timer) (chain out : List Timer) : Type 0 where
  pub before : List Timer
  pub after : List Timer
  pub new : Timer
  pub split : chain ≡ before ++ after
  pub joined : out ≡ before ++ new ∷ after
  pub same_fn : new.fn ≡ p.fn
  pub on_time : last_due from before +ℤ new.delta ≡ from +ℤ p.delta
  pub positive : pos 0 <ℤ new.delta
  pub in_front : AllBefore (from +ℤ p.delta) (due from before)
  pub behind : FirstNotBefore (from +ℤ p.delta) (due (last_due from before) after)

sink-Placed :
    (from : ℤ) (p : Timer) (chain : List Timer)
    → pos 0 <ℤ p.delta
    → Placed from p chain (sink p chain)
unfolding sink last_due due
sink-Placed from p [] h = record {
  before = [];
  after = [];
  new = p;
  split = refl;
  joined = refl;
  same_fn = refl;
  on_time = refl;
  positive = h;
  in_front = tt;
  behind = tt;
}
sink-Placed from p (n ∷ rest) h = elim (Bool-cases (ltb_ℤ n.delta p.delta)) [
  | inr stop ↦ record {
    before = [];
    after = n ∷ rest;
    new = p;
    split = refl;
    joined = rw stop;
    same_fn = refl;
    on_time = refl;
    positive = h;
    in_front = tt;
    behind =
        (let more : p.delta ≤ℤ n.delta = ground arith in
          omega (arith, more, +ℤ_parts from p.delta, +ℤ_parts from n.delta));
  }
  | inl go ↦
      let q : Timer = record p { delta = p.delta -ℤ n.delta } in
      let less : n.delta <ℤ p.delta = ground arith in
      let r = sink-Placed (from +ℤ n.delta) q rest (omega (arith, -ℤ_parts p.delta n.delta)) in
      record {
        before = n ∷ r.before;
        after = r.after;
        new = r.new;
        split = ap (λ l. n ∷ l) r.split;
        joined = rw go (ap (λ l. n ∷ l) r.joined);
        same_fn = r.same_fn;
        on_time = r.on_time ∙ regroup from n.delta p.delta;
        positive = r.positive;
        in_front = (
          omega (arith, less, +ℤ_parts from p.delta, +ℤ_parts from n.delta),
          subst (λ x. AllBefore x (due (from +ℤ n.delta) r.before)) (regroup from n.delta p.delta)
              r.in_front,
        );
        behind =
            subst (λ x. FirstNotBefore x (due (last_due (from +ℤ n.delta) r.before) r.after))
              (regroup from n.delta p.delta) r.behind;
      }
]
  where
    regroup : (a b c : ℤ) → a +ℤ b +ℤ (c -ℤ b) ≡ a +ℤ c
    regroup a b c = omega int_laws

shift : ℤ → ℤ × ℕ → ℤ × ℕ
shift d (at, fn) = (at +ℤ d, fn)

-- Every timer runs `d` ticks later.
unfoldable pub delayed : ℤ → List (ℤ × ℕ) → List (ℤ × ℕ)
unfolding shift
delayed d l = map (shift d) l

due-delayed : (a d : ℤ) (ts : List Timer) → due (a +ℤ d) ts ≡ delayed d (due a ts)
unfolding due delayed
due-delayed a d [] = refl
due-delayed a d (t ∷ ts) =
    ap₂ ◌∷◌ (ap (λ x. (x, t.fn)) (swap a d t.delta))
      (ap (λ x. due x ts) (swap a d t.delta) ∙ due-delayed (a +ℤ t.delta) d ts)
  where
    swap : (a b c : ℤ) → a +ℤ b +ℤ c ≡ a +ℤ c +ℤ b
    swap a b c = omega int_laws

-- The schedule of a chain before and after `add_timer` has put in a timer for `at`.
pub record Scheduled (at : ℤ) (fn : ℕ) (chain out : List Timer) : Type 0 where
  pub sooner : List (ℤ × ℕ)
  pub later : List (ℤ × ℕ)
  pub delay : ℤ
  pub was : due (pos 0) chain ≡ sooner ++ later
  pub is : due (pos 0) out ≡ sooner ++ (at, fn) ∷ delayed delay later
  pub late : pos 0 <ℤ delay
  pub earlier : AllBefore at sooner
  pub not_earlier : FirstNotBefore at later

Placed-Scheduled :
    (p : Timer) (chain out : List Timer)
    → Placed (pos 0) p chain out
    → Scheduled p.delta p.fn chain out
unfolding due
Placed-Scheduled p chain out q = record {
  sooner = due (pos 0) q.before;
  later = due last q.after;
  delay = q.new.delta;
  was = ap (due (pos 0)) q.split ∙ due-append (pos 0) q.before q.after;
  is =
      ap (due (pos 0)) q.joined
      ∙ due-append (pos 0) q.before (q.new ∷ q.after)
      ∙ ap₂ (λ x y. due (pos 0) q.before ++ x ∷ y)
          (ap₂ (λ x y. (x, y)) (q.on_time ∙ zero-add p.delta) q.same_fn)
          (due-delayed last q.new.delta q.after);
  late = q.positive;
  earlier = subst (λ x. AllBefore x (due (pos 0) q.before)) (zero-add p.delta) q.in_front;
  not_earlier = subst (λ x. FirstNotBefore x (due last q.after)) (zero-add p.delta) q.behind;
}
  where
    last : ℤ
    last = last_due (pos 0) q.before

    zero-add : (a : ℤ) → pos 0 +ℤ a ≡ a
    zero-add a = omega int_laws

-- `add_timer` with a positive time, a function and a free slot puts the timer into the chain, such
-- that it runs exactly at that time. In front of it are timers that run at an earlier tick, and they
-- are not touched; the timer behind it was to run no earlier. Every timer behind it runs later than it
-- did, all by the same positive delay.
pub add_timer_lem :
    (jiffies : ℤ) (fn : ℕ) (chain : List Timer)
    → pos 0 <ℤ jiffies
    → fn ≢ 0
    → length chain < time_requests
    → (out : List Timer) × (add_timer jiffies fn chain ≡ queued out)
      × Scheduled jiffies fn chain out
unfolding add_timer
add_timer_lem jiffies fn chain h f l =
    let p : Timer = record { delta = jiffies; fn = fn } in
    (
      sink p chain,
      ground arith,
      Placed-Scheduled p chain (sink p chain) (sink-Placed (pos 0) p chain h),
    )

-- All deltas of a chain are positive.
abbrev pub IsPositive : List Timer → Type 0
IsPositive [] = Unit
IsPositive (t ∷ ts) = (pos 0 <ℤ t.delta) × IsPositive ts

-- A timer that sinks into a chain keeps its deltas positive.
pub sink-IsPositive :
    (p : Timer) (chain : List Timer)
    → pos 0 <ℤ p.delta
    → IsPositive chain
    → IsPositive (sink p chain)
unfolding sink
sink-IsPositive p [] h v = (h, tt)
sink-IsPositive p (n ∷ rest) h v = elim (Bool-cases (ltb_ℤ n.delta p.delta)) [
  | inr stop ↦ rw stop (h, v)
  | inl go ↦
      let less : n.delta <ℤ p.delta = ground arith in
      rw go (
        v.0,
        sink-IsPositive (record p { delta = p.delta -ℤ n.delta }) rest
            (omega (arith, -ℤ_parts p.delta n.delta)) v.1,
      )
]

-- If all deltas of the chain are positive, so are those of the chain that `add_timer` leaves.
pub add_timer-IsPositive :
    (jiffies : ℤ) (fn : ℕ) (chain out : List Timer)
    → IsPositive chain
    → add_timer jiffies fn chain ≡ queued out
    → IsPositive out
unfolding add_timer
add_timer-IsPositive jiffies fn chain out v e =
    ground (arith, sink-IsPositive (record { delta = jiffies; fn = fn }) chain)
