-- ===== src/Timer/Expire.antt =====
-- What one tick of `do_timer` does to the chain.
use linux.Base.{
  ℕ, suc, ◌≡◌, refl, inl, inr, true, some, List, [], ◌∷◌, arith, Bool-cases, if◌then◌else◌,
}
use linux.Base.Int.{pos, ◌-ℤ◌, ◌<ℤ◌, leb_ℤ, ltb_ℤ, -ℤ_parts}
use linux.Timer.{Timer, expire, tick}
use linux.Timer.Add.{IsPositive}

module _ (call : ℕ → List Timer → List Timer)
    (keeps : (fn : ℕ) (chain : List Timer) → IsPositive chain → IsPositive (call fn chain)) where
  expire-IsPositive :
      (fuel : ℕ) (chain : List Timer) → IsPositive chain → expire call (suc fuel) chain ≡ some chain
  unfolding expire
  expire-IsPositive fuel [] v = refl
  expire-IsPositive fuel (t ∷ rest) v = ground arith

  -- On a chain with positive deltas, and timer functions that keep them so, one tick of `do_timer`
  -- ends: at most one timer runs, the first if its delta was 1, on the rest of the chain; otherwise
  -- the first delta falls by 1 and the other timers stay. The deltas stay positive.
  pub tick_lem :
      (t : Timer) (rest : List Timer)
      → IsPositive (t ∷ rest)
      → let after =
          if ltb_ℤ (pos 1) t.delta
          then record t { delta = t.delta -ℤ pos 1 } ∷ rest
          else call t.fn rest in
        (tick call 2 (t ∷ rest) ≡ some after) × IsPositive after
  unfolding tick
  tick_lem t rest v = elim (Bool-cases (ltb_ℤ (pos 1) t.delta)) [
    | inl more ↦
        let left : pos 0 <ℤ t.delta -ℤ pos 1 = ground (arith, -ℤ_parts t.delta (pos 1)) in
        rw more (
          expire-IsPositive 1 (record t { delta = t.delta -ℤ pos 1 } ∷ rest) (left, v.1),
          (left, v.1),
        )
    | inr due ↦
        let spent : leb_ℤ (t.delta -ℤ pos 1) (pos 0) ≡ true =
          ground (arith, -ℤ_parts t.delta (pos 1)) in
        rw (due, expire, spent)
          (expire-IsPositive 0 (call t.fn rest) (keeps t.fn rest v.1), keeps t.fn rest v.1)
  ]
