-- ===== src/Signal/Stop.antt =====
-- SIGCONT and the stop signals are never pending together.
use linux.Base.{
  ℕ, ◌-◌, ◌≤◌, ◌<◌, ◌≡◌, refl, ◌⊎◌, inl, inr, ◌==◌, ◌&&◌, ◌||◌, leb, if◌then◌else◌, arith,
  Bool-cases,
}
use linux.Base.Bits.{bit, bit_and, bit_or, bit_not, one_shl, bit-bit_and}
use linux.Base.Masks.{bit-set_bit, bit-clear_bit}
use linux.Signal.{Receiver, resume, forget_cont, deliver, stop_mask, sys_ssetmask}

-- Not both SIGCONT and a stop signal are set.
abbrev pub IsExclusive : ℕ → Type 0
IsExclusive w = (bit w 17 ≡ 0) ⊎ ((bit w 18 ≡ 0) × (bit w 19 ≡ 0) × (bit w 20 ≡ 0) × (bit w 21 ≡ 0))

cleared : (w m n : ℕ) → bit m n ≡ 0 → bit (bit_and w m) n ≡ 0
cleared w m n e = omega (arith, bit-bit_and w m n)

stop_bits :
    (w : ℕ)
    → let v = bit_and w (bit_not 32 stop_mask) in
      (bit v 18 ≡ 0) × (bit v 19 ≡ 0) × (bit v 20 ≡ 0) × (bit v 21 ≡ 0)
unfolding bit bit_not one_shl
stop_bits w =
    let m = bit_not 32 stop_mask in
    (cleared w m 18 refl, cleared w m 19 refl, cleared w m 20 refl, cleared w m 21 refl)

-- The pending signals with those taken away that the signal `sig` makes void.
abbrev left_over : ℕ → ℕ → ℕ
left_over sig w =
    let v = if sig == 9 || sig == 18 then bit_and w (bit_not 32 stop_mask) else w in
    if leb 19 sig && leb sig 22 then bit_and v (bit_not 32 (one_shl 17)) else v

signal-deliver :
    (sig : ℕ) (t : Receiver)
    → (deliver sig t).signal ≡ bit_or (left_over sig t.signal) (one_shl (sig - 1))
unfolding deliver resume forget_cont
signal-deliver sig t = ground arith

raised-IsExclusive :
    (sig w : ℕ)
    → 1 ≤ sig
    → IsExclusive w
    → IsExclusive (bit_or (left_over sig w) (one_shl (sig - 1)))
raised-IsExclusive sig w h x =
    let set_at = λ (n : ℕ). bit-set_bit (left_over sig w) (sig - 1) n in
    elim (Bool-cases (sig == 9 || sig == 18)) [
      | inl resumed ↦
          let v : left_over sig w ≡ bit_and w (bit_not 32 stop_mask) = ground arith in
          let stops = stop_bits w in
          inr (
            ground (arith, set_at 18, v, stops),
            ground (arith, set_at 19, v, stops),
            ground (arith, set_at 20, v, stops),
            ground (arith, set_at 21, v, stops),
          )
      | inr plain ↦ elim (Bool-cases (leb 19 sig && leb sig 22)) [
        | inl stop ↦
            let v : left_over sig w ≡ bit_and w (bit_not 32 (one_shl 17)) = ground arith in
            inl (ground (arith, set_at 17, v, bit-clear_bit 32 w 17 17 (omega arith) (omega arith)))
        | inr other ↦
            let v : left_over sig w ≡ w = ground arith in
            ground (arith, x, v, set_at 17, set_at 18, set_at 19, set_at 20, set_at 21)
      ]
    ]

-- Sending a signal to a task makes it pending, whether it is traced or not, and keeps SIGCONT and
-- the four stop signals from being pending together.
pub deliver-IsExclusive :
    (sig : ℕ) (t : Receiver)
    → 1 ≤ sig
    → IsExclusive t.signal
    → (bit (deliver sig t).signal (sig - 1) ≡ 1) × IsExclusive (deliver sig t).signal
deliver-IsExclusive sig t h x = rw (signal-deliver sig t) (
  ground (arith, bit-set_bit (left_over sig t.signal) (sig - 1) (sig - 1)),
  raised-IsExclusive sig t.signal h x,
)

-- `sys_ssetmask` blocks exactly the signals of the new mask, but never SIGKILL or SIGSTOP.
pub bit-sys_ssetmask :
    (newmask n : ℕ)
    → n < 32
    → bit (sys_ssetmask newmask) n ≡ (if n == 8 || n == 18 then 0 else bit newmask n)
unfolding sys_ssetmask
bit-sys_ssetmask newmask n h = ground (
  arith,
  bit-clear_bit 32 (bit_and newmask (bit_not 32 (one_shl 8))) 18 n (omega arith) h,
  bit-clear_bit 32 newmask 8 n (omega arith) h,
)
