-- ===== src/Format/Ended.antt =====
-- kernel/vsprintf.c: how the loop of `vsprintf` ends.
use linux.Base.{
  ℕ, zero, suc, ◌≤◌, ◌≡◌, refl, List, [], ◌∷◌, Option, none, some, ◌>>=◌, length, arith,
}
use linux.Format.Convert.{Arg, Progress, turn, vsprintf_from}
use linux.Format.Fuel.{Shrinks, turn-Shrinks}

-- Turns of the loop that lead from `p` to `r`.
pub data Turns : Progress → Progress → Type 0 where
  here : (p : Progress) → Turns p p
  next :
      (p q r : Progress) (c : ℕ) (s : List ℕ)
      → p.fmt ≡ c ∷ s
      → turn c (record p { fmt = s }) ≡ some q
      → Turns q r
      → Turns p r

-- The loop has come to the end of the format, with what it has printed; or to a directive that fails, as
-- one does that lacks an argument.
pub data Ended (p : Progress) (result : Option Progress) : Type 0 where
  finished : (q : Progress) → Turns p q → q.fmt ≡ [] → result ≡ some q → Ended p result
  failed :
      (q : Progress) (c : ℕ) (s : List ℕ)
      → Turns p q
      → q.fmt ≡ c ∷ s
      → turn c (record q { fmt = s }) ≡ none
      → result ≡ none
      → Ended p result

Ended-next :
    (p q : Progress) (c : ℕ) (s : List ℕ) (result : Option Progress)
    → p.fmt ≡ c ∷ s
    → turn c (record p { fmt = s }) ≡ some q
    → Ended q result
    → Ended p result
Ended-next p q c s result e t (finished r w z k) = finished r (next p q r c s e t w) z k
Ended-next p q c s result e t (failed r d u w z f k) = failed r d u (next p q r c s e t w) z f k

vsprintf_from-Ended :
    (fuel : ℕ) (fmt : List ℕ) (p : Progress)
    → length fmt ≤ fuel
    → p.fmt ≡ fmt
    → Ended p (vsprintf_from fuel fmt p)
unfolding vsprintf_from
vsprintf_from-Ended zero [] p h e = finished p (here p) e refl
vsprintf_from-Ended (suc fuel) [] p h e = finished p (here p) e refl
vsprintf_from-Ended zero (c ∷ s) p h e = absurd (omega arith)
vsprintf_from-Ended (suc fuel) (c ∷ s) p h e =
    go (turn c (record p { fmt = s })) refl (turn-Shrinks c (record p { fmt = s }))
      (λ q le. vsprintf_from-Ended fuel q.fmt q (omega arith) refl)
  where
    go :
        (o : Option Progress)
        → turn c (record p { fmt = s }) ≡ o
        → Shrinks (length s) o
        → ((q : Progress) → length q.fmt ≤ length s → Ended q (vsprintf_from fuel q.fmt q))
        → Ended p (o >>= (λ q. vsprintf_from fuel q.fmt q))
    go none t le rest = failed p c s (here p) e t refl
    go (some q) t le rest = Ended-next p q c s _ e t (rest q le)

-- With as many turns as the format is long, or more, the loop of `vsprintf` ends: it comes to the end of
-- the format and gives what it has printed, or it comes to a directive that fails, and only then it
-- gives no result. It does not run out of turns.
pub vsprintf-Ended :
    (fuel : ℕ) (fmt : List ℕ) (args : List Arg)
    → length fmt ≤ fuel
    → let start : Progress = record { fmt = fmt; args = args; text = []; stored = [] } in
      Ended start (vsprintf_from fuel fmt start)
vsprintf-Ended fuel fmt args h =
    vsprintf_from-Ended fuel fmt (record { fmt = fmt; args = args; text = []; stored = [] }) h refl
