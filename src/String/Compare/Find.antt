-- ===== src/String/Compare/Find.antt =====
-- include/string.h: `strstr` gives the first place.
use linux.Base.{
  ℕ, zero, suc, ◌+◌, ◌-◌, ◌≤◌, ◌<◌, ◌≡◌, ◌≢◌, ◌⊎◌, inl, inr, Bool, true, false, some, refl, ◌∙◌, ap,
  arith, ◌==◌,
}
use linux.String.{Memory, Flags, repe_cmpsb}
use linux.String.Search.{IsString, strlen-IsString}
use linux.String.Compare.{find_string, strstr}
use linux.String.Compare.Order.{Same, Same-tail}

-- `repe; cmpsb` ends with the zero flag where all bytes are the same.
repe_cmpsb-Same :
    (n s ct : ℕ) (zf : Bool) (mem : Memory)
    → (n ≡ 0 → zf ≡ true)
    → Same s ct n mem
    → (repe_cmpsb n s ct zf mem).zf ≡ true
unfolding repe_cmpsb Same
repe_cmpsb-Same zero s ct zf mem h f = h refl
repe_cmpsb-Same (suc n) s ct zf mem h f =
    rw (repe_cmpsb, same (f zero (omega arith)))
      (repe_cmpsb-Same n (s + 1) (ct + 1) true mem (λ _. refl) (Same-tail s ct n mem f))
  where
    eq_true : {a b : ℕ} → a ≡ b → (b == a) ≡ true
    eq_true h = ground arith

    same : mem (ct + 0) ≡ mem (s + 0) → (mem s == mem ct) ≡ true
    same e = eq_true (ap mem (omega arith) ∙ (e ∙ ap mem (omega arith)))

Same-cons :
    (s ct n : ℕ) (mem : Memory)
    → (mem s == mem ct) ≡ true
    → Same (s + 1) (ct + 1) n mem
    → Same s ct (suc n) mem
unfolding Same
Same-cons s ct n mem e f zero h = ap mem (omega arith) ∙ (same e ∙ ap mem (omega arith))
  where
    same : {a b : ℕ} → (a == b) ≡ true → b ≡ a
    same h = ground arith
Same-cons s ct n mem e f (suc i) h =
    ap mem (omega arith) ∙ (f i (omega arith) ∙ ap mem (omega arith))

-- How `repe; cmpsb` ends: with the zero flag, and all bytes are the same, or without it, after one
-- of the `n` bytes.
unfoldable CmpsbEnd : ℕ → ℕ → ℕ → Memory → Flags → Type 0
unfolding Same
CmpsbEnd n s ct mem f =
    ((f.zf ≡ true) × Same s ct n mem)
    ⊎ ((f.zf ≡ false) × (e : ℕ) × (f.at ≡ suc e) × (s ≤ e) × (e < s + n))

repe_cmpsb-CmpsbEnd :
    (n s ct : ℕ) (zf : Bool) (mem : Memory)
    → (n ≡ 0 → zf ≡ true)
    → CmpsbEnd n s ct mem (repe_cmpsb n s ct zf mem)
unfolding repe_cmpsb CmpsbEnd
repe_cmpsb-CmpsbEnd zero s ct zf mem h = inl (h refl, none_differs)
  where
    none_differs : (i : ℕ) → i < 0 → mem (ct + i) ≡ mem (s + i)
    none_differs i l = elim l [ ]
repe_cmpsb-CmpsbEnd (suc n) s ct zf mem h =
    by_byte (repe_cmpsb-CmpsbEnd n (s + 1) (ct + 1) true mem (λ _. refl)) (mem s == mem ct) refl
  where
    by_byte :
        CmpsbEnd n (s + 1) (ct + 1) mem (repe_cmpsb n (s + 1) (ct + 1) true mem)
        → (b : Bool) → (mem s == mem ct) ≡ b
        → CmpsbEnd (suc n) s ct mem (repe_cmpsb (suc n) s ct zf mem)
    by_byte (inl (z, f)) true e = rw (repe_cmpsb, e) (inl (z, Same-cons s ct n mem e f))
    by_byte (inr (z, x, l, u, v)) true e =
        rw (repe_cmpsb, e) (inr (z, x, l, omega arith, omega arith))
    by_byte ih false e = rw (repe_cmpsb, e) (inr (refl, s, omega arith, omega arith, omega arith))

-- The loop of `strstr` stops at the first place where the bytes are the same, if no byte before the
-- end of that place is zero.
find_string_lem :
    (fuel s e ct m : ℕ) (mem : Memory)
    → s ≤ e
    → e < s + fuel
    → ((x : ℕ) → s ≤ x → x < e + m → mem x ≢ 0)
    → ((x : ℕ) → s ≤ x → x < e → ¬ Same x ct m mem)
    → Same e ct m mem
    → find_string fuel s ct m mem ≡ some e
unfolding find_string CmpsbEnd
find_string_lem zero s e ct m mem l h z f g = absurd (omega arith)
find_string_lem (suc fuel) s e ct m mem l h z f g = elim (lt_or_eq s e l) [
  | inr eq ↦
      rw (find_string, repe_cmpsb-Same m s ct (m == 0) mem (λ d. at_zero d) (rw eq g)) (ap some eq)
  | inl lt ↦ pass lt (repe_cmpsb-CmpsbEnd m s ct (m == 0) mem (λ d. at_zero d)) (
      find_string_lem fuel (s + 1) e ct m mem (omega arith) (omega arith)
        (λ x a b. z x (omega arith) b) (λ x a b. f x (omega arith) b) g)
]
  where
    lt_or_eq : (a b : ℕ) → a ≤ b → (a < b) ⊎ (a ≡ b)
    lt_or_eq a b h = ground arith

    at_zero : {a : ℕ} → a ≡ 0 → (a == 0) ≡ true
    at_zero d = ground arith

    ne_false : {a : ℕ} → a ≢ 0 → (a == 0) ≡ false
    ne_false d = ground arith

    pass :
        s < e
        → CmpsbEnd m s ct mem (repe_cmpsb m s ct (m == 0) mem)
        → find_string fuel (s + 1) ct m mem ≡ some e
        → find_string (suc fuel) s ct m mem ≡ some e
    pass lt (inl (_, same)) ih = absurd (f s (omega arith) lt same)
    pass lt (inr (d, x, a, u, v)) ih =
        rw
          (
            find_string,
            d,
            ne_false (λ q. z x u (omega arith) (
                ap mem (let y : x ≡ (repe_cmpsb m s ct (m == 0) mem).at - 1 = omega arith in y)
                ∙ q)),
          )
          ih

-- `strstr` gives the first place in a string `cs` where the bytes of the string `ct` are: `cs + k`,
-- where they are there, no byte before the end of that place is zero, they are at no place before
-- it, and `ct` is shorter than 0xffffffff bytes.
pub strstr_lem :
    (fuel cs ct k m : ℕ) (mem : Memory)
    → k < fuel
    → m < 0xffffffff
    → IsString ct m mem
    → ((x : ℕ) → cs ≤ x → x < cs + k + m → mem x ≢ 0)
    → ((x : ℕ) → cs ≤ x → x < cs + k → ¬ Same x ct m mem)
    → Same (cs + k) ct m mem
    → strstr fuel cs ct mem ≡ some (cs + k)
unfolding strstr
strstr_lem fuel cs ct k m mem h b i z f g =
    rw (strstr, strlen-IsString ct m mem b i)
      (find_string_lem fuel cs (cs + k) ct m mem (omega arith) (omega arith) z f g)
