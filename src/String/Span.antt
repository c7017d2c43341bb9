-- ===== src/String/Span.antt =====
-- include/string.h: the functions that look for the bytes of one string in another. A loop over a
-- string runs on fuel, and gives none when the fuel is spent.
use linux.Base.{
  ℕ, zero, suc, ◌+◌, ◌-◌, ◌≤◌, ◌<◌, ◌≡◌, ◌≢◌, Bool, true, false, not, ◌⊎◌, inl, inr, Option, none,
  some, refl, ap, arith, ◌==◌, if◌then◌else◌, ◌>>=◌,
}
use linux.String.{Memory, Flags, repne_scasb, strlen}
use linux.String.Search.{
  IsString, FirstAt, Without, repne_scasb-found, repne_scasb-missing, strlen-IsString,
}

-- Whether the byte `al` is among the `n` bytes at `ct`, as the loops ask it.
abbrev pub among : ℕ → ℕ → ℕ → Memory → Bool
among al ct n mem = (repne_scasb n al ct false mem).zf

-- The loop of `strspn`; `esi` as it is before `decl`.
unfoldable pub while_among : ℕ → ℕ → ℕ → ℕ → Memory → Option ℕ
unfolding repne_scasb
while_among zero esi ct edx mem = none
while_among (suc fuel) esi ct edx mem = elim (mem esi == 0) [
  | true ↦ some (esi + 1)
  | false ↦ elim (among (mem esi) ct edx mem) [
    | true ↦ while_among fuel (esi + 1) ct edx mem
    | false ↦ some (esi + 1)
  ]
]

unfoldable pub strspn : ℕ → ℕ → ℕ → Memory → Option ℕ
unfolding while_among strlen
strspn fuel cs ct mem = while_among fuel cs ct (strlen ct mem) mem >>= λ esi. some (esi - 1 - cs)

-- The loop of `strcspn` and of `strpbrk`: whether it was left at a byte of `ct`, and `esi`.
unfoldable pub until_among : ℕ → ℕ → ℕ → ℕ → Memory → Option (Bool × ℕ)
unfolding repne_scasb
until_among zero esi ct edx mem = none
until_among (suc fuel) esi ct edx mem = elim (mem esi == 0) [
  | true ↦ some (false, esi + 1)
  | false ↦ elim (among (mem esi) ct edx mem) [
    | true ↦ some (true, esi + 1)
    | false ↦ until_among fuel (esi + 1) ct edx mem
  ]
]

unfoldable pub strcspn : ℕ → ℕ → ℕ → Memory → Option ℕ
unfolding until_among strlen
strcspn fuel cs ct mem = until_among fuel cs ct (strlen ct mem) mem >>= λ r. some (r.1 - 1 - cs)

unfoldable pub strpbrk : ℕ → ℕ → ℕ → Memory → Option ℕ
unfolding until_among strlen
strpbrk fuel cs ct mem =
    until_among fuel cs ct (strlen ct mem) mem >>= λ r. some (if r.0 then r.1 - 1 else 0)

-- A byte that a string has.
unfoldable pub Has : ℕ → ℕ → ℕ → Memory → Type 0
Has al ct m mem = (i : ℕ) × (i < m) × FirstAt al ct i mem

pub among-Has : (al ct m : ℕ) (mem : Memory) → Has al ct m mem → among al ct m mem ≡ true
unfolding repne_scasb Has
among-Has al ct m mem (i, l, f) =
    ap (λ (x : Flags). x.zf) (repne_scasb-found m al ct i false mem l f)

pub among-Without : (al ct m : ℕ) (mem : Memory) → Without al ct m mem → among al ct m mem ≡ false
unfolding repne_scasb
among-Without al ct m mem f = ap (λ (x : Flags). x.zf) (repne_scasb-missing m al ct mem f)

-- The loop of `strspn` passes the bytes before `e`, and stops there.
pub while_among_lem :
    (fuel esi e ct m : ℕ) (mem : Memory)
    → esi ≤ e
    → e < esi + fuel
    → ((x : ℕ) → esi ≤ x → x < e → ((mem x == 0) ≡ false) × (among (mem x) ct m mem ≡ true))
    → among (mem e) ct m mem ≡ false
    → while_among fuel esi ct m mem ≡ some (e + 1)
unfolding while_among
while_among_lem zero esi e ct m mem l h f g = absurd (omega arith)
while_among_lem (suc fuel) esi e ct m mem l h f g = elim (lt_or_eq esi e l) [
  | inl lt ↦
      rw (while_among, (f esi (omega arith) lt).0, (f esi (omega arith) lt).1)
        (while_among_lem fuel (esi + 1) e ct m mem (omega arith) (omega arith)
          (λ x a b. f x (omega arith) b) g)
  | inr eq ↦ stop eq (mem esi == 0) refl
]
  where
    lt_or_eq : (a b : ℕ) → a ≤ b → (a < b) ⊎ (a ≡ b)
    lt_or_eq a b h = ground arith

    stop :
        esi ≡ e
        → (b : Bool) → (mem esi == 0) ≡ b
        → while_among (suc fuel) esi ct m mem ≡ some (e + 1)
    stop eq true d = rw (while_among, d) (ap (λ x. some (x + 1)) eq)
    stop eq false d = rw (while_among, d, ap mem eq, g) (ap (λ x. some (x + 1)) eq)

-- `strspn` gives the number of bytes, from the beginning of a string on, that are bytes of the
-- string `ct`: `k`, where the first `k` bytes are not zero and are in `ct`, the next one is not in
-- `ct` (the end of the string is not), and `ct` is shorter than 0xffffffff bytes.
pub strspn_lem :
    (fuel cs ct k m : ℕ) (mem : Memory)
    → k < fuel
    → m < 0xffffffff
    → IsString ct m mem
    → ((x : ℕ) → cs ≤ x → x < cs + k → (mem x ≢ 0) × Has (mem x) ct m mem)
    → Without (mem (cs + k)) ct m mem
    → strspn fuel cs ct mem ≡ some k
unfolding strspn
strspn_lem fuel cs ct k m mem h b z f g =
    rw
      (
        strspn,
        strlen-IsString ct m mem b z,
        while_among_lem fuel cs (cs + k) ct m mem (omega arith) (omega arith)
            (λ x l u. (ne_false (f x l u).0, among-Has (mem x) ct m mem (f x l u).1))
            (among-Without (mem (cs + k)) ct m mem g),
      )
      (ap some (omega arith))
  where
    ne_false : {a : ℕ} → a ≢ 0 → (a == 0) ≡ false
    ne_false h = ground arith

-- The loop of `strcspn` passes the bytes before `e`, and stops there: at the end of the string, or
-- at a byte of `ct`.
pub until_among_lem :
    (fuel esi e ct m : ℕ) (mem : Memory) (b : Bool)
    → esi ≤ e
    → e < esi + fuel
    → ((x : ℕ) → esi ≤ x → x < e → ((mem x == 0) ≡ false) × (among (mem x) ct m mem ≡ false))
    → ((mem e == 0) ≡ not b) × (b ≡ true → among (mem e) ct m mem ≡ true)
    → until_among fuel esi ct m mem ≡ some (b, e + 1)
unfolding until_among
until_among_lem zero esi e ct m mem b l h f g = absurd (omega arith)
until_among_lem (suc fuel) esi e ct m mem b l h f g = elim (lt_or_eq esi e l) [
  | inl lt ↦
      rw (until_among, (f esi (omega arith) lt).0, (f esi (omega arith) lt).1)
        (until_among_lem fuel (esi + 1) e ct m mem b (omega arith) (omega arith)
          (λ x a c. f x (omega arith) c) g)
  | inr eq ↦ stop eq b g
]
  where
    lt_or_eq : (a b : ℕ) → a ≤ b → (a < b) ⊎ (a ≡ b)
    lt_or_eq a b h = ground arith

    stop :
        esi ≡ e
        → (b : Bool) → ((mem e == 0) ≡ not b) × (b ≡ true → among (mem e) ct m mem ≡ true)
        → until_among (suc fuel) esi ct m mem ≡ some (b, e + 1)
    stop eq true (d, g) =
        rw (until_among, ap mem eq, d, ap mem eq, g refl) (ap (λ x. some (true, x + 1)) eq)
    stop eq false (d, g) = rw (until_among, ap mem eq, d) (ap (λ x. some (false, x + 1)) eq)

-- How the loop of `strcspn` ends: the byte it read last is not before the start, and is zero just
-- where the loop was not left at a byte of `ct`.
Stopped : ℕ → Memory → Option (Bool × ℕ) → Type 0
Stopped esi mem none = Unit
Stopped esi mem (some (b, x)) = (e : ℕ) × (x ≡ suc e) × (esi ≤ e) × ((mem e == 0) ≡ not b)

Stopped-weaken :
    (esi : ℕ) (mem : Memory) (r : Option (Bool × ℕ)) → Stopped (esi + 1) mem r → Stopped esi mem r
unfolding Stopped
Stopped-weaken esi mem none h = tt
Stopped-weaken esi mem (some (b, x)) (e, h, l, z) = (e, h, omega arith, z)

until_among-Stopped :
    (fuel esi ct edx : ℕ) (mem : Memory) → Stopped esi mem (until_among fuel esi ct edx mem)
unfolding Stopped until_among
until_among-Stopped zero esi ct edx mem = tt
until_among-Stopped (suc fuel) esi ct edx mem =
    case_byte (until_among-Stopped fuel (esi + 1) ct edx mem) (mem esi == 0)
      (among (mem esi) ct edx mem) refl refl
  where
    case_byte :
        Stopped (esi + 1) mem (until_among fuel (esi + 1) ct edx mem)
        → (b c : Bool) → (mem esi == 0) ≡ b
        → among (mem esi) ct edx mem ≡ c
        → Stopped esi mem (until_among (suc fuel) esi ct edx mem)
    case_byte h true c d e = rw (until_among, d) (esi, omega arith, omega arith, d)
    case_byte h false true d e = rw (until_among, d, e) (esi, omega arith, omega arith, d)
    case_byte h false false d e =
        rw (until_among, d, e) (Stopped-weaken esi mem (until_among fuel (esi + 1) ct edx mem) h)

-- `strpbrk` gives the address of the byte where `strcspn` stops, or NULL if that byte is zero; the
-- two run out of fuel together.
pub strpbrk-strcspn :
    (fuel cs ct : ℕ) (mem : Memory)
    → strpbrk fuel cs ct mem
      ≡ (strcspn fuel cs ct mem >>= λ k. some (if mem (cs + k) == 0 then 0 else cs + k))
unfolding strpbrk strcspn Stopped
strpbrk-strcspn fuel cs ct mem =
    both (until_among fuel cs ct (strlen ct mem) mem)
      (until_among-Stopped fuel cs ct (strlen ct mem) mem)
  where
    both :
        (r : Option (Bool × ℕ))
        → Stopped cs mem r
        → (r >>= λ r. some (if r.0 then r.1 - 1 else 0)) ≡ (
            (r >>= λ r. some (r.1 - 1 - cs)) >>= λ k.
            some (if mem (cs + k) == 0 then 0 else cs + k))
    both none h = refl
    both (some (true, x)) (e, h, l, z) = grind arith
    both (some (false, x)) (e, h, l, z) = grind arith
