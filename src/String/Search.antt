-- ===== src/String/Search.antt =====
-- include/string.h: the functions that look for a byte. A loop that ends at a zero byte runs on
-- fuel, and gives none when the fuel is spent; the address 0 is NULL.
use linux.Base.{
  ℕ, zero, suc, ◌+◌, ◌-◌, ◌≤◌, ◌<◌, ◌≡◌, ◌≢◌, Bool, true, false, ◌||◌, Option, none, some, ◌∙◌, ap,
  ap₂, ◌==◌, if◌then◌else◌, arith,
}
use linux.String.{Memory, Flags, repne_scasb, strlen, counted, found, exhausted}

-- The first `n` bytes at `s` are not `al`.
unfoldable pub Without : ℕ → ℕ → ℕ → Memory → Type 0
Without al s n mem = (i : ℕ) → i < n → mem (s + i) ≢ al

-- The first byte `al` at `s` or after it is at the distance `n`.
pub record FirstAt (al s n : ℕ) (mem : Memory) : Type 0 where
  pub here : mem (s + n) ≡ al
  pub before : Without al s n mem

-- `n` bytes and a zero byte.
abbrev pub IsString : ℕ → ℕ → Memory → Type 0
IsString = FirstAt 0

unfoldable pub strchr : ℕ → ℕ → ℕ → Memory → Option ℕ
strchr zero s c mem = none
strchr (suc fuel) s c mem = elim (mem s == c) [
  | true ↦ some (s + 1 - 1)
  | false ↦ elim (mem s == 0) [ true ↦ some (1 - 1) | false ↦ strchr fuel (s + 1) c mem ]
]

-- The loop of `strrchr`, with `edx`.
unfoldable pub last_found : ℕ → ℕ → ℕ → ℕ → Memory → Option ℕ
last_found zero res esi c mem = none
last_found (suc fuel) res esi c mem =
    let res' = if mem esi == c then esi + 1 - 1 else res in
    elim (mem esi == 0) [ true ↦ some res' | false ↦ last_found fuel res' (esi + 1) c mem ]

unfoldable pub strrchr : ℕ → ℕ → ℕ → Memory → Option ℕ
unfolding last_found
strrchr fuel s c mem = last_found fuel 0 s c mem

unfoldable pub memchr : ℕ → ℕ → ℕ → Memory → ℕ
unfolding repne_scasb
memchr cs c count mem =
    if count == 0 || cs == 0
    then 0
    else (let f : Flags = repne_scasb count c cs false mem in if f.zf then f.at - 1 else 1 - 1)

-- A byte that is not the first one is looked for among the others.
pub Without-tail : (al s n : ℕ) (mem : Memory) → Without al s (suc n) mem → Without al (s + 1) n mem
unfolding Without
Without-tail al s n mem f i h e = f (suc i) (omega arith) (ap mem (omega arith) ∙ e)

pub Without-head : (al s n : ℕ) (mem : Memory) → Without al s (suc n) mem → (mem s == al) ≡ false
unfolding Without
Without-head al s n mem f = ne_false (λ e. f zero (omega arith) (ap mem (omega arith) ∙ e))
  where
    ne_false : {a b : ℕ} → a ≢ b → (a == b) ≡ false
    ne_false h = ground arith

pub FirstAt-tail : (al s n : ℕ) (mem : Memory) → FirstAt al s (suc n) mem → FirstAt al (s + 1) n mem
FirstAt-tail al s n mem f = record {
  here = ap mem (omega arith) ∙ f.here;
  before = Without-tail al s n mem f.before;
}

pub FirstAt-head : (al s n : ℕ) (mem : Memory) → FirstAt al s (suc n) mem → (mem s == al) ≡ false
FirstAt-head al s n mem f = Without-head al s n mem f.before

pub FirstAt-zero : (al s : ℕ) (mem : Memory) → FirstAt al s 0 mem → (mem s == al) ≡ true
FirstAt-zero al s mem f = eq_true (ap mem (omega arith) ∙ f.here)
  where
    eq_true : {a b : ℕ} → a ≡ b → (a == b) ≡ true
    eq_true h = ground arith

-- `repne; scasb` stops after the first byte `al`, if its counter lets it.
pub repne_scasb-found :
    (k al s n : ℕ) (zf : Bool) (mem : Memory)
    → n < k
    → FirstAt al s n mem
    → repne_scasb k al s zf mem ≡ found (k - suc n) (s + suc n)
unfolding repne_scasb
repne_scasb-found zero al s n zf mem h f = elim h [ ]
repne_scasb-found (suc k) al s zero zf mem h f =
    rw (repne_scasb, FirstAt-zero al s mem f) (ap (λ x. found x (s + 1)) (omega arith))
repne_scasb-found (suc k) al s (suc n) zf mem h f =
    rw (repne_scasb, FirstAt-head al s n mem f)
      (repne_scasb-found k al (s + 1) n false mem (omega arith) (FirstAt-tail al s n mem f)
        ∙ ap₂ found (omega arith) (omega arith))

-- `repne; scasb` reads all bytes where none is `al`.
pub repne_scasb-missing :
    (k al s : ℕ) (mem : Memory)
    → Without al s k mem
    → repne_scasb k al s false mem ≡ exhausted false (s + k)
unfolding repne_scasb
repne_scasb-missing zero al s mem f = ap (exhausted false) (omega arith)
repne_scasb-missing (suc k) al s mem f =
    rw (repne_scasb, Without-head al s k mem f)
      (repne_scasb-missing k al (s + 1) mem (Without-tail al s k mem f)
        ∙ ap (exhausted false) (omega arith))

-- `strlen` gives the number of bytes before the first zero byte, for a string shorter than
-- 0xffffffff bytes.
pub strlen-IsString :
    (s n : ℕ) (mem : Memory) → n < 0xffffffff → IsString s n mem → strlen s mem ≡ n
unfolding strlen
strlen-IsString s n mem h f =
    ap (λ (x : Flags). counted x.ecx) (repne_scasb-found 0xffffffff 0 s n false mem h f)
    ∙ omega arith

-- `strchr` gives the address of the first byte `c` of a string of `n` bytes, the zero byte at its
-- end included.
pub strchr-FirstAt :
    (fuel s c i n : ℕ) (mem : Memory)
    → n < fuel
    → IsString s n mem
    → i ≤ n
    → FirstAt c s i mem
    → strchr fuel s c mem ≡ some (s + i)
unfolding strchr
strchr-FirstAt zero s c i n mem h z l f = elim h [ ]
strchr-FirstAt (suc fuel) s c zero n mem h z l f =
    rw (strchr, FirstAt-zero c s mem f) (ap some (omega arith))
strchr-FirstAt (suc fuel) s c (suc i) zero mem h z l f = elim l [ ]
strchr-FirstAt (suc fuel) s c (suc i) (suc n) mem h z l f =
    rw (strchr, FirstAt-head c s i mem f, FirstAt-head 0 s n mem z)
      (strchr-FirstAt fuel (s + 1) c i n mem (omega arith) (FirstAt-tail 0 s n mem z) (omega arith)
          (FirstAt-tail c s i mem f)
        ∙ ap some (omega arith))

-- `strchr` gives NULL where a byte `c` is in none of the bytes of a string, its end included.
pub strchr-Without :
    (fuel s c n : ℕ) (mem : Memory)
    → n < fuel
    → IsString s n mem
    → Without c s (suc n) mem
    → strchr fuel s c mem ≡ some 0
unfolding strchr
strchr-Without zero s c n mem h z f = elim h [ ]
strchr-Without (suc fuel) s c zero mem h z f =
    rw (strchr, Without-head c s 0 mem f, FirstAt-zero 0 s mem z)
strchr-Without (suc fuel) s c (suc n) mem h z f =
    rw (strchr, Without-head c s (suc n) mem f, FirstAt-head 0 s n mem z)
      (strchr-Without fuel (s + 1) c n mem (omega arith) (FirstAt-tail 0 s n mem z)
        (Without-tail c s (suc n) mem f))
