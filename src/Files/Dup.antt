-- ===== src/Files/Dup.antt =====
-- Which descriptor `dupfd` returns, and what it changes.
use native.Mathlib.Decide.{ℕ_discrete}
use linux.Base.{
  ℕ, zero, suc, ◌+◌, ◌-◌, ◌≤◌, ◌<◌, ◌%◌, ◌^◌, ◌≡◌, ◌≢◌, refl, true, false, Option, none, some, List,
  [], ◌∷◌, get_or, set, length, leb, ◌==◌, if◌then◌else◌, arith, Bool-cases, Option-cases, inl, inr,
}
use linux.Base.Bits.{bit}
use linux.Base.Masks.{bit-clear_bit}
use linux.Files.{
  Descriptors, file_of, nr_open, first_free, done, install, dup_to, dup_file, dupfd, ebadf, einval,
}

-- The first free entry from `arg` on, of `k`.
pub first_free-some :
    (k arg n : ℕ) (filp : List (Option ℕ))
    → first_free k arg filp ≡ some n
    → (arg ≤ n)
      × (n < arg + k)
      × (get_or filp n none ≡ none)
      × ((i : ℕ) → arg ≤ i → i < n → get_or filp i none ≢ none)
unfolding first_free
first_free-some zero arg n filp e = absurd cc
first_free-some (suc k) arg n filp e = elim (Option-cases (get_or filp arg none)) [
  | inl free ↦
      let found : some arg ≡ some n = rw (first_free, free) at e in
      let same : arg ≡ n = ground (arith, found) in
      rw (← same) (omega arith, omega arith, free, λ i lo hi. absurd (omega arith))
  | inr (f, used) ↦
      let r = first_free-some k (arg + 1) n filp (rw (first_free, used) at e) in
      (
        omega (arith, r.0),
        omega (arith, r.1),
        r.2,
        λ i lo hi. elim (ℕ_discrete i arg) [
          | yes p ↦ rw p (λ z. cc)
          | no p ↦ r.3 i (omega arith) hi
        ],
      )
]

pub get_or-set_self :
    (xs : List (Option ℕ)) (i : ℕ) (v : Option ℕ) → i < length xs → get_or (set xs i v) i none ≡ v
get_or-set_self [] i v h = absurd (omega arith)
get_or-set_self (x ∷ xs) zero v h = refl
get_or-set_self (x ∷ xs) (suc i) v h = get_or-set_self xs i v (omega arith)

get_or-set_ne :
    (xs : List (Option ℕ)) (i j : ℕ) (v : Option ℕ)
    → i ≢ j
    → get_or (set xs i v) j none ≡ get_or xs j none
get_or-set_ne [] i j v h = refl
get_or-set_ne (x ∷ xs) zero zero v h = absurd (h refl)
get_or-set_ne (x ∷ xs) zero (suc j) v h = refl
get_or-set_ne (x ∷ xs) (suc i) zero v h = refl
get_or-set_ne (x ∷ xs) (suc i) (suc j) v h = get_or-set_ne xs i j v (omega arith)

-- The open file behind `fd` is now behind `n` too, which was the lowest free descriptor from `arg`
-- on and stays open across an exec; its count is one higher, and all else is as it was.
pub record Duplicated (fd arg n : ℕ) (p p' : Descriptors) : Type 0 where
  pub file : ℕ
  pub was_open : file_of p fd ≡ some file
  pub in_range : (arg ≤ n) × (n < nr_open)
  pub was_free : file_of p n ≡ none
  pub lowest : (i : ℕ) → arg ≤ i → i < n → file_of p i ≢ none
  pub same_file : file_of p' n ≡ some file
  pub others : (i : ℕ) → n ≢ i → file_of p' i ≡ file_of p i
  pub survives :
      (i : ℕ) → i < 32 → bit p'.close_on_exec i ≡ (if i == n then 0 else bit p.close_on_exec i)
  pub counted : (p'.files file).count ≡ ((p.files file).count + 1) % 2 ^ 16
  pub other_files : (g : ℕ) → g ≢ file → p'.files g ≡ p.files g

install-Duplicated :
    (fd arg n f : ℕ) (p : Descriptors)
    → length p.filp ≡ nr_open
    → arg < nr_open
    → file_of p fd ≡ some f
    → first_free (nr_open - arg) arg p.filp ≡ some n
    → Duplicated fd arg n p (install n f p)
install-Duplicated fd arg n f p full small opened e =
    let r = first_free-some (nr_open - arg) arg n p.filp e in
    record {
      file = f;
      was_open = opened;
      in_range = (r.0, omega (arith, r.1));
      was_free = r.2;
      lowest = r.3;
      same_file = get_or-set_self p.filp n (some f) (omega (arith, r.1));
      others = λ i h. get_or-set_ne p.filp n i (some f) h;
      survives = λ i h. bit-clear_bit 32 p.close_on_exec n i (omega (arith, r.1)) h;
      counted = (let same : (f == f) ≡ true = ground arith in rw same refl);
      other_files = λ g h. let off : (g == f) ≡ false = ground arith in rw off refl;
    }

dup_to-done :
    (f n : ℕ) (p p' : Descriptors) (slot : Option ℕ)
    → dup_to f p slot ≡ done n p'
    → (slot ≡ some n) × (p' ≡ install n f p)
dup_to-done f n p p' none e = absurd cc
dup_to-done f n p p' (some m) e = (cc, cc)

dup_file-Duplicated :
    (fd arg n : ℕ) (p p' : Descriptors) (file : Option ℕ)
    → length p.filp ≡ nr_open
    → file_of p fd ≡ file
    → dup_file arg p file ≡ done n p'
    → Duplicated fd arg n p p'
dup_file-Duplicated fd arg n p p' none full at e = absurd cc
dup_file-Duplicated fd arg n p p' (some f) full at e = elim (Bool-cases (leb nr_open arg)) [
  | inl big ↦ let refused : einval ≡ done n p' = rw big at e in absurd cc
  | inr small ↦
      let (slot, is) =
        dup_to-done f n p p' (first_free (nr_open - arg) arg p.filp) (rw small at e) in
      rw is (install-Duplicated fd arg n f p full (ground arith) at slot)
]

-- If `dupfd` returns a descriptor, it is the lowest free one from `arg` on, now open on the same
-- file as `fd` and kept open across an exec; the file's use count is one higher (modulo 2^16), and
-- no other descriptor, close-on-exec bit or file has changed.
pub dupfd-Duplicated :
    (fd arg n : ℕ) (p p' : Descriptors)
    → length p.filp ≡ nr_open
    → dupfd fd arg p ≡ done n p'
    → Duplicated fd arg n p p'
unfolding dupfd
dupfd-Duplicated fd arg n p p' full e = elim (Bool-cases (leb nr_open fd)) [
  | inl big ↦ let refused : ebadf ≡ done n p' = rw big at e in absurd cc
  | inr small ↦ dup_file-Duplicated fd arg n p p' (file_of p fd) full refl (rw small at e)
]
