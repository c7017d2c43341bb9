-- ===== src/Format/Fuel.antt =====
-- kernel/vsprintf.c: the loop of `vsprintf` ends, since each directive takes some of the format.
use linux.Base.{
  ℕ, zero, suc, ◌+◌, ◌-◌, ◌*◌, ◌%◌, ◌^◌, ◌≡◌, ◌≤◌, refl, List, [], ◌∷◌, ◌++◌, Option, none, some,
  ◌>>=◌, length, ◌==◌, if-cases, arith,
}
use linux.Format.{is_digit, skip_atoi, Flags, number}
use linux.Format.Convert.{
  Arg, Progress, Spec, next_int, next_str, read_flags, read_width, star_width, star_precision,
  precision_at, read_precision, skip_qualifier, number_format, put_number, put_other, other_letter,
  convert, convert_at, directive, turn, vsprintf_from, vsprintf, is_flag, with_flag, unset,
  no_flags,
}

abbrev pub Shrinks : ℕ → Option Progress → Type 0
Shrinks n none = Unit
Shrinks n (some q) = length q.fmt ≤ n

abbrev SpecFits : ℕ → Option Spec → Type 0
SpecFits n none = Unit
SpecFits n (some d) = length d.fmt ≤ n

read_flags-le : (s : List ℕ) (f : Flags) → length (read_flags s f).1 ≤ length s
unfolding read_flags
read_flags-le [] f = omega arith
read_flags-le (c ∷ s) f =
    if-cases (λ (r : Flags × List ℕ). length r.1 ≤ length (c ∷ s)) (is_flag c)
      (read_flags s (with_flag c f)) (f, c ∷ s)
      (λ y. omega (arith, read_flags-le s (with_flag c f))) (λ n. omega arith)

skip_atoi-le : (s : List ℕ) (i : ℕ) → length (skip_atoi s i).1 ≤ length s
unfolding skip_atoi
skip_atoi-le [] i = omega arith
skip_atoi-le (c ∷ s) i =
    let j = (i * 10 + c - b'0') % 2 ^ 32 in
    if-cases (λ (r : ℕ × List ℕ). length r.1 ≤ length (c ∷ s)) (is_digit c) (skip_atoi s j)
      (i, c ∷ s) (λ y. omega (arith, skip_atoi-le s j)) (λ n. omega arith)

bind-Shrinks {ℓ} :
    {A : Type ℓ} (n : ℕ) (o : Option A) (f : A → Option Progress)
    → ((a : A) → Shrinks n (f a))
    → Shrinks n (o >>= f)
bind-Shrinks n none f h = tt
bind-Shrinks n (some a) f h = h a

bind-SpecFits {ℓ} :
    {A : Type ℓ} (n : ℕ) (o : Option A) (f : A → Option Spec)
    → ((a : A) → SpecFits n (f a))
    → SpecFits n (o >>= f)
bind-SpecFits n none f h = tt
bind-SpecFits n (some a) f h = h a

fits_then :
    (n : ℕ) (o : Option Spec) (f : Spec → Option Progress)
    → SpecFits n o
    → ((d : Spec) → length d.fmt ≤ n → Shrinks n (f d))
    → Shrinks n (o >>= f)
fits_then n none f le h = tt
fits_then n (some d) f le h = h d le

star_width-fmt : (d : Spec) (a : ℕ × List Arg) → (star_width d a).fmt ≡ d.fmt
star_width-fmt d (n, args) = ground arith

read_width-SpecFits : (s : List ℕ) (d : Spec) → d.fmt ≡ s → SpecFits (length s) (read_width s d)
unfolding read_width
read_width-SpecFits [] d e = rw e (omega arith)
read_width-SpecFits (c ∷ s) d e =
    if-cases (SpecFits (length (c ∷ s))) (is_digit c) _ _ (λ y. skip_atoi-le (c ∷ s) 0)
      (λ no_digit.
        if-cases (SpecFits (length (c ∷ s))) (c == b'*') _ _
          (λ star.
            bind-SpecFits (length (c ∷ s)) (next_int d.args) (λ a. some (star_width d a))
              (λ a. rw (star_width-fmt d a, e) (omega arith)))
          (λ n. rw e (omega arith)))

precision_at-SpecFits : (s : List ℕ) (d : Spec) → SpecFits (length s) (precision_at s d)
unfolding precision_at
precision_at-SpecFits [] d = omega arith
precision_at-SpecFits (c ∷ s) d =
    let e : Spec = record d { precision = 0; fmt = c ∷ s } in
    if-cases (SpecFits (length (c ∷ s))) (is_digit c) _ _ (λ y. skip_atoi-le (c ∷ s) 0)
      (λ no_digit.
        if-cases (SpecFits (length (c ∷ s))) (c == b'*') _ _
          (λ star.
            bind-SpecFits (length (c ∷ s)) (next_int d.args) (λ a. some (star_precision e a))
              (λ a. omega arith))
          (λ n. omega arith))

read_precision-SpecFits :
    (s : List ℕ) (d : Spec) → d.fmt ≡ s → SpecFits (length s) (read_precision s d)
unfolding read_precision
read_precision-SpecFits [] d e = rw e (omega arith)
read_precision-SpecFits (c ∷ s) d e =
    if-cases (SpecFits (length (c ∷ s))) (c == b'.') (precision_at s d) (some d)
      (λ dot. wider (precision_at s d) (precision_at-SpecFits s d)) (λ n. rw e (omega arith))
  where
    wider : (o : Option Spec) → SpecFits (length s) o → SpecFits (length (c ∷ s)) o
    wider none h = tt
    wider (some d) h = omega arith

skip_qualifier-le : (s : List ℕ) → length (skip_qualifier s) ≤ length s
unfolding skip_qualifier
skip_qualifier-le [] = omega arith
skip_qualifier-le (c ∷ s) = ground arith

put_other-Shrinks :
    (o : Option (ℕ × Spec)) (c : ℕ) (p : Progress) → Shrinks (length p.fmt) (put_other o c p)
unfolding put_other put_number other_letter
put_other-Shrinks none c p = omega arith
put_other-Shrinks (some (base, d)) c p = bind-Shrinks (length p.fmt) (next_int p.args) _ λ a.
    bind-Shrinks (length p.fmt) (number a.0 base d.width d.precision d.flags)
      (λ text. some (record p { text = p.text ++ text; args = a.1 })) λ t. stays p.fmt
  where
    stays : (s : List ℕ) → length s ≤ length s
    stays s = omega arith

convert-Shrinks : (c : ℕ) (d : Spec) (p : Progress) → Shrinks (length p.fmt) (convert c d p)
unfolding convert
convert-Shrinks c d p =
    let n = length p.fmt in
    let le : length p.fmt ≤ n = omega arith in
    if-cases (Shrinks n) (c == b'c') _ _ (λ y. bind-Shrinks n (next_int p.args) _ λ a. le)
      (λ no_c.
        if-cases (Shrinks n) (c == b's') _ _ (λ y. bind-Shrinks n (next_str p.args) _ λ a. le)
          (λ no_s.
            if-cases (Shrinks n) (c == b'n') _ _ (λ y. bind-Shrinks n (next_int p.args) _ λ a. le)
              (λ no_n. put_other-Shrinks (number_format c d) c p)))

convert_at-Shrinks : (s : List ℕ) (d : Spec) (p : Progress) → Shrinks (length s) (convert_at s d p)
unfolding convert_at
convert_at-Shrinks [] d p = omega arith
convert_at-Shrinks (c ∷ s) d p =
    wider (convert c d (record p { fmt = s })) (convert-Shrinks c d (record p { fmt = s }))
  where
    wider : (o : Option Progress) → Shrinks (length s) o → Shrinks (length (c ∷ s)) o
    wider none h = tt
    wider (some q) h = omega arith

Shrinks-le : (m n : ℕ) (o : Option Progress) → m ≤ n → Shrinks m o → Shrinks n o
Shrinks-le m n none le h = tt
Shrinks-le m n (some q) le h = omega arith

SpecFits-le : (m n : ℕ) (o : Option Spec) → m ≤ n → SpecFits m o → SpecFits n o
SpecFits-le m n none le h = tt
SpecFits-le m n (some q) le h = omega arith

directive-Shrinks : (p : Progress) → Shrinks (length p.fmt) (directive p)
unfolding directive
directive-Shrinks p =
    let n = length p.fmt in
    let (flags, fmt) = read_flags p.fmt no_flags in
    let le : length (read_flags p.fmt no_flags).1 ≤ n = read_flags-le p.fmt no_flags in
    let d0 : Spec = record {
      flags = (read_flags p.fmt no_flags).0;
      width = unset;
      precision = unset;
      fmt = (read_flags p.fmt no_flags).1;
      args = p.args;
    } in
    fits_then n (read_width d0.fmt d0) _
      (SpecFits-le (length d0.fmt) n (read_width d0.fmt d0) le (read_width-SpecFits d0.fmt d0 refl))
      λ d hd.
        fits_then n (read_precision d.fmt d) _
          (SpecFits-le (length d.fmt) n (read_precision d.fmt d) hd
            (read_precision-SpecFits d.fmt d refl))
          λ e he.
            let s = skip_qualifier e.fmt in
            Shrinks-le (length s) n (convert_at s e (record p { args = e.args }))
              (omega (arith, skip_qualifier-le e.fmt))
              (convert_at-Shrinks s e (record p { args = e.args }))

pub turn-Shrinks : (c : ℕ) (p : Progress) → Shrinks (length p.fmt) (turn c p)
unfolding turn
turn-Shrinks c p =
    if-cases (Shrinks (length p.fmt)) (c == b'%') (directive p) _ (λ y. directive-Shrinks p)
      (λ n. omega arith)

bind_same :
    (n : ℕ) (o : Option Progress) (f g : Progress → Option Progress)
    → Shrinks n o
    → ((q : Progress) → length q.fmt ≤ n → f q ≡ g q)
    → (o >>= f) ≡ (o >>= g)
bind_same n none f g h e = refl
bind_same n (some q) f g h e = e q h

same_result :
    (fuel more : ℕ) (fmt : List ℕ) (p : Progress)
    → length fmt ≤ fuel
    → length fmt ≤ more
    → vsprintf_from fuel fmt p ≡ vsprintf_from more fmt p
unfolding vsprintf_from
same_result zero more [] p h k = refl
same_result (suc fuel) more [] p h k = refl
same_result zero more (c ∷ s) p h k = absurd (omega arith)
same_result (suc fuel) zero (c ∷ s) p h k = absurd (omega arith)
same_result (suc fuel) (suc more) (c ∷ s) p h k =
    bind_same (length s) (turn c (record p { fmt = s })) (λ q. vsprintf_from fuel q.fmt q)
      (λ q. vsprintf_from more q.fmt q) (turn-Shrinks c (record p { fmt = s }))
      λ q le. same_result fuel more q.fmt q (omega arith) (omega arith)

-- `vsprintf` has done with its format after as many turns of the loop as the format is long: with
-- more fuel it gives the same result.
pub vsprintf-fuel :
    (fuel : ℕ) (fmt : List ℕ) (args : List Arg)
    → length fmt ≤ fuel
    → vsprintf_from fuel fmt (record { fmt = fmt; args = args; text = []; stored = [] })
      ≡ vsprintf fmt args
unfolding vsprintf
vsprintf-fuel fuel fmt args h = same_result fuel (length fmt) fmt _ h (omega arith)
