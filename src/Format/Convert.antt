-- ===== src/Format/Convert.antt =====
-- kernel/vsprintf.c: `vsprintf`, one directive of the format at a time.
use linux.Base.{
  ℕ, zero, suc, ◌-◌, ◌%◌, ◌^◌, Bool, true, false, ◌||◌, List, [], ◌∷◌, ◌++◌, Option, none, some,
  ◌>>=◌, length, replicate, take, ◌==◌, if◌then◌else◌,
}
use linux.Format.{is_digit, skip_atoi, Flags, is_negative, at_least_zero, number}

-- A variable argument. Taking one that is not there, or is of the other kind, is undefined in C, and
-- is `none` here.
pub data Arg : Type 0 where
  int : ℕ → Arg
  str : List ℕ → Arg

unfoldable pub next_int : List Arg → Option (ℕ × List Arg)
next_int [] = none
next_int (int n ∷ args) = some (n, args)
next_int (str s ∷ args) = none

unfoldable pub next_str : List Arg → Option (List ℕ × List Arg)
next_str [] = none
next_str (int n ∷ args) = none
next_str (str s ∷ args) = some (s, args)

-- What is left of the format and of the arguments, the text so far, and what `%n` has stored.
pub record Progress : Type 0 where
  pub fmt : List ℕ
  pub args : List Arg
  pub text : List ℕ
  pub stored : List ℕ

-- -1
abbrev pub unset : ℕ
unset = 2 ^ 32 - 1

abbrev pub no_flags : Flags
no_flags = record {
  zeropad = false;
  sign = false;
  plus = false;
  space = false;
  left = false;
  special = false;
  small = false;
}

abbrev pub is_flag : ℕ → Bool
is_flag c = (c == b'-') || (c == b'+') || (c == b' ') || (c == b'#') || (c == b'0')

abbrev pub with_flag : ℕ → Flags → Flags
with_flag c f = record f {
  left = f.left || (c == b'-');
  plus = f.plus || (c == b'+');
  space = f.space || (c == b' ');
  special = f.special || (c == b'#');
  zeropad = f.zeropad || (c == b'0');
}

unfoldable pub read_flags : List ℕ → Flags → Flags × List ℕ
read_flags [] f = (f, [])
read_flags (c ∷ s) f =
    let rest = read_flags s (with_flag c f) in if is_flag c then rest else (f, c ∷ s)

-- The directive as far as it has been read.
pub record Spec : Type 0 where
  pub flags : Flags
  pub width : ℕ
  pub precision : ℕ
  pub fmt : List ℕ
  pub args : List Arg

-- A width from the arguments; the `*` is not skipped.
abbrev pub star_width : Spec → ℕ × List Arg → Spec
star_width d (n, args) =
    if is_negative n
    then record d { width = 2 ^ 32 - n; flags = record (d.flags) { left = true }; args = args }
    else record d { width = n; args = args }

unfoldable pub read_width : List ℕ → Spec → Option Spec
read_width [] d = some d
read_width (c ∷ s) d =
    let (n, rest) = skip_atoi (c ∷ s) 0 in
    if is_digit c
    then some (record d { width = n; fmt = rest })
    else if c == b'*'
    then (do a ← next_int d.args; some (star_width d a))
    else some d

abbrev pub star_precision : Spec → ℕ × List Arg → Spec
star_precision d (n, args) = record d { precision = at_least_zero n; args = args }

-- Behind the dot.
unfoldable pub precision_at : List ℕ → Spec → Option Spec
precision_at [] d = some (record d { precision = 0; fmt = [] })
precision_at (c ∷ s) d =
    let e : Spec = record d { precision = 0; fmt = c ∷ s } in
    let (n, rest) = skip_atoi (c ∷ s) 0 in
    if is_digit c
    then some (record d { precision = at_least_zero n; fmt = rest })
    else if c == b'*'
    then (do a ← next_int d.args; some (star_precision e a))
    else some e

unfoldable pub read_precision : List ℕ → Spec → Option Spec
unfolding precision_at
read_precision [] d = some d
read_precision (c ∷ s) d = if c == b'.' then precision_at s d else some d

unfoldable pub skip_qualifier : List ℕ → List ℕ
skip_qualifier [] = []
skip_qualifier (c ∷ s) = if (c == b'h') || (c == b'l') || (c == b'L') then s else c ∷ s

-- `%c` and `%s`: blanks up to the width.
abbrev pub padded : Spec → List ℕ → List ℕ
padded d s =
    let blanks = replicate (at_least_zero d.width - length s) b' ' in
    if d.flags.left then s ++ blanks else blanks ++ s

abbrev pub cut : Spec → List ℕ → List ℕ
cut d s = if is_negative d.precision then s else take d.precision s

-- The conversions of a number: the base and the flags; `none` for other letters.
unfoldable pub number_format : ℕ → Spec → Option (ℕ × Spec)
number_format c d =
    if c == b'o'
    then some (8, d)
    else if c == b'p'
    then some (
      16,
      if d.width == unset
          then record d { width = 8; flags = record (d.flags) { zeropad = true } }
          else d,
    )
    else if c == b'x'
    then some (16, record d { flags = record (d.flags) { small = true } })
    else if c == b'X'
    then some (16, d)
    else if (c == b'd') || (c == b'i')
    then some (10, record d { flags = record (d.flags) { sign = true } })
    else if c == b'u'
    then some (10, d)
    else none

unfoldable pub put_number : ℕ × Spec → Progress → Option Progress
put_number (base, d) p = do
  a ← next_int p.args
  text ← number a.0 base d.width d.precision d.flags
  some (record p { text = p.text ++ text; args = a.1 })

unfoldable pub other_letter : ℕ → Progress → Progress
other_letter c p = record p { text = p.text ++ (if c == b'%' then c ∷ [] else b'%' ∷ c ∷ []) }

unfoldable pub put_other : Option (ℕ × Spec) → ℕ → Progress → Option Progress
unfolding put_number other_letter
put_other none c p = some (other_letter c p)
put_other (some f) c p = put_number f p

-- The `switch` over the letter, behind which the format goes on with `p.fmt`.
unfoldable pub convert : ℕ → Spec → Progress → Option Progress
unfolding put_other
convert c d p =
    if c == b'c'
    then (do
      a ← next_int p.args
      some (record p { text = p.text ++ padded d (a.0 % 256 ∷ []); args = a.1 }))
    else if c == b's'
    then (do
      a ← next_str p.args
      some (record p { text = p.text ++ padded d (cut d a.0); args = a.1 }))
    else if c == b'n'
    then (do
      a ← next_int p.args
      some (record p { stored = p.stored ++ (length p.text ∷ []); args = a.1 }))
    else put_other (number_format c d) c p

-- At the end of the format, the '%' is put out.
unfoldable pub convert_at : List ℕ → Spec → Progress → Option Progress
unfolding convert
convert_at [] d p = some (record p { text = p.text ++ (b'%' ∷ []); fmt = [] })
convert_at (c ∷ s) d p = convert c d (record p { fmt = s })

-- A directive, behind the '%'.
unfoldable pub directive : Progress → Option Progress
unfolding convert_at
directive p =
    let (flags, fmt) = read_flags p.fmt no_flags in
    do
      d ←
          read_width fmt
            (record { flags = flags; width = unset; precision = unset; fmt = fmt; args = p.args })
      e ← read_precision d.fmt d
      convert_at (skip_qualifier e.fmt) e (record p { args = e.args })

-- One turn of the loop, for the character `c`.
unfoldable pub turn : ℕ → Progress → Option Progress
unfolding directive
turn c p = if c == b'%' then directive p else some (record p { text = p.text ++ (c ∷ []) })

unfoldable pub vsprintf_from : ℕ → List ℕ → Progress → Option Progress
vsprintf_from fuel [] p = some p
vsprintf_from zero (c ∷ s) p = none
vsprintf_from (suc fuel) (c ∷ s) p = do
  q ← turn c (record p { fmt = s })
  vsprintf_from fuel q.fmt q

-- `vsprintf`, with as much fuel as the format is long.
unfoldable pub vsprintf : List ℕ → List Arg → Option Progress
unfolding vsprintf_from
vsprintf fmt args =
    vsprintf_from (length fmt) fmt (record { fmt = fmt; args = args; text = []; stored = [] })
