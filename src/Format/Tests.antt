-- ===== src/Format/Tests.antt =====
-- kernel/vsprintf.c: runs of `number` and `vsprintf`.
use linux.Base.{ℕ, ◌≡◌, refl, true, false, List, [], ◌∷◌, ◌++◌, some, arith}
use linux.Format.{skip_atoi, Flags, number, is_digit}
use linux.Format.Decimal.{zero_padded, skip_atoi-number}
use linux.Format.Convert.{
  int, vsprintf, vsprintf_from, turn, directive, read_flags, read_width, read_precision,
  skip_qualifier, convert_at, convert, put_other, number_format, other_letter, next_int,
}
use linux.Format.Ended.{Ended, vsprintf-Ended}

skip_atoi-number_example :
    (text : List ℕ) × (number 905 10 5 0 (zero_padded false) ≡ some text)
    × (skip_atoi (text ++ (b'.' ∷ [])) 0 ≡ (905, b'.' ∷ []))
unfolding is_digit
skip_atoi-number_example = skip_atoi-number 905 5 0 false (b'.' ∷ []) (omega arith) refl

abbrev hex : Flags
hex = record {
  zeropad = false;
  sign = false;
  plus = false;
  space = false;
  left = true;
  special = true;
  small = true;
}

-- "<%5u>"
abbrev wide : List ℕ
wide = b'<' ∷ b'%' ∷ b'5' ∷ b'u' ∷ b'>' ∷ []

vsprintf-Ended_example :
    Ended
      (record { fmt = wide; args = int 42 ∷ []; text = []; stored = [] })
      (vsprintf_from 9 wide (record { fmt = wide; args = int 42 ∷ []; text = []; stored = [] }))
vsprintf-Ended_example = vsprintf-Ended 9 wide (int 42 ∷ []) (omega arith)

-- The '*' of "%*u" is taken for a letter, and the number is not printed.
star_not_skipped :
    vsprintf (b'%' ∷ b'*' ∷ b'u' ∷ []) (int 5 ∷ int 42 ∷ [])
    ≡ some (record { fmt = []; args = int 42 ∷ []; text = b'%' ∷ b'*' ∷ b'u' ∷ []; stored = [] })
unfolding vsprintf vsprintf_from turn directive read_flags read_width read_precision skip_qualifier
    convert_at convert put_other number_format other_letter next_int is_digit
star_not_skipped = refl
