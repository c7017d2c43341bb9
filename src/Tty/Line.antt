-- ===== src/Tty/Line.antt =====
-- kernel/chr_drv/tty_io.c: what copy_to_cooked does to the line, on lists of bytes with the newest
-- byte first.
use mathlib.Core.Path.{subst}
use linux.Base.{
  ℕ, suc, ◌≡◌, sym, ap, ◌∙◌, Bool, true, false, ◌&&◌, ◌||◌, Option, none, some, List, [], ◌∷◌, ◌==◌,
  if◌then◌else◌, length, inl, inr, Bool-cases,
}
use linux.Tty.{Queue, Termios, Tty, Env, empty, has_flag, is_cc, is_end, translate, at_start}
use linux.Tty.Contents.{IsValid, contents, newest, newest-drop_last, newest-empty}

-- ERASE: a byte that does not end a line.
abbrev pub erase_byte : Termios → List ℕ → List ℕ
erase_byte t [] = []
erase_byte t (x ∷ r) = if is_end t x then x ∷ r else r

-- KILL: all bytes after the end of a line.
abbrev pub kill_bytes : Termios → List ℕ → List ℕ
kill_bytes t [] = []
kill_bytes t (x ∷ r) = if is_end t x then x ∷ r else kill_bytes t r

abbrev pub count_ends : Termios → List ℕ → ℕ
count_ends t [] = 0
count_ends t (x ∷ r) = if is_end t x then suc (count_ends t r) else count_ends t r

-- A byte that stops or starts the output, or sends a signal.
abbrev pub is_control : Termios → ℕ → Bool
is_control t c =
    (has_flag t.c_iflag 0o2000 && (is_cc t 9 c || is_cc t 8 c))
    || (has_flag t.c_lflag 1 && (is_cc t 0 c || (is_cc t 1 c || is_cc t 10 c)))

-- The line after a byte.
abbrev pub edited : Termios → ℕ → List ℕ → List ℕ
edited t c r =
    if has_flag t.c_lflag 2 && is_cc t 3 c
    then kill_bytes t r
    else if has_flag t.c_lflag 2 && is_cc t 2 c
    then erase_byte t r
    else if is_control t c
    then r
    else c ∷ r

abbrev pub edited? : Termios → Option ℕ → List ℕ → List ℕ
edited? t none r = r
edited? t (some c) r = edited t c r

-- The bytes that are left, and the line, which holds 1023 bytes at most.
unfoldable pub cooked : Env → Termios → List ℕ → List ℕ → List ℕ × List ℕ
unfolding translate
cooked env t [] r = ([], r)
cooked env t (x ∷ xs) r =
    let rest = cooked env t xs (edited? t (translate env t x) r) in
    if length r == 1023 then (x ∷ xs, r) else rest

-- The write function of a terminal leaves its settings and what is typed alone.
pub record Keeps (env : Env) : Type 0 where
  pub same_termios : (tty : Tty) → (env.write tty).termios ≡ tty.termios
  pub same_read : (tty : Tty) → (env.write tty).read_q ≡ tty.read_q
  pub same_secondary : (tty : Tty) → (env.write tty).secondary ≡ tty.secondary

-- A terminal with these bytes to read and this line, whose ends `data` counts.
pub record Holds (t : Termios) (bytes r : List ℕ) (tty : Tty) : Type 0 where
  pub same_termios : tty.termios ≡ t
  pub read_valid : IsValid tty.read_q
  pub line_valid : IsValid tty.secondary
  pub input : contents tty.read_q ≡ bytes
  pub line : newest tty.secondary ≡ r
  pub counted : tty.secondary.lines ≡ count_ends t r

pub Holds-same :
    (t : Termios) (i r : List ℕ) (a b : Tty)
    → b.termios ≡ a.termios
    → b.read_q ≡ a.read_q
    → b.secondary ≡ a.secondary
    → Holds t i r a
    → Holds t i r b
Holds-same t i r a b p q s h = record {
  same_termios = p ∙ h.same_termios;
  read_valid = subst IsValid (sym q) h.read_valid;
  line_valid = subst IsValid (sym s) h.line_valid;
  input = ap contents q ∙ h.input;
  line = ap newest s ∙ h.line;
  counted = ap (λ (x : Queue). x.lines) s ∙ h.counted;
}

abbrev pub starts : Termios → List ℕ → Bool
starts t [] = true
starts t (x ∷ r) = is_end t x

pub line_cases :
    (t : Termios) (i r : List ℕ) (tty : Tty) → Holds t i r tty → at_start tty ≡ starts t r
line_cases t i r tty h = elim (Bool-cases (empty tty.secondary)) [
  | inl e ↦ rw e (ap (starts t) (sym (newest-empty tty.secondary h.line_valid e) ∙ h.line))
  | inr e ↦
      rw (e, h.same_termios)
        (ap (starts t) (sym (newest-drop_last tty.secondary h.line_valid e) ∙ h.line))
]

pub nonempty :
    (t : Termios) (i r : List ℕ) (x : ℕ) (tty : Tty)
    → Holds t i (x ∷ r) tty
    → empty tty.secondary ≡ false
nonempty t i r x tty h = elim (Bool-cases (empty tty.secondary)) [
  | inl e ↦ cc (newest-empty tty.secondary h.line_valid e, h.line)
  | inr e ↦ e
]
