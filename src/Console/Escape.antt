-- ===== src/Console/Escape.antt =====
-- kernel/chr_drv/console.c: `con_write`, one character at a time, with its escape sequences.
use linux.Base.{
  ℕ, ◌+◌, ◌-◌, ◌*◌, ◌%◌, ◌^◌, Bool, true, false, not, ◌&&◌, ◌||◌, List, [], ◌∷◌, get_or, set,
  replicate, ltb, leb, ◌==◌, if◌then◌else◌,
}
use linux.Base.Int.{pos, negsuc}
use linux.Console.{
  Video, Screen, EscState, normal, esc, square, getpars, gotpars, funckey, setterm, setgraph, other,
  norm, graf, gotoxy, save_cur, restore_cur,
}
use linux.Console.Scroll.{lf, ri}
use linux.Console.Edit.{csi_J, csi_K, csi_at, csi_L, csi_P, csi_M}
use linux.Console.Attr.{csi_m}
use linux.Console.Print.{normal_char}

abbrev pub npar_max : ℕ
npar_max = 16

abbrev pub word : ℕ
word = 2 ^ 32

-- Numeric and application keypad.
abbrev pub keypad : Bool → Screen → Screen
keypad on s = record s { kbdapplic = on; kapplic = if s.is_fg then on else s.kapplic }

-- The case ESesc. The answer to a query is counted, not spelled out.
unfoldable pub esc_char : Video → ℕ → Screen → Screen
esc_char v c s =
    let t : Screen = record s { state = normal } in
    if c == b'['
    then record s { state = square }
    else if c == b'E'
    then gotoxy v 0 ((s.y + 1) % word) t
    else if c == b'M'
    then ri v t
    else if c == b'D'
    then lf v t
    else if c == b'Z'
    then record t { answers = s.answers + 1 }
    else if c == b'7'
    then save_cur t
    else if c == b'8'
    then restore_cur v t
    else if (c == b'(') || (c == b')')
    then record s { state = setgraph }
    else if c == b'P'
    then record s { state = setterm }
    else if c == b'#'
    then record s { state = other }
    else if c == b'c'
    then keypad false (record t {
      termios_reset = true;
      restate = norm;
      checkin = false;
      top = 0;
      bottom = v.lines;
      translate = norm;
    })
    else if c == b'>'
    then keypad false t
    else if c == b'='
    then keypad true t
    else t

abbrev pub par_at : ℕ → Screen → ℕ
par_at i s = get_or s.par i 0

abbrev pub set_par : ℕ → ℕ → Screen → Screen
set_par i p s = record s { par = set s.par i p }

-- `if (!par[0]) par[0]++;`
abbrev pub at_least_one : Screen → Screen
at_least_one s = set_par 0 (if par_at 0 s == 0 then 1 else par_at 0 s) s

-- `if (par[i]) par[i]--;`
abbrev pub minus_one : ℕ → Screen → Screen
minus_one i s = set_par i (par_at i s - 1) s

-- Differences and sums of 32-bit patterns.
abbrev pub minus : ℕ → ℕ → ℕ
minus a b = (a + word - b % word) % word

abbrev pub plus : ℕ → ℕ → ℕ
plus a b = (a + b) % word

-- The commands that move the cursor, after `par[0]` has been adjusted.
unfoldable pub move : Video → ℕ → Screen → Screen
move v c s =
    let one : Screen = at_least_one s in
    let p = par_at 0 one in
    let less : Screen = minus_one 0 s in
    if (c == b'G') || (c == b'`')
    then gotoxy v (par_at 0 less) s.y less
    else if c == b'A'
    then gotoxy v s.x (minus s.y p) one
    else if (c == b'B') || (c == b'e')
    then gotoxy v s.x (plus s.y p) one
    else if (c == b'C') || (c == b'a')
    then gotoxy v (plus s.x p) s.y one
    else if c == b'D'
    then gotoxy v (minus s.x p) s.y one
    else if c == b'E'
    then gotoxy v 0 (plus s.y p) one
    else if c == b'F'
    then gotoxy v 0 (minus s.y p) one
    else if c == b'd'
    then gotoxy v s.x (par_at 0 less) less
    else gotoxy v (par_at 1 s - 1) (par_at 0 less) (minus_one 1 less)

abbrev pub is_move : ℕ → Bool
is_move c =
    (c == b'G')
    || (c == b'`')
    || (c == b'A')
    || (c == b'B')
    || (c == b'e')
    || (c == b'C')
    || (c == b'a')
    || (c == b'D')
    || (c == b'E')
    || (c == b'F')
    || (c == b'd')
    || (c == b'H')
    || (c == b'f')

-- The case 'r': the scrolling region.
unfoldable pub set_region : Video → Screen → Screen
set_region v s =
    let t : Screen = minus_one 0 s in
    let last : ℕ = if par_at 1 s == 0 then v.lines else par_at 1 s in
    let u : Screen = set_par 1 last t in
    if ltb (par_at 0 t) last && leb last v.lines
    then record u { top = par_at 0 t; bottom = last }
    else u

-- The cases 'l' and 'b', which take three parameters that belong together.
unfoldable pub set_blank : ℕ → Screen → Screen
set_blank c s =
    let p = par_at 0 s in
    if not (leb 2 s.npar && (minus (par_at 1 s) 13 == p) && (minus (par_at 2 s) 17 == p))
    then s
    else if (c == b'l') && leb p 60
    then record s { blankinterval = 6000 * p }
    else if c == b'b'
    then record s { bold_attr = if ltb p (2 ^ 31) then pos p else negsuc (word - 1 - p) }
    else s

-- The `switch` of the case ESgotpars.
unfoldable pub csi : Video → ℕ → Screen → Screen
csi v c s =
    if is_move c
    then move v c s
    else if c == b'J'
    then csi_J v (par_at 0 s) s
    else if c == b'K'
    then csi_K v (par_at 0 s) s
    else if c == b'L'
    then csi_L v (par_at 0 s) s
    else if c == b'M'
    then csi_M v (par_at 0 s) s
    else if c == b'P'
    then csi_P v (par_at 0 s) s
    else if c == b'@'
    then csi_at v (par_at 0 s) s
    else if c == b'm'
    then csi_m v s
    else if c == b'r'
    then set_region v s
    else if c == b's'
    then save_cur s
    else if c == b'u'
    then restore_cur v s
    else if (c == b'l') || (c == b'b')
    then set_blank c s
    else s

unfoldable pub gotpars_char : Video → ℕ → Screen → Screen
gotpars_char v c s =
    let t : Screen = record s { state = normal } in
    if s.ques then record t { ques = false } else csi v c t

-- A digit wraps around in an `unsigned long`.
unfoldable pub getpars_char : Video → ℕ → Screen → Screen
getpars_char v c s =
    if (c == b';') && ltb s.npar (npar_max - 1)
    then record s { npar = s.npar + 1 }
    else if leb b'0' c && leb c b'9'
    then set_par s.npar ((10 * par_at s.npar s + c - b'0') % word) s
    else gotpars_char v c (record s { state = gotpars })

unfoldable pub square_char : Video → ℕ → Screen → Screen
square_char v c s =
    let t : Screen = record s { par = replicate 16 0; npar = 0; state = getpars } in
    if c == b'['
    then record t { state = funckey }
    else if c == b'?'
    then record t { ques = true }
    else getpars_char v c (record t { ques = false })

unfoldable pub setterm_char : ℕ → Screen → Screen
setterm_char c s =
    let t : Screen = record s { state = normal } in
    if c == b'S'
    then record t { def_attr = s.attr; erase_char = s.erase_char % 256 + 256 * s.attr }
    else t

unfoldable pub setgraph_char : ℕ → Screen → Screen
setgraph_char c s =
    let t : Screen = record s { state = normal } in
    if c == b'0'
    then record t { restate = graf; translate = if s.checkin then graf else s.translate }
    else if c == b'B'
    then record t { translate = norm; restate = norm }
    else t

-- The `switch (state)`.
unfoldable pub dispatch : Video → EscState → ℕ → Screen → Screen
dispatch v normal c s = normal_char v c s
dispatch v esc c s = esc_char v c s
dispatch v square c s = square_char v c s
dispatch v getpars c s = getpars_char v c s
dispatch v gotpars c s = gotpars_char v c s
dispatch v funckey c s = record s { state = normal }
dispatch v setterm c s = setterm_char c s
dispatch v setgraph c s = setgraph_char c s
dispatch v other c s = record s { state = normal }

-- One character: CAN and SUB end an escape sequence.
unfoldable pub con_char : Video → ℕ → Screen → Screen
con_char v c s =
    let t : Screen = if (c == 24) || (c == 26) then record s { state = normal } else s in
    dispatch v t.state c t

-- The loop of `con_write` over the characters that are taken off the queue until it is empty or the
-- terminal is stopped.
unfoldable pub con_write : Video → List ℕ → Screen → Screen
con_write v [] s = s
con_write v (c ∷ cs) s = con_write v cs (con_char v c s)
