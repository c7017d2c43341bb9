-- ===== src/Console/Print.antt =====
-- kernel/chr_drv/console.c: `con_write` outside of an escape sequence.
use linux.Base.{
  ℕ, ◌+◌, ◌-◌, ◌*◌, ◌%◌, true, false, ◌&&◌, ◌||◌, List, [], ◌∷◌, get_or, ltb, leb, ◌==◌,
  if◌then◌else◌,
}
use linux.Console.{Video, Screen, esc, Translation, norm, graf, store_word, cr, del}
use linux.Console.Scroll.{lf}

-- The characters of the graphic set from '`' on.
abbrev pub graphics : List ℕ
graphics =
    4 ∷ 177 ∷ 7 ∷ 7 ∷ 7 ∷ 7 ∷ 248 ∷ 241 ∷ 32 ∷ 7 ∷ 217 ∷ 191 ∷ 218 ∷ 192 ∷ 197 ∷ 7 ∷ 7 ∷ 196 ∷ 7 ∷ 7
    ∷ 195 ∷ 180 ∷ 193 ∷ 194 ∷ 179 ∷ 7 ∷ 7 ∷ 7 ∷ 7 ∷ 7 ∷ 156 ∷ []

-- `translate[c-32]`, for `c` from 32 to 126.
unfoldable pub glyph : Translation → ℕ → ℕ
glyph norm c = c
glyph graf c =
    if c == b'0'
    then 219
    else if c == b'I'
    then 15
    else if c == b'_'
    then 32
    else if leb b'`' c
    then get_or graphics (c - b'`') 0
    else c

-- The cursor goes on in the next line.
abbrev pub next_line : Video → Screen → Screen
next_line v s = lf v (record s { x = s.x - v.columns; pos = s.pos - v.size_row })

abbrev pub put : ℕ → Screen → Screen
put c s = record s {
  mem = store_word s.pos (glyph s.translate c + 256 * s.attr) s.mem;
  pos = s.pos + 2;
  x = s.x + 1;
}

unfoldable pub print : Video → ℕ → Screen → Screen
print v c s = put c (if leb v.columns s.x then next_line v s else s)

unfoldable pub backspace : Screen → Screen
backspace s = if s.x == 0 then s else record s { x = s.x - 1; pos = s.pos - 2 }

abbrev pub tab_width : Screen → ℕ
tab_width s = 8 - s.x % 8

abbrev pub tabbed : Screen → Screen
tabbed s = record s { x = s.x + tab_width s; pos = s.pos + 2 * tab_width s }

unfoldable pub tab : Video → Screen → Screen
tab v s = if ltb v.columns (s.x + tab_width s) then next_line v (tabbed s) else tabbed s

-- The case ESnormal.
unfoldable pub normal_char : Video → ℕ → Screen → Screen
normal_char v c s =
    if ltb 31 c && ltb c 127
    then print v c s
    else if c == 27
    then record s { state = esc }
    else if (c == 10) || (c == 11) || (c == 12)
    then lf v s
    else if c == 13
    then cr s
    else if c == 127
    then del s
    else if c == 8
    then backspace s
    else if c == 9
    then tab v s
    else if c == 7
    then record s { beeps = s.beeps + 1 }
    else if c == 14
    then record s { checkin = true; translate = s.restate }
    else if c == 15
    then record s { translate = norm; checkin = false }
    else s
