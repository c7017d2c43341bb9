-- ===== src/Console/Scroll.antt =====
-- kernel/chr_drv/console.c: scrolling, line feed and reverse index.
use linux.Base.{ℕ, ◌+◌, ◌-◌, ◌*◌, ◌/◌, ◌&&◌, ltb, leb, ◌==◌, if◌then◌else◌}
use linux.Console.{Video, Screen, fill_up, fill_down, copy_up, copy_down}

-- The first lines of `scrup` and `scrdown`: the lines that scroll.
abbrev pub wanted_top : Video → Screen → ℕ
wanted_top v s = if ltb s.y s.top then 0 else if ltb s.bottom s.y then s.y else s.top

abbrev pub wanted_bottom : Video → Screen → ℕ
wanted_bottom v s =
    if ltb s.y s.top then s.y + 1 else if ltb s.bottom s.y then v.lines else s.bottom

abbrev pub region_top : Video → Screen → ℕ
region_top v s = if ltb v.lines (wanted_top v s) then 0 else wanted_top v s

abbrev pub region_bottom : Video → Screen → ℕ
region_bottom v s = if ltb v.lines (wanted_bottom v s) then v.lines else wanted_bottom v s

-- The whole screen of an EGA or VGA card: the origin moves on, back to the start of the video memory
-- if need be.
unfoldable pub scroll_origin : Video → Screen → Screen
scroll_origin v s =
    let origin = s.origin + v.size_row in
    let scr_end = s.scr_end + v.size_row in
    let pos = s.pos + v.size_row in
    if ltb s.mem_end scr_end
    then record s {
      mem =
          fill_up v.columns (s.mem_start + 4 * ((v.lines - 1) * v.columns / 2)) s.erase_char
            (copy_up ((v.lines - 1) * v.columns / 2) s.mem_start origin s.mem);
      scr_end = scr_end - (origin - s.mem_start);
      pos = pos - (origin - s.mem_start);
      origin = s.mem_start;
    }
    else record s {
      mem = fill_up v.columns (scr_end - v.size_row) s.erase_char s.mem;
      origin = origin;
      scr_end = scr_end;
      pos = pos;
    }

-- The lines from `t` to `b` move up by one.
unfoldable pub scroll_lines_up : Video → ℕ → ℕ → Screen → Screen
scroll_lines_up v t b s =
    let longs = (b - t - 1) * v.columns / 2 in
    let dst = s.origin + t * v.size_row in
    let src = s.origin + (t + 1) * v.size_row in
    record s {
      mem = fill_up v.columns (dst + 4 * longs) s.erase_char (copy_up longs dst src s.mem);
    }

-- And down.
unfoldable pub scroll_lines_down : Video → ℕ → ℕ → Screen → Screen
scroll_lines_down v t b s =
    let longs = (b - t - 1) * v.columns / 2 in
    let dst = s.origin + b * v.size_row - 4 in
    let src = s.origin + (b - 1) * v.size_row - 4 in
    record s {
      mem = fill_down v.columns (dst - 4 * longs + 2) s.erase_char (copy_down longs dst src s.mem);
    }

-- `top` and `bottom` are changed for the time of the call only.
unfoldable pub scrup_region : Video → ℕ → ℕ → Screen → Screen
unfolding scroll_origin scroll_lines_up
scrup_region v t b s =
    if leb b t
    then s
    else if v.is_ega && ((t == 0) && (b == v.lines))
    then scroll_origin v s
    else scroll_lines_up v t b s

unfoldable pub scrup : Video → Screen → Screen
unfolding scrup_region
scrup v s = scrup_region v (region_top v s) (region_bottom v s) s

unfoldable pub scrdown : Video → Screen → Screen
unfolding scroll_lines_down
scrdown v s =
    if leb (region_bottom v s) (region_top v s)
    then s
    else scroll_lines_down v (region_top v s) (region_bottom v s) s

unfoldable pub lf : Video → Screen → Screen
unfolding scrup
lf v s =
    if ltb (s.y + 1) s.bottom then record s { y = s.y + 1; pos = s.pos + v.size_row } else scrup v s

unfoldable pub ri : Video → Screen → Screen
unfolding scrdown
ri v s = if ltb s.top s.y then record s { y = s.y - 1; pos = s.pos - v.size_row } else scrdown v s

-- `insert_line` and `delete_line`: with the region from the cursor to the end of the screen.
unfoldable pub insert_line : Video → Screen → Screen
unfolding scrdown
insert_line v s =
    let out = scrdown v (record s { top = s.y; bottom = v.lines }) in
    record out { top = s.top; bottom = s.bottom }

unfoldable pub delete_line : Video → Screen → Screen
unfolding scrup
delete_line v s =
    let out = scrup v (record s { top = s.y; bottom = v.lines }) in
    record out { top = s.top; bottom = s.bottom }
