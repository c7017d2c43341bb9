-- ===== src/Console.antt =====
-- kernel/chr_drv/console.c: the state of one console, and the words of video memory.
-- Video memory is a function of the byte address; only words at even distances from each other are
-- written. A byte of text and its attribute are written as the one word that they make up.
pub mod Scroll
pub mod Edit
pub mod Attr
pub mod Print
pub mod Escape
pub mod Safe
mod Tests
use linux.Base.{
  ℕ, zero, suc, ◌+◌, ◌-◌, ◌*◌, Bool, true, false, ◌||◌, List, ltb, leb, ◌==◌, if◌then◌else◌,
}
use linux.Base.Int.{ℤ}

-- What is the same for all consoles: `video_num_columns`, `video_num_lines`, `video_size_row`,
-- whether `video_type` is EGA or VGA, and `can_do_colour`.
pub record Video : Type 0 where
  pub columns : ℕ
  pub lines : ℕ
  pub size_row : ℕ
  pub is_ega : Bool
  pub can_do_colour : Bool

-- The values of `state`; `other` is -1.
pub data EscState : Type 0 where
  normal esc square getpars gotpars funckey setterm setgraph other : EscState

-- NORM_TRANS and GRAF_TRANS.
pub data Translation : Type 0 where
  norm graf : Translation

-- `vc_cons[currcons]`, with the memory, and what output does besides: the answers put on the read
-- queue, the number of beeps, whether `termios` was reset, `kapplic` and `blankinterval`.
pub record Screen : Type 0 where
  pub mem : ℕ → ℕ
  pub erase_char : ℕ
  pub attr : ℕ
  pub def_attr : ℕ
  pub bold_attr : ℤ
  pub ques : Bool
  pub state : EscState
  pub translate : Translation
  pub restate : Translation
  pub checkin : Bool
  pub origin : ℕ
  pub scr_end : ℕ
  pub pos : ℕ
  pub x : ℕ
  pub y : ℕ
  pub top : ℕ
  pub bottom : ℕ
  pub npar : ℕ
  pub par : List ℕ
  pub mem_start : ℕ
  pub mem_end : ℕ
  pub saved_x : ℕ
  pub saved_y : ℕ
  pub iscolor : Bool
  pub kbdapplic : Bool
  pub kapplic : Bool
  pub is_fg : Bool
  pub answers : ℕ
  pub beeps : ℕ
  pub termios_reset : Bool
  pub blankinterval : ℕ

-- `*(unsigned short *) addr = v`
abbrev pub store_word : ℕ → ℕ → (ℕ → ℕ) → ℕ → ℕ
store_word addr v mem a = if a == addr then v else mem a

-- `cld; rep; stosw`: `n` words from `addr` up.
unfoldable pub fill_up : ℕ → ℕ → ℕ → (ℕ → ℕ) → ℕ → ℕ
fill_up zero addr v mem = mem
fill_up (suc n) addr v mem = fill_up n (addr + 2) v (store_word addr v mem)

-- `std; rep; stosw`: `n` words from `addr` down.
unfoldable pub fill_down : ℕ → ℕ → ℕ → (ℕ → ℕ) → ℕ → ℕ
fill_down zero addr v mem = mem
fill_down (suc n) addr v mem = fill_down n (addr - 2) v (store_word addr v mem)

-- `cld; rep; movsl`: `n` longs, each of two words, from `src` to `dst`, up.
unfoldable pub copy_up : ℕ → ℕ → ℕ → (ℕ → ℕ) → ℕ → ℕ
copy_up zero dst src mem = mem
copy_up (suc n) dst src mem =
    copy_up n (dst + 4) (src + 4)
      (store_word (dst + 2) (mem (src + 2)) (store_word dst (mem src) mem))

-- `std; rep; movsl`: the same, down.
unfoldable pub copy_down : ℕ → ℕ → ℕ → (ℕ → ℕ) → ℕ → ℕ
copy_down zero dst src mem = mem
copy_down (suc n) dst src mem =
    copy_down n (dst - 4) (src - 4)
      (store_word (dst + 2) (mem (src + 2)) (store_word dst (mem src) mem))

-- `gotoxy`. The coordinates are 32-bit patterns: a negative one is above every bound.
unfoldable pub gotoxy : Video → ℕ → ℕ → Screen → Screen
gotoxy v new_x new_y s =
    if ltb v.columns new_x || leb v.lines new_y
    then s
    else record s { x = new_x; y = new_y; pos = s.origin + new_y * v.size_row + 2 * new_x }

unfoldable pub cr : Screen → Screen
cr s = record s { pos = s.pos - 2 * s.x; x = 0 }

unfoldable pub del : Screen → Screen
del s =
    if s.x == 0
    then s
    else record s { pos = s.pos - 2; x = s.x - 1; mem = store_word (s.pos - 2) s.erase_char s.mem }

unfoldable pub save_cur : Screen → Screen
save_cur s = record s { saved_x = s.x; saved_y = s.y }

unfoldable pub restore_cur : Video → Screen → Screen
unfolding gotoxy
restore_cur v s = gotoxy v s.saved_x s.saved_y s
