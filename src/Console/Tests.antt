-- ===== src/Console/Tests.antt =====
-- kernel/chr_drv/console.c: a console of two lines of eight characters, and runs on it.
use linux.Base.{ℕ, ◌+◌, ◌*◌, ◌≡◌, refl, true, false, List, [], ◌∷◌, arith}
use linux.Base.Int.{negsuc}
use linux.Console.{Video, Screen, normal, norm}
use linux.Console.Escape.{con_write}
use linux.Console.Safe.{IsVideo, IsValid, Safe}
use linux.Console.Safe.Sequences.{con_write-Safe}

abbrev small : Video
small = record { columns = 8; lines = 2; size_row = 16; is_ega = true; can_do_colour = true }

abbrev small-IsVideo : IsVideo small
small-IsVideo = record { wide = omega arith; some_lines = omega arith; row = refl }

-- The video memory has room for three lines; the cursor is at the start of the last one.
abbrev at_start : Screen
at_start = record {
  mem = λ a. 32;
  erase_char = 32 + 256 * 7;
  attr = 7;
  def_attr = 7;
  bold_attr = negsuc 0;
  ques = false;
  state = normal;
  translate = norm;
  restate = norm;
  checkin = false;
  origin = 1000;
  scr_end = 1032;
  pos = 1016;
  x = 0;
  y = 1;
  top = 0;
  bottom = 2;
  npar = 0;
  par = [];
  mem_start = 1000;
  mem_end = 1048;
  saved_x = 0;
  saved_y = 0;
  iscolor = false;
  kbdapplic = false;
  kapplic = false;
  is_fg = true;
  answers = 0;
  beeps = 0;
  termios_reset = false;
  blankinterval = 0;
}

abbrev at_start-IsValid : IsValid small at_start
at_start-IsValid = record {
  x_in = omega arith;
  y_in = omega arith;
  region = omega arith;
  bottom_in = omega arith;
  at_cursor = refl;
  at_end = refl;
  starts_in = omega arith;
  ends_in = omega arith;
}

-- `hi`, a line feed on the last line, and `ESC [ 2 ; 5 H`.
abbrev text : List ℕ
text = b'h' ∷ b'i' ∷ 10 ∷ 27 ∷ b'[' ∷ b'2' ∷ b';' ∷ b'5' ∷ b'H' ∷ []

text_places : (con_write small text at_start).x ≡ 4
unfolding con_write linux.Console.Escape.con_char linux.Console.Escape.dispatch
    linux.Console.Print.normal_char linux.Console.Print.print linux.Console.Scroll.lf
    linux.Console.Escape.esc_char linux.Console.Escape.square_char linux.Console.Escape.getpars_char
    linux.Console.Escape.gotpars_char linux.Console.Escape.csi linux.Console.Escape.move
    linux.Console.gotoxy
text_places = refl

con_write-Safe_example : Safe small at_start (con_write small text at_start)
con_write-Safe_example = con_write-Safe small text at_start small-IsVideo at_start-IsValid
