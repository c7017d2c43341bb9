-- ===== src/Tty/Tests.antt =====
-- kernel/chr_drv/tty_io.c: a terminal on which a line has been typed, read and written to.
use mathlib.Core.List.{reverse}
use linux.Base.{
  ℕ, zero, suc, ◌≡◌, ◌≢◌, refl, Bool, true, false, some, List, [], ◌∷◌, arith, get_or, length, ◌==◌,
  if◌then◌else◌,
}
use linux.Base.Int.{pos}
use linux.Tty.{Queue, Termios, Tty, Env, left, copy_to_cooked}
use linux.Tty.Echo.{IsPlain, echo-lost}
use linux.Tty.Contents.{contents, newest}
use linux.Tty.Line.{Keeps, Holds, cooked, count_ends}
use linux.Tty.Cook.{copy_to_cooked-Holds}
use linux.Tty.Read.{Caller, Around, Reading, finish, tty_read}
use linux.Tty.Read.Line.{first_line}
use linux.Tty.Read.Canonical.{tty_read-first_line}
use linux.Tty.Write.{Written, Sent, returned, yields, tty_write, tty_write-Sent}

-- The bytes "ab", DEL and a carriage return.
abbrev typed : List ℕ
typed = b'a' ∷ b'b' ∷ 127 ∷ 13 ∷ []

abbrev queue : List ℕ → Queue
queue l = record { lines = 0; head = length l; tail = 0; buf = λ i. get_or l i 0 }

-- ICRNL, ONLCR, and ICANON with ECHO.
abbrev settings : Termios
settings = record {
  c_iflag = 0o400;
  c_oflag = 5;
  c_lflag = 10;
  c_cc = λ i. get_or (3 ∷ 28 ∷ 127 ∷ 21 ∷ 4 ∷ []) i 0;
}

abbrev terminal : Tty
terminal = record {
  termios = settings;
  stopped = false;
  read_q = queue typed;
  write_q = queue [];
  secondary = queue [];
  sent = [];
  woken = false;
  read_woken = false;
}

abbrev quiet : Env
quiet = record { write = λ tty. tty; orphaned = false; upper_before = λ c. false }

quiet-Keeps : Keeps quiet
quiet-Keeps = record { same_termios = λ t. refl; same_read = λ t. refl; same_secondary = λ t. refl }

terminal-Holds : Holds settings typed [] terminal
unfolding contents newest
terminal-Holds = record {
  same_termios = refl;
  read_valid = record { head = omega arith; tail = omega arith };
  line_valid = record { head = omega arith; tail = omega arith };
  input = refl;
  line = refl;
  counted = refl;
}

cooked_terminal : (cooked quiet settings typed []).1 ≡ 10 ∷ b'a' ∷ []
unfolding cooked
cooked_terminal = refl

copy_to_cooked-Holds_example :
    (tty : Tty) × (copy_to_cooked 5 quiet terminal ≡ some tty)
    × Holds settings (cooked quiet settings typed []).0 (cooked quiet settings typed []).1 tty
    × (tty.woken ≡ true)
copy_to_cooked-Holds_example =
    copy_to_cooked-Holds quiet quiet-Keeps 5 settings typed [] terminal (omega arith) terminal-Holds

abbrev caller : Caller
caller = record {
  tty = 1;
  pgrp = 7;
  orphaned = false;
  blocked = 0;
  handler = λ s. 0;
  pending = false;
  timeout = 0;
  sent = [];
}

abbrev around : Around
around = record { other_write = λ t. t; hung_up = false; nonblock = false; jiffies = 100 }

one_line : count_ends settings (cooked quiet settings typed []).1 ≢ 0
unfolding cooked
one_line e = absurd (omega arith)

tty_read-first_line_example :
    (got : Reading) × (tty_read 5 quiet around 1 7 80 terminal caller ≡ some (finish false got))
    × (got.out ≡ (first_line 80 settings (reverse (cooked quiet settings typed []).1)).0)
    × Holds settings
        (cooked quiet settings typed []).0
        (reverse (first_line 80 settings (reverse (cooked quiet settings typed []).1)).1)
        got.terminal
tty_read-first_line_example =
    tty_read-first_line quiet quiet-Keeps 5 1 7 79 settings typed [] around terminal caller
      (omega arith) terminal-Holds refl (omega arith) refl (λ u. refl) one_line

abbrev nothing_lower : ℕ → Bool
nothing_lower c = false

tty_write-Sent_example :
    (w : Written) × Sent nothing_lower settings false (queue []) (b'a' ∷ 10 ∷ []) w
    × (tty_write 6 quiet nothing_lower 1 7 false (b'a' ∷ 10 ∷ []) terminal caller
        ≡ some (
            if length w.bytes == 0
            then returned (pos 2) w.cr_flag (record terminal { write_q = w.queue }) caller
            else yields w.bytes w.cr_flag (record terminal { write_q = w.queue })))
unfolding left
tty_write-Sent_example =
    tty_write-Sent quiet nothing_lower 1 7 false (b'a' ∷ 10 ∷ []) terminal caller
      (record { head = omega arith; tail = omega arith }) (omega arith) refl refl refl (omega arith)

-- A queue with 1023 bytes.
abbrev full_queue : Queue
full_queue = record { lines = 0; head = 1023; tail = 0; buf = λ i. b'x' }

-- A stopped terminal with that much output, and an `a` that has been typed.
abbrev stopped_terminal : Tty
stopped_terminal = record terminal {
  stopped = true;
  read_q = queue (b'a' ∷ []);
  write_q = full_queue;
}

a-IsPlain : IsPlain settings b'a'
a-IsPlain = record { printed = omega arith; kept = refl; no_cc = other; echoed = refl }
  where
    other : (i : ℕ) → settings.c_cc i ≢ b'a'
    other zero = omega arith
    other (suc zero) = omega arith
    other (suc (suc zero)) = omega arith
    other (suc (suc (suc zero))) = omega arith
    other (suc (suc (suc (suc zero)))) = omega arith
    other (suc (suc (suc (suc (suc i))))) = omega arith

echo-lost_example :
    (length (contents full_queue) ≡ 1023)
    × (out : Tty) × (copy_to_cooked 2 quiet stopped_terminal ≡ some out)
    × (contents out.write_q ≡ [])
unfolding contents left
echo-lost_example =
    echo-lost 0 quiet b'a' stopped_terminal (λ s e. refl) refl
      (record { head = omega arith; tail = omega arith }) refl refl refl
      (record { head = omega arith; tail = omega arith }) a-IsPlain
