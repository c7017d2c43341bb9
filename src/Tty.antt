-- ===== src/Tty.antt =====
-- include/linux/tty.h and kernel/chr_drv/tty_io.c: terminals. A queue is its two indices, its count
-- `lines` of line ends (`data` in the code) and its buffer of 1024 bytes, as a function. A terminal has
-- all of its three queues. What kill_pg, wake_up and the terminal's own `write` do outside is an
-- argument, or a record of the calls.
pub mod Contents
pub mod Line
pub mod Edit
pub mod Echo
pub mod Cook
pub mod Read
pub mod Write
mod Tests
use linux.Base.{
  ℕ, zero, suc, ◌+◌, ◌-◌, ◌%◌, Bool, true, false, not, ◌&&◌, ◌||◌, Option, none, some, List, [],
  ◌∷◌, ltb, leb, ◌==◌, if◌then◌else◌,
}
use linux.Base.Bits.{bit_and}

pub record Queue : Type 0 where
  pub lines : ℕ
  pub head : ℕ
  pub tail : ℕ
  pub buf : ℕ → ℕ

abbrev pub buf_size : ℕ
buf_size = 1024

-- INC and DEC: `a & 1023` is `a % 1024`.
abbrev pub inc : ℕ → ℕ
inc a = (a + 1) % buf_size

abbrev pub dec : ℕ → ℕ
dec a = (a + 0xffffffff) % buf_size

abbrev pub empty : Queue → Bool
empty q = q.head == q.tail

-- LEFT: unsigned subtraction goes round at 2 ^ 32.
unfoldable pub left : Queue → ℕ
left q = (q.tail + 0x100000000 - q.head + 0xffffffff) % buf_size

abbrev pub last : Queue → ℕ
last q = q.buf (dec q.head)

abbrev pub full : Queue → Bool
full q = left q == 0

unfoldable pub chars : Queue → ℕ
chars q = (q.head + 0x100000000 - q.tail) % buf_size

-- GETCH is the byte at the tail, and this.
unfoldable pub take_char : Queue → Queue
take_char q = record q { tail = inc q.tail }

-- PUTCH, which does not ask whether the queue is full.
unfoldable pub putch : ℕ → Queue → Queue
putch c q = record q { buf = λ i. if i == q.head then c else q.buf i; head = inc q.head }

-- DEC(queue->head)
unfoldable pub drop_last : Queue → Queue
drop_last q = record q { head = dec q.head }

pub record Termios : Type 0 where
  pub c_iflag : ℕ
  pub c_oflag : ℕ
  pub c_lflag : ℕ
  pub c_cc : ℕ → ℕ

-- `sent` has the signals sent to the terminal's group; `woken` says that wake_up was called on
-- those that wait for `secondary`, and `read_woken` on those that wait for `read_q`.
pub record Tty : Type 0 where
  pub termios : Termios
  pub stopped : Bool
  pub read_q : Queue
  pub write_q : Queue
  pub secondary : Queue
  pub sent : List ℕ
  pub woken : Bool
  pub read_woken : Bool

-- The write function of the terminal, is_orphaned_pgrp of its group, and whether the byte before
-- the table `_ctype` that `isupper` reads for a negative char has the bit of an upper case letter.
pub record Env : Type 0 where
  pub write : Tty → Tty
  pub orphaned : Bool
  pub upper_before : ℕ → Bool

-- _L_FLAG and its like
abbrev pub has_flag : ℕ → ℕ → Bool
has_flag flags f = not (bit_and flags f == 0)

-- Whether `c` is the control character with this index, which 0 switches off.
abbrev pub is_cc : Termios → ℕ → ℕ → Bool
is_cc t i c = not (t.c_cc i == 0) && (c == t.c_cc i)

-- A newline, or the EOF character.
abbrev pub is_end : Termios → ℕ → Bool
is_end t c = c == 10 || is_cc t 4 c

unfoldable pub tolower : Env → ℕ → ℕ
tolower env c =
    if (if ltb c 128 then leb b'A' c && leb c b'Z' else env.upper_before c)
    then (c + 32) % 256
    else c

-- ICRNL, IGNCR, INLCR and IUCLC; none is a byte that is passed over.
unfoldable pub translate : Env → Termios → ℕ → Option ℕ
unfolding tolower
translate env t c =
    let lower = λ (d : ℕ). if has_flag t.c_iflag 0o1000 then tolower env d else d in
    if c == 13
    then (if has_flag t.c_iflag 0o400
        then some (lower 10)
        else if has_flag t.c_iflag 0o200
        then none
        else some (lower 13))
    else if c == 10 && has_flag t.c_iflag 0o100
    then some (lower 13)
    else some (lower c)

-- The echo of a byte that is taken back, and the byte taken back.
unfoldable pub rub_out : Env → Tty → Tty
unfolding putch drop_last
rub_out env tty =
    let c = last tty.secondary in
    let echo = if ltb c 32 then putch 127 (putch 127 tty.write_q) else putch 127 tty.write_q in
    let tty' : Tty =
      if has_flag tty.termios.c_lflag 0o10
      then env.write (record tty { write_q = echo })
      else tty in
    record tty' { secondary = drop_last tty'.secondary }

-- Whether the last byte of the line may not be taken back.
abbrev pub at_start : Tty → Bool
at_start tty = empty tty.secondary || is_end tty.termios (last tty.secondary)

-- The loop at KILL_CHAR, for at most `k` bytes.
unfoldable pub kill_line : ℕ → Env → Tty → Tty
unfolding rub_out
kill_line zero env tty = tty
kill_line (suc k) env tty = elim (at_start tty) [
  | true ↦ tty
  | false ↦ kill_line k env (rub_out env tty)
]

-- The echo of a byte that is accepted.
unfoldable pub echo : Termios → ℕ → Queue → Queue
unfolding putch
echo t c q =
    let on = has_flag t.c_lflag 0o10 in
    if (on || has_flag t.c_lflag 0o100) && (c == 10)
    then putch 13 (putch 10 q)
    else if on
    then (if ltb c 32 && has_flag t.c_lflag 0o1000
        then putch ((c + 64) % 256) (putch b'^' q)
        else putch c q)
    else q

unfoldable pub accept : Env → ℕ → Tty → Tty
unfolding echo putch
accept env c tty =
    let counted : Queue =
      if is_end tty.termios c
      then record tty.secondary { lines = tty.secondary.lines + 1 }
      else tty.secondary in
    let tty' =
      env.write (record tty { secondary = counted; write_q = echo tty.termios c tty.write_q }) in
    record tty' { secondary = putch c tty'.secondary }

-- kill_pg on the group of the terminal.
abbrev pub send : ℕ → Tty → Tty
send sig tty = record tty { sent = sig ∷ tty.sent }

-- From the test of L_ISIG on.
unfoldable pub signal_or_accept : Env → ℕ → Tty → Tty
unfolding accept
signal_or_accept env c tty =
    let t = tty.termios in
    let isig = has_flag t.c_lflag 1 in
    if isig && is_cc t 0 c
    then send 2 tty
    else if isig && is_cc t 1 c
    then send 3 tty
    else if isig && is_cc t 10 c
    then (if env.orphaned then tty else send 20 tty)
    else accept env c tty

-- The body of the loop of copy_to_cooked after the translation of the byte.
unfoldable pub cook_char : Env → ℕ → Tty → Tty
unfolding kill_line rub_out signal_or_accept
cook_char env c tty =
    let t = tty.termios in
    let canon = has_flag t.c_lflag 2 in
    let ixon = has_flag t.c_iflag 0o2000 in
    if canon && is_cc t 3 c
    then kill_line (chars tty.secondary) env tty
    else if canon && is_cc t 2 c
    then (if at_start tty then tty else rub_out env tty)
    else if ixon && is_cc t 9 c
    then env.write (record tty { stopped = true })
    else if ixon && is_cc t 8 c
    then env.write (record tty { stopped = false })
    else signal_or_accept env c tty

-- One turn of the loop: GETCH, and the body.
unfoldable pub cook_turn : Env → Tty → Tty
unfolding take_char translate cook_char
cook_turn env tty =
    let tty' : Tty = record tty { read_q = take_char tty.read_q } in
    elim (translate env tty.termios (tty.read_q.buf tty.read_q.tail)) [
      | none ↦ tty'
      | some c ↦ cook_char env c tty'
    ]

unfoldable pub copy_to_cooked : ℕ → Env → Tty → Option Tty
unfolding cook_turn
copy_to_cooked zero env tty = none
copy_to_cooked (suc fuel) env tty = elim (empty tty.read_q || full tty.secondary) [
  | true ↦ some (record tty { woken = true })
  | false ↦ copy_to_cooked fuel env (cook_turn env tty)
]
