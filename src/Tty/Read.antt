-- ===== src/Tty/Read.antt =====
-- kernel/chr_drv/tty_io.c: tty_read, up to its next sleep, and tty_signal.
pub mod Line
pub mod Canonical
use linux.Base.{
  ℕ, zero, suc, ◌+◌, ◌-◌, ◌*◌, ◌%◌, ◌<◌, Bool, true, false, not, ◌&&◌, ◌||◌, Option, none, some,
  List, [], ◌∷◌, ◌++◌, ltb, leb, ◌==◌, if◌then◌else◌, length, ◌>>=◌,
}
use linux.Base.Bits.{bit_and, one_shl}
use linux.Base.Int.{ℤ, pos, negsuc}
use linux.Tty.{
  Queue, Termios, Tty, Env, empty, full, take_char, has_flag, is_cc, is_end, copy_to_cooked,
}

-- What the calls read and write of `current`; `sent` has the signals sent to its group, and
-- `pending` says that a signal is there that is not blocked. `tty` is above 255 for no terminal.
pub record Caller : Type 0 where
  pub tty : ℕ
  pub pgrp : ℕ
  pub orphaned : Bool
  pub blocked : ℕ
  pub handler : ℕ → ℕ
  pub pending : Bool
  pub timeout : ℕ
  pub sent : List ℕ

unfoldable pub tty_signal : ℕ → Caller → ℤ × Caller
tty_signal sig c =
    let c' : Caller = record c { sent = sig ∷ c.sent } in
    if c.orphaned
    then (negsuc 4, c)
    else if not (bit_and c.blocked (one_shl (sig - 1)) == 0) || c.handler (sig - 1) == 1
    then (negsuc 4, c')
    else if not (c.handler (sig - 1) == 0)
    then (negsuc 3, c')
    else (negsuc 511, c')

-- GETCH, and `data--` at the end of a line, which goes round below 0.
unfoldable pub take_byte : Termios → Queue → Queue
unfolding take_char
take_byte t q =
    if is_end t (q.buf q.tail)
    then record (take_char q) { lines = (q.lines + 0xffffffff) % 0x100000000 }
    else take_char q

-- The inner loop: the bytes that are put into the buffer, of at most `nr`, and the queue.
unfoldable pub read_bytes : ℕ → Termios → Queue → List ℕ × Queue
unfolding take_byte
read_bytes zero t q = ([], q)
read_bytes (suc nr) t q =
    let c = q.buf q.tail in
    let q' = take_byte t q in
    let canon = has_flag t.c_lflag 2 in
    let rest = read_bytes nr t q' in
    if is_cc t 4 c && canon
    then ([], q')
    else if nr == 0 || (c == 10 && canon || empty q')
    then (c ∷ [], q')
    else (c ∷ rest.0, rest.1)

-- The variables of tty_read in its loop; `out` has the bytes that are in the buffer.
pub record Reading : Type 0 where
  pub nr : ℕ
  pub out : List ℕ
  pub minimum : ℕ
  pub time : ℕ
  pub terminal : Tty
  pub caller : Caller

pub data ReadResult : Type 0 where
  returned : ℤ → Reading → ReadResult
  sleeps : Reading → ReadResult

-- After the loop.
unfoldable pub finish : Bool → Reading → ReadResult
finish nonblock r =
    let r' : Reading = record r { caller = record (r.caller) { timeout = 0 } } in
    if not (length r.out == 0)
    then returned (pos (length r.out)) r'
    else if r.caller.pending
    then returned (negsuc 511) r'
    else if nonblock
    then returned (negsuc 10) r'
    else returned (pos 0) r'

-- Whether there is nothing to take: in canonical mode, not before a line has ended or no more can
-- be read.
abbrev pub must_wait : Tty → Bool
must_wait t =
    empty t.secondary
    || (has_flag t.termios.c_lflag 2 && (not (full t.read_q) && t.secondary.lines == 0))

unfoldable pub take_turn : ℕ → Reading → Reading
unfolding read_bytes
take_turn jiffies r =
    let t = r.terminal in
    let taken = read_bytes r.nr t.termios t.secondary in
    record r {
      nr = r.nr - length taken.0;
      out = r.out ++ taken.0;
      terminal = record t { secondary = taken.1; read_woken = true };
      caller = record (r.caller) {
        timeout = if r.time == 0 then r.caller.timeout else (r.time + jiffies) % 0x100000000;
      };
    }

-- What tty_read asks for besides its state: the output of the other side of a pseudo terminal,
-- whether that side has hung up, and `jiffies`.
pub record Around : Type 0 where
  pub other_write : Tty → Tty
  pub hung_up : Bool
  pub nonblock : Bool
  pub jiffies : ℕ

unfoldable pub read_loop : ℕ → Around → Reading → Option ReadResult
unfolding take_turn finish
read_loop zero a r = none
read_loop (suc fuel) a r =
    let t = a.other_write r.terminal in
    let r' : Reading = record r { terminal = t } in
    let r'' = take_turn a.jiffies r' in
    elim (r.nr == 0) [
      | true ↦ some (finish a.nonblock r)
      | false ↦ elim (must_wait t) [
        | true ↦ some (
            if r.caller.timeout == 0 || r.caller.pending
            then finish a.nonblock r'
            else if a.hung_up
            then finish a.nonblock r'
            else sleeps r')
        | false ↦ elim (has_flag t.termios.c_lflag 2 || leb r.minimum (length r''.out)) [
          | true ↦ some (finish a.nonblock r'')
          | false ↦ read_loop fuel a r''
        ]
      ]
    ]

-- VMIN, VTIME and the timeout, before the loop.
unfoldable pub set_limits : Around → ℕ → Tty → Caller → Reading
set_limits a nr tty c =
    let time = 10 * tty.termios.c_cc 5 in
    let vmin = tty.termios.c_cc 6 in
    let canon = has_flag tty.termios.c_lflag 2 in
    let counted = not canon && not (vmin == 0) in
    let minimum = if counted then vmin else nr in
    let timeout =
      if canon || counted
      then 0xffffffff
      else if time == 0
      then c.timeout
      else (time + a.jiffies) % 0x100000000 in
    record {
      nr = nr;
      out = [];
      minimum = if ltb nr minimum then nr else minimum;
      time = if a.nonblock then 0 else if counted then time else 0;
      terminal = tty;
      caller = record c { timeout = if a.nonblock then 0 else timeout };
    }

-- tty_read of the terminal `tty` with the number `channel`, in the group `pgrp`. `fuel` is for its
-- loop, and for that of copy_to_cooked.
unfoldable pub tty_read : ℕ → Env → Around → ℕ → ℕ → ℕ → Tty → Caller → Option ReadResult
unfolding tty_signal set_limits copy_to_cooked read_loop
tty_read fuel env a channel pgrp nr tty c =
    let r = set_limits a nr tty c in
    let refused = λ (x : ℤ) (y : Caller). returned x (record r { caller = y }) in
    if ltb 255 channel
    then some (refused (negsuc 4) c)
    else if c.tty == channel && not (pgrp == c.pgrp)
    then (let s = tty_signal 21 c in some (refused s.0 s.1))
    else (copy_to_cooked fuel env tty >>= λ t. read_loop fuel a (record r { terminal = t }))
