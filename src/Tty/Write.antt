-- ===== src/Tty/Write.antt =====
-- kernel/chr_drv/tty_io.c: tty_write, up to its next sleep or call of the scheduler.
use linux.Base.{
  ℕ, zero, suc, ◌+◌, ◌-◌, ◌*◌, ◌%◌, ◌≤◌, ◌<◌, ◌≡◌, ◌≢◌, refl, ap, ◌∙◌, Bool, true, false, not, ◌&&◌,
  Option, none, some, List, [], ◌∷◌, ◌++◌, arith, ltb, leb, ◌==◌, if◌then◌else◌, length, inl, inr,
  Bool-cases, ◌>>=◌,
}
use mathlib.Core.List.{append_assoc}
use linux.Base.Int.{ℤ, pos, negsuc}
use linux.Tty.{Queue, Termios, Tty, Env, full, left, putch, has_flag}
use linux.Tty.Contents.{IsValid, contents, putch-IsValid, contents-putch}
use linux.Tty.Read.{Caller, tty_signal}

-- `toupper`; the argument says what `islower` reads for a negative char.
abbrev pub toupper : (ℕ → Bool) → ℕ → ℕ
toupper lower_before c =
    if (if ltb c 128 then leb b'a' c && leb c b'z' else lower_before c) then (c + 224) % 256 else c

-- OCRNL and ONLRET, with OPOST.
abbrev pub post : Termios → ℕ → ℕ
post t c =
    if has_flag t.c_oflag 1
    then (if c == 13 && has_flag t.c_oflag 0o10
        then 10
        else if c == 10 && has_flag t.c_oflag 0o40
        then 13
        else c)
    else c

-- Whether a carriage return is to go before the byte: ONLCR, and none has gone yet.
abbrev pub wants_return : Termios → Bool → ℕ → Bool
wants_return t cr c = has_flag t.c_oflag 1 && (c == 10 && (not cr && has_flag t.c_oflag 4))

-- OLCUC
abbrev pub cased : (ℕ → Bool) → Termios → ℕ → ℕ
cased lower t c = if has_flag t.c_oflag 1 && has_flag t.c_oflag 2 then toupper lower c else c

-- `cr_flag`, the queue, and the bytes that are left to write.
pub record Written : Type 0 where
  pub cr_flag : Bool
  pub queue : Queue
  pub bytes : List ℕ

-- The inner loop.
unfoldable pub write_bytes : ℕ → (ℕ → Bool) → Termios → Bool → Queue → List ℕ → Option Written
unfolding putch
write_bytes zero lower t cr q xs = none
write_bytes (suc fuel) lower t cr q [] = some (record { cr_flag = cr; queue = q; bytes = [] })
write_bytes (suc fuel) lower t cr q (x ∷ xs) = elim (full q) [
  | true ↦ some (record { cr_flag = cr; queue = q; bytes = x ∷ xs })
  | false ↦ elim (wants_return t cr (post t x)) [
    | true ↦ write_bytes fuel lower t true (putch 13 q) (x ∷ xs)
    | false ↦ write_bytes fuel lower t false (putch (cased lower t (post t x)) q) xs
  ]
]

-- tty_write has returned, with `cr_flag`, or it sleeps until there is room, or has called the
-- scheduler, with these bytes left.
pub data WriteResult : Type 0 where
  returned : ℤ → Bool → Tty → Caller → WriteResult
  sleeps : List ℕ → Bool → Tty → WriteResult
  yields : List ℕ → Bool → Tty → WriteResult

-- The loop from the byte `xs` on, `total` bytes being asked for. A queue that is full has less than
-- 128 bytes of room.
unfoldable pub write_turn :
    ℕ → Env → (ℕ → Bool) → ℕ → Bool → List ℕ → Tty → Caller → Option WriteResult
unfolding write_bytes
write_turn fuel env lower total cr xs tty c =
    let count = pos (total - length xs) in
    if length xs == 0
    then some (returned count cr tty c)
    else if full tty.write_q && (not c.pending && ltb (left tty.write_q) 128)
    then some (sleeps xs cr tty)
    else if c.pending
    then some (returned count cr tty c)
    else (write_bytes fuel lower tty.termios cr tty.write_q xs >>= λ w.
        let tty' = env.write (record tty { write_q = w.queue }) in
        some (
          if length w.bytes == 0
          then returned (pos total) w.cr_flag tty' c
          else yields w.bytes w.cr_flag tty'))

unfoldable pub tty_write :
    ℕ → Env → (ℕ → Bool) → ℕ → ℕ → Bool → List ℕ → Tty → Caller → Option WriteResult
unfolding tty_signal write_turn
tty_write fuel env lower channel pgrp cr xs tty c =
    if ltb 255 channel
    then some (returned (negsuc 4) cr tty c)
    else if has_flag tty.termios.c_lflag 0o400 && (c.tty == channel && not (pgrp == c.pgrp))
    then (let s = tty_signal 22 c in some (returned s.0 cr tty s.1))
    else write_turn fuel env lower (length xs) cr xs tty c

-- What the bytes are to be on the line, where `cr` says that the carriage return before the first
-- one has gone.
unfoldable pub expanded : (ℕ → Bool) → Termios → Bool → List ℕ → List ℕ
expanded lower t cr [] = []
expanded lower t cr (x ∷ xs) =
    let c = post t x in
    let rest = cased lower t c ∷ expanded lower t false xs in
    if wants_return t cr c then 13 ∷ rest else rest

-- What the loop does with the bytes: all of them go on the line in order.
pub record Sent (lower : ℕ → Bool) (t : Termios) (cr : Bool) (q : Queue) (xs : List ℕ) (w : Written)
    : Type 0 where
  pub valid : IsValid w.queue
  pub same :
      contents w.queue ++ expanded lower t w.cr_flag w.bytes ≡ contents q ++ expanded lower t cr xs
  pub stopped : (w.bytes ≢ []) → full w.queue ≡ true

abbrev pub turns : Bool → List ℕ → ℕ
turns cr xs = 2 * length xs + (if cr then 0 else 1)

turns-suc : (cr : Bool) (x : ℕ) (xs : List ℕ) → turns false xs < turns cr (x ∷ xs)
turns-suc true x xs = omega arith
turns-suc false x xs = omega arith

again : (t : Termios) (c : ℕ) → wants_return t true c ≡ false
again t c = neither (has_flag t.c_oflag 1) (c == 10)
  where
    neither : (a b : Bool) → (a && (b && false)) ≡ false
    neither a b = ground arith

turns-return :
    (cr : Bool) (t : Termios) (c x : ℕ) (xs : List ℕ)
    → wants_return t cr c ≡ true
    → turns true (x ∷ xs) < turns cr (x ∷ xs)
turns-return true t c x xs e = cc (again t c)
turns-return false t c x xs e = omega arith

Sent-return :
    (lower : ℕ → Bool) (t : Termios) (cr : Bool) (q : Queue) (x : ℕ) (xs : List ℕ) (w : Written)
    → IsValid q
    → full q ≡ false
    → wants_return t cr (post t x) ≡ true
    → Sent lower t true (putch 13 q) (x ∷ xs) w
    → Sent lower t cr q (x ∷ xs) w
unfolding expanded
Sent-return lower t cr q x xs w v f e s = record {
  valid = s.valid;
  same =
      s.same
      ∙ (ap (λ l. l ++ expanded lower t true (x ∷ xs)) (contents-putch q 13 v f)
          ∙ (append_assoc (contents q) (13 ∷ []) (expanded lower t true (x ∷ xs))
              ∙ rw (again t (post t x), e) refl));
  stopped = s.stopped;
}

Sent-byte :
    (lower : ℕ → Bool) (t : Termios) (cr : Bool) (q : Queue) (x : ℕ) (xs : List ℕ) (w : Written)
    → IsValid q
    → full q ≡ false
    → wants_return t cr (post t x) ≡ false
    → Sent lower t false (putch (cased lower t (post t x)) q) xs w
    → Sent lower t cr q (x ∷ xs) w
unfolding expanded
Sent-byte lower t cr q x xs w v f e s = record {
  valid = s.valid;
  same =
      s.same
      ∙ (ap (λ l. l ++ expanded lower t false xs) (contents-putch q (cased lower t (post t x)) v f)
          ∙ (append_assoc (contents q) (cased lower t (post t x) ∷ []) (expanded lower t false xs)
              ∙ rw e refl));
  stopped = s.stopped;
}

-- The inner loop of `tty_write` ends, after two turns a byte at most. What it has put into the queue,
-- and what the bytes that are left are still to give, is what the bytes give, in order, a carriage
-- return that is due before a newline included, which is put once, also where the queue is full
-- between the two. Bytes are left only if the queue is full.
pub write_bytes-Sent :
    (fuel : ℕ) (lower : ℕ → Bool) (t : Termios) (cr : Bool) (q : Queue) (xs : List ℕ)
    → IsValid q
    → turns cr xs < fuel
    → (w : Written) × (write_bytes fuel lower t cr q xs ≡ some w) × Sent lower t cr q xs w
unfolding write_bytes
write_bytes-Sent zero lower t cr q xs v l = absurd (omega arith)
write_bytes-Sent (suc fuel) lower t cr q [] v l = (
  record { cr_flag = cr; queue = q; bytes = [] },
  refl,
  record { valid = v; same = refl; stopped = λ n. absurd (n refl) },
)
write_bytes-Sent (suc fuel) lower t cr q (x ∷ xs) v l = elim (Bool-cases (full q)) [
  | inl f ↦
      rw (write_bytes, f)
        (
          record { cr_flag = cr; queue = q; bytes = x ∷ xs },
          refl,
          record { valid = v; same = refl; stopped = λ _. f },
        )
  | inr f ↦ elim (Bool-cases (wants_return t cr (post t x))) [
    | inl e ↦
        let (w, r, s) =
          write_bytes-Sent fuel lower t true (putch 13 q) (x ∷ xs) (putch-IsValid q 13 v)
            (omega (arith, turns-return cr t (post t x) x xs e)) in
        (w, rw (write_bytes, f, e) r, Sent-return lower t cr q x xs w v f e s)
    | inr e ↦
        let (w, r, s) =
          write_bytes-Sent fuel lower t false (putch (cased lower t (post t x)) q) xs
            (putch-IsValid q (cased lower t (post t x)) v) (omega (arith, turns-suc cr x xs)) in
        (w, rw (write_bytes, f, e) r, Sent-byte lower t cr q x xs w v f e s)
  ]
]

-- In the foreground, with no signal pending and room in the queue of the terminal, `tty_write` does
-- not sleep. The bytes that it has put into the queue when it calls the terminal's write function,
-- and what those that are left are still to give, are what the bytes that it is given are to give,
-- in order. It returns the number of these if none is left, and otherwise, with the queue full, it
-- calls the scheduler, to go on with those that are left. Two turns a byte are enough, and one more.
pub tty_write-Sent :
    (env : Env) (lower : ℕ → Bool) (channel pgrp : ℕ) (cr : Bool) (xs : List ℕ) (tty : Tty)
    (c : Caller)
    → IsValid tty.write_q
    → channel ≤ 255
    → (has_flag tty.termios.c_lflag 0o400 && (c.tty == channel && not (pgrp == c.pgrp))) ≡ false
    → c.pending ≡ false
    → full tty.write_q ≡ false
    → 0 < length xs
    → (w : Written) × Sent lower tty.termios cr tty.write_q xs w
      × (tty_write (2 * length xs + 2) env lower channel pgrp cr xs tty c
          ≡ some (
              if length w.bytes == 0
              then returned
                  (pos (length xs))
                  w.cr_flag
                  (env.write (record tty { write_q = w.queue }))
                  c
              else yields w.bytes w.cr_flag (env.write (record tty { write_q = w.queue }))))
unfolding tty_write
tty_write-Sent env lower channel pgrp cr xs tty c v ch job quiet space l =
    let (w, e, s) =
      write_bytes-Sent (2 * length xs + 2) lower tty.termios cr tty.write_q xs v (ground arith) in
    let low : ltb 255 channel ≡ false = ground arith in
    let some_left : (length xs == 0) ≡ false = ground arith in
    (w, s, rw (low, job, some_left, space, quiet, e) refl)
