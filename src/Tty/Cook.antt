-- ===== src/Tty/Cook.antt =====
-- kernel/chr_drv/tty_io.c: copy_to_cooked.
use mathlib.Core.Path.{subst}
use linux.Base.{
  ℕ, zero, suc, ◌+◌, ◌<◌, ◌≡◌, refl, sym, ap, ap₂, ◌∙◌, Bool, true, false, ◌&&◌, ◌||◌, Option, none,
  some, List, [], ◌∷◌, arith, ◌==◌, if◌then◌else◌, length, inl, inr, Bool-cases, if-cases,
}
use linux.Tty.{
  Queue, Termios, Tty, Env, empty, full, chars, take_char, putch, has_flag, is_cc, is_end,
  translate, echo, accept, signal_or_accept, cook_char, cook_turn, copy_to_cooked, send,
}
use linux.Tty.Contents.{
  IsValid, contents, newest, newest-putch, putch-IsValid, take_char-IsValid, contents-take_char,
  contents-empty, length-newest, newest-same, full-chars,
}
use linux.Tty.Line.{count_ends, edited, edited?, cooked, Keeps, Holds, Holds-same}
use linux.Tty.Edit.{kill_line-Holds, erase-Holds}

module _ (env : Env) (keeps : Keeps env) where
  room :
      (t : Termios) (i r : List ℕ) (tty : Tty)
      → Holds t i r tty
      → full tty.secondary ≡ (length r == 1023)
  room t i r tty h =
      full-chars tty.secondary h.line_valid
      ∙ ap (λ n. n == 1023) (sym (length-newest tty.secondary) ∙ ap length h.line)

  -- The byte is put behind a line whose ends are counted with it.
  putch-Holds :
      (t : Termios) (i r : List ℕ) (c : ℕ) (q : Queue) (a b : Tty)
      → (length r == 1023) ≡ false
      → Holds t i r a
      → q.head ≡ a.secondary.head
      → q.tail ≡ a.secondary.tail
      → q.buf ≡ a.secondary.buf
      → q.lines ≡ count_ends t (c ∷ r)
      → b.termios ≡ a.termios
      → b.read_q ≡ a.read_q
      → b.secondary ≡ q
      → Holds t i (c ∷ r) (record b { secondary = putch c b.secondary })
  unfolding putch
  putch-Holds t i r c q a b n h qh qt qb ql bt br bs = record {
    same_termios = bt ∙ h.same_termios;
    read_valid = subst IsValid (sym br) h.read_valid;
    line_valid = subst (λ x. IsValid (putch c x)) (sym bs) (putch-IsValid q c valid);
    input = ap contents br ∙ h.input;
    line =
        ap (λ x. newest (putch c x)) bs
        ∙ (newest-putch q c valid (space ∙ n) ∙ ap (λ l. c ∷ l) same_line);
    counted = ap (λ (x : Queue). x.lines) (ap (putch c) bs) ∙ ql;
  }
    where
      valid : IsValid q
      valid = record {
        head = omega (arith, h.line_valid.head);
        tail = omega (arith, h.line_valid.tail);
      }

      same_line : newest q ≡ r
      same_line = newest-same q a.secondary qh qt qb ∙ h.line

      space : full q ≡ (length r == 1023)
      space = full-chars q valid ∙ ap (λ n. n == 1023) (sym (length-newest q) ∙ ap length same_line)

  ended : Termios → ℕ → Queue → Queue
  ended t c q = if is_end t c then record q { lines = q.lines + 1 } else q

  accept-Holds :
      (t : Termios) (i r : List ℕ) (c : ℕ) (tty : Tty)
      → (length r == 1023) ≡ false
      → Holds t i r tty
      → Holds t i (c ∷ r) (accept env c tty)
  unfolding accept ended
  accept-Holds t i r c tty n h =
      putch-Holds t i r c (ended tty.termios c tty.secondary) tty
        (env.write (record tty {
          secondary = ended tty.termios c tty.secondary;
          write_q = echo tty.termios c tty.write_q;
        }))
        n h (ground arith) (ground arith) (ground arith)
        (ap (λ u. (ended u c tty.secondary).lines) h.same_termios ∙ ground (arith, h.counted))
        (keeps.same_termios _) (keeps.same_read _) (keeps.same_secondary _)

  -- Where each of the cases that send a signal keeps the line, and the last one adds a byte to it.
  by_signal {ℓ} :
      {A : Type 0} (P : List ℕ → A → Type ℓ) (r l : List ℕ) (isig u v w : Bool) (a b d e : A)
      → P r a
      → P r b
      → P r d
      → P l e
      → P
          (if isig && (u || (v || w)) then r else l)
          (if isig && u then a else if isig && v then b else if isig && w then d else e)
  by_signal P r l false u v w a b d e pa pb pd pe = pe
  by_signal P r l true true v w a b d e pa pb pd pe = pa
  by_signal P r l true false true w a b d e pa pb pd pe = pb
  by_signal P r l true false false true a b d e pa pb pd pe = pd
  by_signal P r l true false false false a b d e pa pb pd pe = pe

  by_control {ℓ} :
      {A : Type 0} (P : List ℕ → A → Type ℓ) (r l : List ℕ) (ixon p q sig : Bool) (a b e : A)
      → P r a
      → P r b
      → P (if sig then r else l) e
      → P
          (if (ixon && (p || q)) || sig then r else l)
          (if ixon && p then a else if ixon && q then b else e)
  by_control P r l false p q sig a b e pa pb pe = pe
  by_control P r l true true q sig a b e pa pb pe = pa
  by_control P r l true false true sig a b e pa pb pe = pb
  by_control P r l true false false sig a b e pa pb pe = pe

  write-Holds :
      (t : Termios) (i r : List ℕ) (x : Bool) (tty : Tty)
      → Holds t i r tty
      → Holds t i r (env.write (record tty { stopped = x }))
  write-Holds t i r x tty h =
      Holds-same t i r tty (env.write (record tty { stopped = x })) (keeps.same_termios _)
        (keeps.same_read _) (keeps.same_secondary _) h

  send-Holds :
      (t : Termios) (i r : List ℕ) (sig : ℕ) (tty : Tty)
      → Holds t i r tty
      → Holds t i r (send sig tty)
  send-Holds t i r sig tty h = Holds-same t i r tty (send sig tty) refl refl refl h

  signal_or_accept-Holds :
      (i r : List ℕ) (c : ℕ) (tty : Tty)
      → (length r == 1023) ≡ false
      → Holds tty.termios i r tty
      → Holds tty.termios i
          (if has_flag tty.termios.c_lflag 1
              && (is_cc tty.termios 0 c || (is_cc tty.termios 1 c || is_cc tty.termios 10 c))
            then r
            else c ∷ r)
          (signal_or_accept env c tty)
  unfolding signal_or_accept
  signal_or_accept-Holds i r c tty n h =
      by_signal (Holds tty.termios i) r (c ∷ r) (has_flag tty.termios.c_lflag 1)
        (is_cc tty.termios 0 c) (is_cc tty.termios 1 c) (is_cc tty.termios 10 c) _ _ _ _
        (send-Holds _ i r 2 tty h) (send-Holds _ i r 3 tty h)
        (if-cases (Holds tty.termios i r) env.orphaned tty (send 20 tty) (λ _. h)
          (λ _. send-Holds _ i r 20 tty h))
        (accept-Holds _ i r c tty n h)

  if_both {ℓ} :
      {A : Type 0} (P : List ℕ → A → Type ℓ) (b : Bool) (r l : List ℕ) (x y : A)
      → P r x
      → P l y
      → P (if b then r else l) (if b then x else y)
  if_both P true r l x y p q = p
  if_both P false r l x y p q = q

  cook_own :
      (i r : List ℕ) (c : ℕ) (tty : Tty)
      → (length r == 1023) ≡ false
      → Holds tty.termios i r tty
      → Holds tty.termios i (edited tty.termios c r) (cook_char env c tty)
  unfolding cook_char
  cook_own i r c tty n h =
      let t = tty.termios in
      if_both (Holds t i) (has_flag t.c_lflag 2 && is_cc t 3 c) _ _ _ _
        (kill_line-Holds env keeps (chars tty.secondary) t i r tty
          (omega (arith, length-newest tty.secondary, ap length h.line)) h)
        (if_both (Holds t i) (has_flag t.c_lflag 2 && is_cc t 2 c) _ _ _ _
          (erase-Holds env keeps t i r tty h)
          (by_control (Holds t i) r (c ∷ r) (has_flag t.c_iflag 0o2000) (is_cc t 9 c) (is_cc t 8 c)
            _ _ _ _ (write-Holds t i r true tty h) (write-Holds t i r false tty h)
            (signal_or_accept-Holds i r c tty n h)))

  cook_char-Holds :
      (t : Termios) (i r : List ℕ) (c : ℕ) (tty : Tty)
      → (length r == 1023) ≡ false
      → Holds t i r tty
      → Holds t i (edited t c r) (cook_char env c tty)
  cook_char-Holds t i r c tty n h =
      subst (λ u. Holds u i (edited u c r) (cook_char env c tty)) h.same_termios
        (cook_own i r c tty n (subst (λ u. Holds u i r tty) (sym h.same_termios) h))

  -- GETCH takes the first byte.
  take-Holds :
      (t : Termios) (x : ℕ) (i r : List ℕ) (tty : Tty)
      → empty tty.read_q ≡ false
      → Holds t (x ∷ i) r tty
      → (tty.read_q.buf tty.read_q.tail ≡ x)
        × Holds t i r (record tty { read_q = take_char tty.read_q })
  take-Holds t x i r tty e h =
      let l = contents-take_char tty.read_q h.read_valid e in
      (
        cc (l, h.input),
        record {
          same_termios = h.same_termios;
          read_valid = take_char-IsValid tty.read_q h.read_valid;
          line_valid = h.line_valid;
          input = cc (l, h.input);
          line = h.line;
          counted = h.counted;
        },
      )

  cook_turn-Holds :
      (t : Termios) (x : ℕ) (i r : List ℕ) (tty : Tty)
      → empty tty.read_q ≡ false
      → (length r == 1023) ≡ false
      → Holds t (x ∷ i) r tty
      → Holds t i (edited? t (translate env t x) r) (cook_turn env tty)
  unfolding cook_turn
  cook_turn-Holds t x i r tty e n h =
      let (bx, h') = take-Holds t x i r tty e h in
      subst (λ o. Holds t i (edited? t (translate env t x) r) (turn o tty))
        (ap₂ (translate env) (sym h.same_termios) (sym bx)) (each (translate env t x) h')
    where
      turn : Option ℕ → Tty → Tty
      turn o tty =
          let tty' : Tty = record tty { read_q = take_char tty.read_q } in
          elim o [ none ↦ tty' | some c ↦ cook_char env c tty' ]

      each :
          (o : Option ℕ)
          → Holds t i r (record tty { read_q = take_char tty.read_q })
          → Holds t i (edited? t o r) (turn o tty)
      each none h' = h'
      each (some c) h' = cook_char-Holds t i r c (record tty { read_q = take_char tty.read_q }) n h'

  no_input : (t : Termios) (r : List ℕ) (tty : Tty) → Holds t [] r tty → empty tty.read_q ≡ true
  no_input t r tty h = elim (Bool-cases (empty tty.read_q)) [
    | inl e ↦ e
    | inr e ↦ cc (contents-take_char tty.read_q h.read_valid e, h.input)
  ]

  some_input :
      (t : Termios) (x : ℕ) (i r : List ℕ) (tty : Tty)
      → Holds t (x ∷ i) r tty
      → empty tty.read_q ≡ false
  some_input t x i r tty h = elim (Bool-cases (empty tty.read_q)) [
    | inl e ↦ cc (contents-empty tty.read_q h.read_valid e, h.input)
    | inr e ↦ e
  ]

  woken-Holds :
      (t : Termios) (i r : List ℕ) (tty : Tty)
      → Holds t i r tty
      → Holds t i r (record tty { woken = true })
  woken-Holds t i r tty h = Holds-same t i r tty (record tty { woken = true }) refl refl refl h

  -- `copy_to_cooked` returns. It takes the bytes to read in order, edits the line by each of them as
  -- `edited` says, until there are no more or the line holds 1023 bytes, and wakes up the readers;
  -- `data` then counts the ends of lines in the line, as it did before. One turn more than there are
  -- bytes to read is enough, where the write function of the terminal leaves the settings, the bytes
  -- to read and the line alone.
  pub copy_to_cooked-Holds :
      (fuel : ℕ) (t : Termios) (i r : List ℕ) (tty : Tty)
      → length i < fuel
      → Holds t i r tty
      → (tty' : Tty) × (copy_to_cooked fuel env tty ≡ some tty')
        × Holds t (cooked env t i r).0 (cooked env t i r).1 tty'
        × (tty'.woken ≡ true)
  unfolding copy_to_cooked cooked
  copy_to_cooked-Holds zero t i r tty l h = absurd (omega arith)
  copy_to_cooked-Holds (suc fuel) t [] r tty l h =
      rw (copy_to_cooked, no_input t r tty h)
        (record tty { woken = true }, refl, woken-Holds t [] r tty h, refl)
  copy_to_cooked-Holds (suc fuel) t (x ∷ i) r tty l h = elim (Bool-cases (length r == 1023)) [
    | inl e ↦
        rw (copy_to_cooked, some_input t x i r tty h, room t (x ∷ i) r tty h, e)
          (record tty { woken = true }, refl, woken-Holds t (x ∷ i) r tty h, refl)
    | inr e ↦
        rw (copy_to_cooked, some_input t x i r tty h, room t (x ∷ i) r tty h, e)
          (copy_to_cooked-Holds fuel t i (edited? t (translate env t x) r) (cook_turn env tty)
            (omega arith) (cook_turn-Holds t x i r tty (some_input t x i r tty h) e h))
  ]
