-- ===== src/Tty/Echo.antt =====
-- kernel/chr_drv/tty_io.c: the echo of copy_to_cooked while the output is stopped.
use linux.Base.{
  ℕ, suc, ◌≤◌, ◌≡◌, ◌≢◌, ap, sym, ◌∙◌, true, false, some, List, [], ◌∷◌, ◌+◌, length, Bool-cases,
  inl, inr, arith, if◌then◌else◌,
}
use linux.Tty.{
  chars, Queue, Termios, Tty, Env, full, empty, take_char, has_flag, is_cc, is_end, echo, translate,
  accept, signal_or_accept, cook_char, cook_turn, copy_to_cooked,
}
use linux.Tty.Contents.{
  IsValid, contents, contents-take_char, take_char-IsValid, contents-empty, length-contents,
  full-chars,
}
use linux.Tty.Edit.{echo_full}

-- A byte that is neither translated nor a control character, and that is echoed.
pub record IsPlain (t : Termios) (c : ℕ) : Type 0 where
  pub printed : 32 ≤ c
  pub kept : has_flag t.c_iflag 0o1000 ≡ false
  pub no_cc : (i : ℕ) → t.c_cc i ≢ c
  pub echoed : has_flag t.c_lflag 0o10 ≡ true

plain_is_cc : (t : Termios) (c i : ℕ) → IsPlain t c → is_cc t i c ≡ false
plain_is_cc t c i p = let n = p.no_cc i in ground (arith, n)

plain-translate : (env : Env) (t : Termios) (c : ℕ) → IsPlain t c → translate env t c ≡ some c
unfolding translate
plain-translate env t c p = let l = p.printed in let k = p.kept in ground (arith, l, k)

plain-cook_char :
    (env : Env) (c : ℕ) (tty : Tty) → IsPlain tty.termios c → cook_char env c tty ≡ accept env c tty
unfolding cook_char signal_or_accept
plain-cook_char env c tty p =
    let t = tty.termios in
    let no : (i : ℕ) → is_cc t i c ≡ false = λ i. plain_is_cc t c i p in
    ground (arith, no 0, no 1, no 2, no 3, no 8, no 9, no 10)

-- The terminal is stopped, so what is echoed stays in its queue.
plain-accept :
    (env : Env) (c : ℕ) (tty : Tty)
    → ((s : Tty) → s.stopped ≡ true → env.write s ≡ s)
    → tty.stopped ≡ true
    → ((accept env c tty).write_q ≡ echo tty.termios c tty.write_q)
      × ((accept env c tty).read_q ≡ tty.read_q)
unfolding accept
plain-accept env c tty holds stop =
    let counted : Queue =
      if is_end tty.termios c
      then record tty.secondary { lines = tty.secondary.lines + 1 }
      else tty.secondary in
    let w =
      holds (record tty { secondary = counted; write_q = echo tty.termios c tty.write_q }) stop in
    (ap (λ (s : Tty). s.write_q) w, ap (λ (s : Tty). s.read_q) w)

plain-cook_turn :
    (env : Env) (c : ℕ) (tty : Tty)
    → tty.read_q.buf tty.read_q.tail ≡ c
    → IsPlain tty.termios c
    → cook_turn env tty ≡ accept env c (record tty { read_q = take_char tty.read_q })
unfolding cook_turn
plain-cook_turn env c tty first p =
    rw (cook_turn, first, plain-translate env tty.termios c p)
      (plain-cook_char env c (record tty { read_q = take_char tty.read_q }) p)

-- `copy_to_cooked` does not ask whether there is room for the echo. While the output is stopped, and
-- the write function then leaves everything as it is, one plain byte that has been typed ends a call
-- with the output queue empty if it was full with 1023 bytes: all of them are lost, and the echo too.
pub echo-lost :
    (fuel : ℕ) (env : Env) (c : ℕ) (tty : Tty)
    → ((s : Tty) → s.stopped ≡ true → env.write s ≡ s)
    → tty.stopped ≡ true
    → IsValid tty.write_q
    → full tty.write_q ≡ true
    → full tty.secondary ≡ false
    → contents tty.read_q ≡ c ∷ []
    → IsValid tty.read_q
    → IsPlain tty.termios c
    → (length (contents tty.write_q) ≡ 1023)
      × (out : Tty) × (copy_to_cooked (suc (suc fuel)) env tty ≡ some out)
      × (contents out.write_q ≡ [])
unfolding copy_to_cooked
echo-lost fuel env c tty holds stop v f room typed valid p =
    let after = accept env c (record tty { read_q = take_char tty.read_q }) in
    let (q, r) = plain-accept env c (record tty { read_q = take_char tty.read_q }) holds stop in
    let has : empty tty.read_q ≡ false = one_byte tty.read_q c valid typed in
    let e = contents-take_char tty.read_q valid has in
    let turn = plain-cook_turn env c tty (head_is (sym e ∙ typed)) p in
    let gone : empty after.read_q ≡ true =
      ap empty r
      ∙ no_byte (take_char tty.read_q) (take_char-IsValid tty.read_q valid)
          (tail_is (sym e ∙ typed)) in
    (
      length-contents tty.write_q ∙ full_count tty.write_q v f,
      record after { woken = true },
      rw (copy_to_cooked, has, room, turn, gone)
          (ap (λ (s : Tty). some (record s { woken = true })) turn),
      ap contents q ∙ echo_full tty.termios c tty.write_q v f p.echoed p.printed,
    )
  where
    head_is : {x y : ℕ} {l m : List ℕ} → x ∷ l ≡ y ∷ m → x ≡ y
    head_is h = cc

    tail_is : {x y : ℕ} {l m : List ℕ} → x ∷ l ≡ y ∷ m → l ≡ m
    tail_is h = cc

    full_count : (q : Queue) → IsValid q → full q ≡ true → chars q ≡ 1023
    full_count q v f = ground (arith, full-chars q v)

    one_byte : (q : Queue) (c : ℕ) → IsValid q → contents q ≡ c ∷ [] → empty q ≡ false
    one_byte q c v h = elim (Bool-cases (empty q)) [
      | inl e ↦ let n = contents-empty q v e in cc
      | inr e ↦ e
    ]

    no_byte : (q : Queue) → IsValid q → contents q ≡ [] → empty q ≡ true
    no_byte q v h = elim (Bool-cases (empty q)) [
      | inl e ↦ e
      | inr e ↦ let n = contents-take_char q v e in cc
    ]
