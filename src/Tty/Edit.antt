-- ===== src/Tty/Edit.antt =====
-- kernel/chr_drv/tty_io.c: ERASE and KILL in copy_to_cooked.
use linux.Base.{
  ℕ, zero, suc, ◌≤◌, ◌≡◌, refl, ◌∙◌, true, false, List, [], ◌∷◌, arith, ◌==◌, ltb, if◌then◌else◌,
  length, inl, inr, Bool-cases, if-cases,
}
use linux.Tty.{
  Queue, Termios, Tty, Env, full, last, putch, drop_last, has_flag, is_end, rub_out, at_start,
  kill_line, echo,
}
use linux.Tty.Contents.{IsValid, contents, drop_last-IsValid, newest-drop_last, contents-putch_full}
use linux.Tty.Line.{erase_byte, kill_bytes, Keeps, Holds, Holds-same, line_cases, nonempty}

module _ (env : Env) (keeps : Keeps env) where
  echoed : Queue → Tty → Tty
  echoed q tty =
      if has_flag tty.termios.c_lflag 0o10 then env.write (record tty { write_q = q }) else tty

  Holds-echoed :
      (t : Termios) (i r : List ℕ) (q : Queue) (tty : Tty)
      → Holds t i r tty
      → Holds t i r (echoed q tty)
  unfolding echoed
  Holds-echoed t i r q tty h =
      if-cases (Holds t i r) (has_flag tty.termios.c_lflag 0o10)
        (env.write (record tty { write_q = q })) tty
        (λ _.
          Holds-same t i r tty (env.write (record tty { write_q = q })) (keeps.same_termios _)
            (keeps.same_read _) (keeps.same_secondary _) h)
        (λ _. h)

  Holds-drop :
      (t : Termios) (i r : List ℕ) (x : ℕ) (tty : Tty)
      → is_end t x ≡ false
      → Holds t i (x ∷ r) tty
      → Holds t i r (record tty { secondary = drop_last tty.secondary })
  unfolding drop_last
  Holds-drop t i r x tty e h =
      let l = newest-drop_last tty.secondary h.line_valid (nonempty t i r x tty h) in
      record {
        same_termios = h.same_termios;
        read_valid = h.read_valid;
        line_valid = drop_last-IsValid tty.secondary h.line_valid;
        input = h.input;
        line = cc (l, h.line);
        counted = h.counted ∙ rw e refl;
      }

  pub rub_out-Holds :
      (t : Termios) (i r : List ℕ) (x : ℕ) (tty : Tty)
      → is_end t x ≡ false
      → Holds t i (x ∷ r) tty
      → Holds t i r (rub_out env tty)
  unfolding rub_out echoed
  rub_out-Holds t i r x tty e h =
      Holds-drop t i r x
        (echoed
          (if ltb (last tty.secondary) 32
            then putch 127 (putch 127 tty.write_q)
            else putch 127 tty.write_q)
          tty)
        e
        (Holds-echoed t i (x ∷ r)
          (if ltb (last tty.secondary) 32
            then putch 127 (putch 127 tty.write_q)
            else putch 127 tty.write_q)
          tty h)

  pub kill_line-Holds :
      (k : ℕ) (t : Termios) (i r : List ℕ) (tty : Tty)
      → length r ≤ k
      → Holds t i r tty
      → Holds t i (kill_bytes t r) (kill_line k env tty)
  unfolding kill_line
  kill_line-Holds zero t i [] tty l h = h
  kill_line-Holds zero t i (x ∷ r) tty l h = absurd (omega arith)
  kill_line-Holds (suc k) t i [] tty l h = rw (kill_line, line_cases t i [] tty h) h
  kill_line-Holds (suc k) t i (x ∷ r) tty l h = elim (Bool-cases (is_end t x)) [
    | inl e ↦ rw (kill_line, line_cases t i (x ∷ r) tty h, e) h
    | inr e ↦
        rw (kill_line, line_cases t i (x ∷ r) tty h, e)
          (kill_line-Holds k t i r (rub_out env tty) (omega arith) (rub_out-Holds t i r x tty e h))
  ]

  pub erase-Holds :
      (t : Termios) (i r : List ℕ) (tty : Tty)
      → Holds t i r tty
      → Holds t i (erase_byte t r) (if at_start tty then tty else rub_out env tty)
  erase-Holds t i [] tty h = rw (line_cases t i [] tty h) h
  erase-Holds t i (x ∷ r) tty h = elim (Bool-cases (is_end t x)) [
    | inl e ↦ rw (line_cases t i (x ∷ r) tty h, e) h
    | inr e ↦ rw (line_cases t i (x ∷ r) tty h, e) (rub_out-Holds t i r x tty e h)
  ]

-- One printed byte that is echoed into a full queue loses everything that the queue held.
pub echo_full :
    (t : Termios) (c : ℕ) (q : Queue)
    → IsValid q
    → full q ≡ true
    → has_flag t.c_lflag 0o10 ≡ true
    → 32 ≤ c
    → contents (echo t c q) ≡ []
unfolding echo
echo_full t c q v f e l =
    let low : ltb c 32 ≡ false = ground arith in
    let nl : (c == 10) ≡ false = ground arith in rw (e, nl, low) (contents-putch_full q c v f)
