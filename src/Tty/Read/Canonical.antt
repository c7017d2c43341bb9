-- ===== src/Tty/Read/Canonical.antt =====
-- kernel/chr_drv/tty_io.c: tty_read in canonical mode.
use mathlib.Core.Path.{subst}
use mathlib.Core.List.{reverse, reverse-cons, reverse-reverse}
use linux.Base.{
  ℕ, zero, suc, ◌+◌, ◌≤◌, ◌<◌, ◌≡◌, ◌≢◌, refl, sym, ap, ap₂, ◌∙◌, Bool, true, false, not, ◌&&◌,
  ◌||◌, List, [], ◌∷◌, ◌++◌, arith, ◌==◌, ltb, length, inl, inr, Bool-cases, some,
}
use linux.Tty.{Queue, Tty, Env, Termios, empty, full, has_flag}
use linux.Tty.Contents.{contents, newest, contents-empty, reverse-newest}
use linux.Tty.Line.{Keeps, Holds, cooked, count_ends}
use linux.Tty.Cook.{copy_to_cooked-Holds}
use linux.Tty.Read.{
  Caller, Around, Reading, must_wait, finish, read_bytes, take_turn, read_loop, set_limits,
  tty_read,
}
use linux.Tty.Read.Line.{first_line, Taken, read_bytes-Taken}

count_ends-append :
    (t : Termios) (xs ys : List ℕ) → count_ends t (xs ++ ys) ≡ count_ends t xs + count_ends t ys
count_ends-append t [] ys = omega arith
count_ends-append t (x ∷ xs) ys = ground (arith, count_ends-append t xs ys)

count_ends-reverse : (t : Termios) (xs : List ℕ) → count_ends t (reverse xs) ≡ count_ends t xs
count_ends-reverse t [] = refl
count_ends-reverse t (x ∷ xs) =
    ap (count_ends t) (reverse-cons x xs)
    ∙ (count_ends-append t (reverse xs) (x ∷ []) ∙ ground (arith, count_ends-reverse t xs))

-- A terminal with a queue from which a first part has been taken.
Holds-taken :
    (t : Termios) (i r : List ℕ) (want : List ℕ × List ℕ) (got : List ℕ × Queue) (tty : Tty)
    → Holds t i r tty
    → Taken t want got
    → Holds t i (reverse want.1) (record tty { secondary = got.1; read_woken = true })
Holds-taken t i r want got tty h k = record {
  same_termios = h.same_termios;
  read_valid = h.read_valid;
  line_valid = k.valid;
  input = h.input;
  line = sym (reverse-reverse (newest got.1)) ∙ ap reverse (reverse-newest got.1 k.valid ∙ k.rest);
  counted = k.counted ∙ sym (count_ends-reverse t want.1);
}

-- There is a line to take.
line_there :
    (t : Termios) (i r : List ℕ) (tty : Tty)
    → Holds t i r tty
    → count_ends t r ≢ 0
    → (x : ℕ) × (xs : List ℕ) × (reverse r ≡ x ∷ xs) × (empty tty.secondary ≡ false)
line_there t i r tty h n = from (reverse r) refl
  where
    same : contents tty.secondary ≡ reverse r
    same = sym (reverse-newest tty.secondary h.line_valid) ∙ ap reverse h.line

    from :
        (l : List ℕ)
        → reverse r ≡ l
        → (x : ℕ) × (xs : List ℕ) × (reverse r ≡ x ∷ xs) × (empty tty.secondary ≡ false)
    from [] e = absurd (n (sym (count_ends-reverse t r) ∙ ap (count_ends t) e))
    from (x ∷ xs) e = (
      x,
      xs,
      e,
      elim (Bool-cases (empty tty.secondary)) [
        | inl d ↦ cc (contents-empty tty.secondary h.line_valid d, same, e)
        | inr d ↦ d
      ],
    )

-- The loop of tty_read ends in its first turn.
read_loop_line :
    (fuel nr : ℕ) (t : Termios) (i r : List ℕ) (a : Around) (s : Reading)
    → Holds t i r s.terminal
    → has_flag t.c_lflag 2 ≡ true
    → s.nr ≡ suc nr
    → s.out ≡ []
    → a.other_write s.terminal ≡ s.terminal
    → count_ends t r ≢ 0
    → (got : Reading) × (read_loop (suc fuel) a s ≡ some (finish a.nonblock got))
      × (got.out ≡ (first_line (suc nr) t (reverse r)).0)
      × Holds t i (reverse (first_line (suc nr) t (reverse r)).1) got.terminal
unfolding read_loop take_turn
read_loop_line fuel nr t i r a s h canon sn so other n =
    let (x, xs, e, some_there) = line_there t i r s.terminal h n in
    let q = s.terminal.secondary in
    let own : contents q ≡ x ∷ xs = sym (reverse-newest q h.line_valid) ∙ (ap reverse h.line ∙ e) in
    let number : q.lines ≡ count_ends t (x ∷ xs) =
      h.counted ∙ (sym (count_ends-reverse t r) ∙ ap (count_ends t) e) in
    let k : Taken t (first_line (suc nr) t (reverse r)) (read_bytes (suc nr) t q) =
      subst (λ l. Taken t (first_line (suc nr) t l) (read_bytes (suc nr) t q)) (sym e)
        (read_bytes-Taken nr t x xs q h.line_valid some_there own number) in
    let nz : (s.nr == 0) ≡ false = ground arith in
    let cn : has_flag (a.other_write s.terminal).termios.c_lflag 2 ≡ true =
      ap (λ (u : Tty). has_flag u.termios.c_lflag 2) other
      ∙ (ap (λ (u : Termios). has_flag u.c_lflag 2) h.same_termios ∙ canon) in
    let lines_there : (q.lines == 0) ≡ false = ground (arith, h.counted) in
    let mw : must_wait (a.other_write s.terminal) ≡ false =
      ap must_wait other
      ∙ wait_false (empty q) _ (not (full_read s.terminal)) _ some_there lines_there in
    (
      take_turn a.jiffies (record s { terminal = a.other_write s.terminal }),
      rw (read_loop, nz, mw, cn),
      ap₂ (λ l g. l ++ g) so (ap (λ (g : List ℕ × Queue). g.0) same_bytes ∙ k.bytes),
      subst (Holds t i (reverse (first_line (suc nr) t (reverse r)).1))
          (ap₂ (λ (u : Tty) (g : List ℕ × Queue). record u { secondary = g.1; read_woken = true })
            (sym other) (sym same_bytes))
          (Holds-taken t i r _ _ s.terminal h k),
    )
  where
    wait_false : (b c f l : Bool) → b ≡ false → l ≡ false → (b || (c && (f && l))) ≡ false
    wait_false b c f l p q = ground arith

    full_read : Tty → Bool
    full_read u = full u.read_q

    same_bytes :
        read_bytes s.nr (a.other_write s.terminal).termios (a.other_write s.terminal).secondary
        ≡ read_bytes (suc nr) t s.terminal.secondary
    same_bytes =
        ap₂ (λ m (u : Tty). read_bytes m u.termios u.secondary) sn other
        ∙ ap (λ u. read_bytes (suc nr) u s.terminal.secondary) h.same_termios

module _ (env : Env) (keeps : Keeps env) where
  -- In canonical mode `tty_read` with room for at least one byte, on a terminal whose line after
  -- `copy_to_cooked` has an end of a line, does not sleep. It puts the first line into the buffer, or
  -- as much of it as has room, with its newline and without its EOF character, and goes on to the end,
  -- where the length of what is in the buffer is returned, if it is not 0. What is left of the line
  -- stays, and `data` counts the ends of lines in it. The number of the terminal is at most 255, the
  -- caller is in the group of the terminal or has another one, there is no other side that writes, and
  -- there is more fuel than there are bytes to read.
  pub tty_read-first_line :
      (fuel channel pgrp nr : ℕ) (t : Termios) (i r : List ℕ) (a : Around) (tty : Tty) (c : Caller)
      → length i < fuel
      → Holds t i r tty
      → has_flag t.c_lflag 2 ≡ true
      → channel ≤ 255
      → (c.tty == channel && not (pgrp == c.pgrp)) ≡ false
      → ((u : Tty) → a.other_write u ≡ u)
      → count_ends t (cooked env t i r).1 ≢ 0
      → (got : Reading) × (tty_read fuel env a channel pgrp (suc nr) tty c
          ≡ some (finish a.nonblock got))
        × (got.out ≡ (first_line (suc nr) t (reverse (cooked env t i r).1)).0)
        × Holds t
            (cooked env t i r).0
            (reverse (first_line (suc nr) t (reverse (cooked env t i r).1)).1)
            got.terminal
  unfolding tty_read set_limits
  tty_read-first_line zero channel pgrp nr t i r a tty c l h canon ch job other n =
      absurd (omega arith)
  tty_read-first_line (suc fuel) channel pgrp nr t i r a tty c l h canon ch job other n =
      let (tty', e, h', w) = copy_to_cooked-Holds env keeps (suc fuel) t i r tty l h in
      let low : ltb 255 channel ≡ false = ground arith in
      let (got, g, o, k) =
        read_loop_line fuel nr t (cooked env t i r).0 (cooked env t i r).1 a
          (record (set_limits a (suc nr) tty c) { terminal = tty' }) h' canon refl refl (other tty')
          n in
      (got, rw (low, job, e) g, o, k)
