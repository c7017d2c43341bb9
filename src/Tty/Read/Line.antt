-- ===== src/Tty/Read/Line.antt =====
-- kernel/chr_drv/tty_io.c: the bytes that the inner loop of tty_read takes.
use mathlib.Core.Path.{subst}
use linux.Base.{
  ℕ, zero, suc, ◌+◌, ◌%◌, ◌≤◌, ◌<◌, ◌≡◌, refl, sym, ap, ◌∙◌, Bool, true, false, ◌&&◌, ◌||◌, List,
  [], ◌∷◌, arith, ◌==◌, if◌then◌else◌, length, inl, inr, Bool-cases, if-cases,
}
use linux.Tty.{Queue, Termios, empty, chars, take_char, has_flag, is_cc, is_end}
use linux.Tty.Contents.{
  IsValid, contents, chars-lt, take_char-IsValid, contents-take_char, contents-empty,
  length-contents,
}
use linux.Tty.Line.{count_ends}
use linux.Tty.Read.{take_byte, read_bytes}

-- The first line, or the part of it that `nr` bytes have, and what is left. A newline belongs to the
-- line, and the EOF character does not. Without canonical mode there are no lines.
unfoldable pub first_line : ℕ → Termios → List ℕ → List ℕ × List ℕ
first_line nr t [] = ([], [])
first_line zero t (x ∷ xs) = ([], x ∷ xs)
first_line (suc nr) t (x ∷ xs) =
    let canon = has_flag t.c_lflag 2 in
    let rest = first_line nr t xs in
    if is_cc t 4 x && canon
    then ([], xs)
    else if x == 10 && canon
    then (x ∷ [], xs)
    else (x ∷ rest.0, rest.1)

-- The bytes that are taken, and a queue whose lines are counted.
pub record Taken (t : Termios) (want : List ℕ × List ℕ) (got : List ℕ × Queue) : Type 0 where
  pub valid : IsValid (got.1)
  pub bytes : got.0 ≡ want.0
  pub rest : contents (got.1) ≡ want.1
  pub counted : (got.1).lines ≡ count_ends t want.1

pub count_ends-le : (t : Termios) (xs : List ℕ) → count_ends t xs ≤ length xs
count_ends-le t [] = omega arith
count_ends-le t (x ∷ xs) = ground (arith, count_ends-le t xs)

take_byte_lem :
    (t : Termios) (x : ℕ) (xs : List ℕ) (q : Queue)
    → IsValid q
    → empty q ≡ false
    → contents q ≡ x ∷ xs
    → q.lines ≡ count_ends t (x ∷ xs)
    → (q.buf q.tail ≡ x) × Taken t ([], xs) ([], take_byte t q)
unfolding take_byte contents
take_byte_lem t x xs q v e c n =
    let l = contents-take_char q v e in
    let bx : q.buf q.tail ≡ x = cc (l, c) in
    let rest : contents (take_char q) ≡ xs = cc (l, c) in
    let few : length (x ∷ xs) ≡ chars q = ap length (sym c) ∙ length-contents q in
    (
      bx,
      elim (Bool-cases (is_end t (q.buf q.tail))) [
        | inl d ↦ rw d (record {
          valid = record {
            head = (take_char-IsValid q v).head;
            tail = (take_char-IsValid q v).tail;
          };
          bytes = refl;
          rest = rest;
          counted =
              one_less
                (n
                  ∙ ap (λ (b : Bool). if b then suc (count_ends t xs) else count_ends t xs)
                      (ap (is_end t) (sym bx) ∙ d))
                (omega (arith, count_ends-le t xs, few, chars-lt q));
        })
        | inr d ↦ rw d (record {
          valid = take_char-IsValid q v;
          bytes = refl;
          rest = rest;
          counted =
              same_lines q
              ∙ (n
                  ∙ ap (λ (b : Bool). if b then suc (count_ends t xs) else count_ends t xs)
                      (ap (is_end t) (sym bx) ∙ d));
        })
      ],
    )
  where
    one_less : {a b : ℕ} → a ≡ suc b → b < 1024 → (a + 0xffffffff) % 0x100000000 ≡ b
    one_less h l = omega arith

    same_lines : (q : Queue) → (take_char q).lines ≡ q.lines
    same_lines q = unfold take_char in refl

Taken-cons :
    (t : Termios) (x : ℕ) (want : List ℕ × List ℕ) (got : List ℕ × Queue)
    → Taken t want got
    → Taken t (x ∷ want.0, want.1) (x ∷ got.0, got.1)
Taken-cons t x want got h = record {
  valid = h.valid;
  bytes = ap (λ l. x ∷ l) h.bytes;
  rest = h.rest;
  counted = h.counted;
}

first_line-zero : (t : Termios) (xs : List ℕ) → first_line 0 t xs ≡ ([], xs)
unfolding first_line
first_line-zero t [] = refl
first_line-zero t (x ∷ xs) = refl

first_line-nil : (nr : ℕ) (t : Termios) → first_line nr t [] ≡ ([], [])
unfolding first_line
first_line-nil zero t = refl
first_line-nil (suc nr) t = refl

-- The loop is left at the end of a line, or where nothing more is wanted or there.
by_test :
    (P : List ℕ × List ℕ → List ℕ × Queue → Type 0) (z d m : Bool) (w u : List ℕ × List ℕ)
    (g f : List ℕ × Queue)
    → z ≡ false
    → P w g
    → (m ≡ true → P u g)
    → (m ≡ false → P u f)
    → P (if d then w else u) (if z || (d || m) then g else f)
by_test P true d m w u g f e p q r = cc
by_test P false true m w u g f e p q r = p
by_test P false false true w u g f e p q r = q refl
by_test P false false false w u g f e p q r = r refl

if_two :
    (P : List ℕ × List ℕ → List ℕ × Queue → Type 0) (b : Bool) (w u : List ℕ × List ℕ)
    (g f : List ℕ × Queue)
    → P w g
    → P u f
    → P (if b then w else u) (if b then g else f)
if_two P true w u g f p q = p
if_two P false w u g f p q = q

ended :
    (nr : ℕ) (t : Termios) (x : ℕ) (xs : List ℕ) (q : Queue)
    → first_line nr t xs ≡ ([], xs)
    → Taken t ([], xs) ([], q)
    → Taken t (x ∷ (first_line nr t xs).0, (first_line nr t xs).1) (x ∷ [], q)
ended nr t x xs q e h = rw e (Taken-cons t x ([], xs) ([], q) h)

read_own :
    (nr : ℕ) (t : Termios) (xs : List ℕ) (q : Queue)
    → IsValid q
    → empty q ≡ false
    → contents q ≡ q.buf q.tail ∷ xs
    → q.lines ≡ count_ends t (q.buf q.tail ∷ xs)
    → Taken t (first_line (suc nr) t (q.buf q.tail ∷ xs)) (read_bytes (suc nr) t q)
unfolding read_bytes first_line
read_own zero t xs q v e c n =
    let h = (take_byte_lem t (q.buf q.tail) xs q v e c n).1 in
    let x = q.buf q.tail in
    if_two (Taken t) (is_cc t 4 x && has_flag t.c_lflag 2) _ _ _ _ h (
      if-cases (λ w. Taken t w (x ∷ [], take_byte t q)) (x == 10 && has_flag t.c_lflag 2) _ _
        (λ _. Taken-cons t x ([], xs) ([], take_byte t q) h)
        (λ _. ended 0 t x xs (take_byte t q) (first_line-zero t xs) h))
read_own (suc nr) t [] q v e c n =
    let h = (take_byte_lem t (q.buf q.tail) [] q v e c n).1 in
    let x = q.buf q.tail in
    if_two (Taken t) (is_cc t 4 x && has_flag t.c_lflag 2) _ _ _ _ h (
      by_test (Taken t) (suc nr == 0) (x == 10 && has_flag t.c_lflag 2) (empty (take_byte t q)) _ _
        _ _ (ground arith) (Taken-cons t x ([], []) ([], take_byte t q) h)
        (λ _. ended (suc nr) t x [] (take_byte t q) (first_line-nil (suc nr) t) h)
        (λ m. absurd (cc (contents-take_char (take_byte t q) h.valid m, h.rest))))
read_own (suc nr) t (y ∷ ys) q v e c n =
    let h = (take_byte_lem t (q.buf q.tail) (y ∷ ys) q v e c n).1 in
    let x = q.buf q.tail in
    if_two (Taken t) (is_cc t 4 x && has_flag t.c_lflag 2) _ _ _ _ h (
      by_test (Taken t) (suc nr == 0) (x == 10 && has_flag t.c_lflag 2) (empty (take_byte t q)) _ _
        _ _ (ground arith) (Taken-cons t x ([], y ∷ ys) ([], take_byte t q) h)
        (λ m. absurd (cc (contents-empty (take_byte t q) h.valid m, h.rest)))
        (λ m.
          Taken-cons t x (first_line (suc nr) t (y ∷ ys)) (read_bytes (suc nr) t (take_byte t q)) (
            let q' = take_byte t q in
            let l = contents-take_char q' h.valid m in
            let by : q'.buf q'.tail ≡ y = cc (l, h.rest) in
            subst (λ b. Taken t (first_line (suc nr) t (b ∷ ys)) (read_bytes (suc nr) t q')) by
              (read_own nr t ys q' h.valid m (h.rest ∙ ap (λ b. b ∷ ys) (sym by))
                (h.counted ∙ ap (λ b. count_ends t (b ∷ ys)) (sym by))))))

-- The inner loop takes the first line.
pub read_bytes-Taken :
    (nr : ℕ) (t : Termios) (x : ℕ) (xs : List ℕ) (q : Queue)
    → IsValid q
    → empty q ≡ false
    → contents q ≡ x ∷ xs
    → q.lines ≡ count_ends t (x ∷ xs)
    → Taken t (first_line (suc nr) t (x ∷ xs)) (read_bytes (suc nr) t q)
read_bytes-Taken nr t x xs q v e c n =
    let bx : q.buf q.tail ≡ x = (take_byte_lem t x xs q v e c n).0 in
    rw (← bx) (read_own nr t xs q v e (rw (← bx) at c) (rw (← bx) at n))
