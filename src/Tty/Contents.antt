-- ===== src/Tty/Contents.antt =====
-- include/linux/tty.h: what a queue holds, from the oldest byte on and from the newest one back.
use mathlib.Core.List.{reverse, reverse-cons}
use linux.Base.{
  ℕ, zero, suc, ◌+◌, ◌-◌, ◌%◌, ◌≤◌, ◌<◌, ◌≡◌, ◌≢◌, refl, sym, ap, ap₂, ◌∙◌, true, false, List, [],
  ◌∷◌, ◌++◌, arith, ◌==◌, if◌then◌else◌, length,
}
use linux.Tty.{
  Queue, buf_size, inc, dec, empty, left, full, last, chars, take_char, putch, drop_last,
}

-- Head and tail lie in the buffer.
pub record IsValid (q : Queue) : Type 0 where
  pub head : q.head < buf_size
  pub tail : q.tail < buf_size

unfoldable pub ahead : ℕ → ℕ → (ℕ → ℕ) → List ℕ
ahead zero i buf = []
ahead (suc n) i buf = buf i ∷ ahead n (inc i) buf

unfoldable pub behind : ℕ → ℕ → (ℕ → ℕ) → List ℕ
behind zero i buf = []
behind (suc n) i buf = buf (dec i) ∷ behind n (dec i) buf

-- The bytes in the order in which GETCH takes them.
unfoldable pub contents : Queue → List ℕ
unfolding ahead chars
contents q = ahead (chars q) q.tail q.buf

-- The bytes, the one that PUTCH put last first.
unfoldable pub newest : Queue → List ℕ
unfolding behind chars
newest q = behind (chars q) q.head q.buf

behind-store :
    (n d h i c : ℕ) (buf : ℕ → ℕ)
    → d + n < buf_size
    → h < buf_size
    → i ≡ (h + d) % buf_size
    → behind n h (λ j. if j == i then c else buf j) ≡ behind n h buf
unfolding behind
behind-store zero d h i c buf l v e = refl
behind-store (suc n) d h i c buf l v e =
    ap₂ ◌∷◌ (ground (arith, apart))
      (behind-store n (suc d) (dec h) i c buf (omega arith) (omega arith) (omega arith))
  where
    apart : dec h ≢ i
    apart = omega arith

pub chars-putch :
    (q : Queue) (c : ℕ) → IsValid q → full q ≡ false → chars (putch c q) ≡ suc (chars q)
unfolding chars putch left
chars-putch q c v h = ground arith

pub putch-IsValid : (q : Queue) (c : ℕ) → IsValid q → IsValid (putch c q)
unfolding putch
putch-IsValid q c v = record { head = omega arith; tail = v.tail }

-- PUTCH on a queue that is not full.
pub newest-putch :
    (q : Queue) (c : ℕ) → IsValid q → full q ≡ false → newest (putch c q) ≡ c ∷ newest q
unfolding newest putch chars
newest-putch q c v h =
    ap (λ n. behind n (inc q.head) (putch c q).buf) (chars-putch q c v h)
    ∙ ap₂ ◌∷◌ (at_head) (
        ap (λ k. behind (chars q) k (putch c q).buf) back
        ∙ behind-store (chars q) 0 q.head q.head c q.buf (omega (arith, v.head)) v.head
            (omega (arith, v.head)))
  where
    back : dec (inc q.head) ≡ q.head
    back = omega (arith, v.head)

    at_head : (putch c q).buf (dec (inc q.head)) ≡ c
    at_head = rw back (ground arith)

pub empty-chars : (q : Queue) → IsValid q → (empty q ≡ (chars q == 0))
unfolding chars
empty-chars q v = ground arith

pub chars-drop_last :
    (q : Queue) → IsValid q → empty q ≡ false → suc (chars (drop_last q)) ≡ chars q
unfolding chars drop_last
chars-drop_last q v h = ground arith

pub drop_last-IsValid : (q : Queue) → IsValid q → IsValid (drop_last q)
unfolding drop_last
drop_last-IsValid q v = record { head = omega arith; tail = v.tail }

-- What DEC of the head takes away is the newest byte.
pub newest-drop_last :
    (q : Queue) → IsValid q → empty q ≡ false → newest q ≡ last q ∷ newest (drop_last q)
unfolding newest drop_last chars
newest-drop_last q v h = ap (λ n. behind n q.head q.buf) (sym (chars-drop_last q v h))

pub newest-empty : (q : Queue) → IsValid q → empty q ≡ true → newest q ≡ []
unfolding newest chars
newest-empty q v h =
    ap (λ n. behind n q.head q.buf) (let e : chars q ≡ 0 = ground (arith, empty-chars q v) in e)

pub chars-take_char :
    (q : Queue) → IsValid q → empty q ≡ false → suc (chars (take_char q)) ≡ chars q
unfolding chars take_char
chars-take_char q v h = ground arith

pub take_char-IsValid : (q : Queue) → IsValid q → IsValid (take_char q)
unfolding take_char
take_char-IsValid q v = record { head = v.head; tail = omega arith }

-- GETCH gives the oldest byte.
pub contents-take_char :
    (q : Queue) → IsValid q → empty q ≡ false → contents q ≡ q.buf q.tail ∷ contents (take_char q)
unfolding contents take_char chars
contents-take_char q v h = ap (λ n. ahead n q.tail q.buf) (sym (chars-take_char q v h))

pub contents-empty : (q : Queue) → IsValid q → empty q ≡ true → contents q ≡ []
unfolding contents chars
contents-empty q v h =
    ap (λ n. ahead n q.tail q.buf) (let e : chars q ≡ 0 = ground (arith, empty-chars q v) in e)

pub length-newest : (q : Queue) → length (newest q) ≡ chars q
unfolding newest
length-newest q = length-behind (chars q) q.head q.buf
  where
    length-behind : (n i : ℕ) (buf : ℕ → ℕ) → length (behind n i buf) ≡ n
    length-behind zero i buf = refl
    length-behind (suc n) i buf = ap suc (length-behind n (dec i) buf)

-- A queue is full with 1023 bytes.
pub full-chars : (q : Queue) → IsValid q → (full q ≡ (chars q == 1023))
unfolding chars left
full-chars q v = ground arith

pub newest-same :
    (p q : Queue) → p.head ≡ q.head → p.tail ≡ q.tail → p.buf ≡ q.buf → newest p ≡ newest q
unfolding newest chars
newest-same p q h t b = cc

ahead-append :
    (n i : ℕ) (buf : ℕ → ℕ)
    → i < buf_size
    → ahead (suc n) i buf ≡ ahead n i buf ++ (buf ((i + n) % buf_size) ∷ [])
unfolding ahead
ahead-append zero i buf h = ap (λ j. buf j ∷ []) (let e : i ≡ (i + 0) % buf_size = omega arith in e)
ahead-append (suc n) i buf h =
    ap (λ l. buf i ∷ l)
      (ahead-append n (inc i) buf (omega arith)
        ∙ ap (λ j. ahead n (inc i) buf ++ (buf j ∷ [])) (omega arith))

ahead-store :
    (n e i h c : ℕ) (buf : ℕ → ℕ)
    → n ≤ e
    → e < buf_size
    → i < buf_size
    → h ≡ (i + e) % buf_size
    → ahead n i (λ j. if j == h then c else buf j) ≡ ahead n i buf
unfolding ahead
ahead-store zero e i h c buf l u v p = refl
ahead-store (suc n) e i h c buf l u v p =
    ap₂ ◌∷◌ (ground (arith, apart)) (
      ahead-store n (e - 1) (inc i) h c buf (omega arith) (omega arith) (omega arith) (omega arith))
  where
    apart : i ≢ h
    apart = omega arith

-- PUTCH on a queue that is not full puts the byte behind the others.
pub contents-putch :
    (q : Queue) (c : ℕ) → IsValid q → full q ≡ false → contents (putch c q) ≡ contents q ++ (c ∷ [])
unfolding contents putch chars
contents-putch q c v h =
    ap (λ n. ahead n q.tail (putch c q).buf) (chars-putch q c v h)
    ∙ (ahead-append (chars q) q.tail (putch c q).buf v.tail
        ∙ ap₂ (λ l x. l ++ (x ∷ []))
            (ahead-store (chars q) (chars q) q.tail q.head c q.buf (omega arith) small v.tail there)
            (ap (putch c q).buf (sym there) ∙ ground arith))
  where
    small : chars q < buf_size
    small = omega arith

    there : q.head ≡ (q.tail + chars q) % buf_size
    there = omega (arith, v.head, v.tail)

-- PUTCH on a full queue leaves it empty: all bytes in it are lost.
pub contents-putch_full :
    (q : Queue) (c : ℕ) → IsValid q → full q ≡ true → contents (putch c q) ≡ []
unfolding putch left
contents-putch_full q c v h = contents-empty (putch c q) (putch-IsValid q c v) (ground arith)

pub length-contents : (q : Queue) → length (contents q) ≡ chars q
unfolding contents
length-contents q = length-ahead (chars q) q.tail q.buf
  where
    length-ahead : (n i : ℕ) (buf : ℕ → ℕ) → length (ahead n i buf) ≡ n
    length-ahead zero i buf = refl
    length-ahead (suc n) i buf = ap suc (length-ahead n (inc i) buf)

pub chars-lt : (q : Queue) → chars q < buf_size
unfolding chars
chars-lt q = omega arith

-- The two orders.
pub reverse-newest : (q : Queue) → IsValid q → reverse (newest q) ≡ contents q
unfolding newest contents chars
reverse-newest q v =
    turn (chars q) q.head (omega (arith, chars-lt q)) v.head
    ∙ ap (λ i. ahead (chars q) i q.buf) (omega (arith, v.tail, v.head))
  where
    start : ℕ → ℕ → ℕ
    start n h = (h + 1024 - n) % 1024

    turn :
        (n h : ℕ)
        → n < buf_size
        → h < buf_size
        → reverse (behind n h q.buf) ≡ ahead n (start n h) q.buf
    turn zero h l u = refl
    turn (suc n) h l u =
        reverse-cons (q.buf (dec h)) (behind n (dec h) q.buf)
        ∙ (ap (λ l. l ++ (q.buf (dec h) ∷ [])) (turn n (dec h) (omega arith) (omega arith))
            ∙ (ap₂ (λ i j. ahead n i q.buf ++ (q.buf j ∷ [])) (omega arith) (omega arith)
                ∙ sym (ahead-append n (start (suc n) h) q.buf (omega arith))))
