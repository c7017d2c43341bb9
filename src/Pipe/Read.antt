-- ===== src/Pipe/Read.antt =====
-- `pipe_read` takes bytes from the front.
use linux.Base.{
  ℕ, zero, suc, ◌+◌, ◌-◌, ◌%◌, ◌≤◌, ◌<◌, ◌≡◌, ◌≢◌, refl, sym, ap, ap₂, ◌∙◌, ◌⊎◌, ◌↔◌, inl, inr,
  Bool, true, false, not, ◌&&◌, ◌||◌, Option, some, List, [], ◌++◌, arith, length, min,
  if◌then◌else◌, ◌==◌, Bool-cases,
}
use linux.Pipe.{
  Pipe, page_size, size, slice, chunk, read_loop, pipe_read, got, end_of_file, restart, sleeps,
}
use linux.Pipe.Contents.{IsValid, window, contents, slice-window, window-add, length-window}

chunk_bounds :
    (p : Pipe) (count : ℕ)
    → IsValid p
    → count ≢ 0
    → size p ≢ 0
    → let n = chunk (page_size - p.tail) count (size p) in
      (0 < n) × (p.tail + n ≤ page_size) × (n ≤ count) × (n ≤ size p)
chunk_bounds p count v c s = ground arith

size-advance :
    (p : Pipe) (n : ℕ)
    → IsValid p
    → n ≤ size p
    → size (record p { tail = (p.tail + n) % page_size }) ≡ size p - n
size-advance p n v h = omega arith

abbrev advance : Pipe → ℕ → Pipe
advance p n = record p { tail = (p.tail + n) % page_size }

abbrev read_off : Pipe → ℕ → Option (List ℕ × Pipe)
read_off p m = some (window p.page p.tail m, advance p m)

advance-IsValid : (p : Pipe) (n : ℕ) → IsValid p → IsValid (advance p n)
advance-IsValid p n v = record { page = v.page; head = v.head; tail = omega arith }

read_off_cong : (p : Pipe) (m n : ℕ) → m ≡ n → read_off p m ≡ read_off p n
read_off_cong p m n e = ap (read_off p) e

abbrev chunk_read : Pipe → ℕ → ℕ → Option (List ℕ × Pipe)
chunk_read p n m =
    some
      (slice p.page p.tail n ++ window p.page ((p.tail + n) % page_size) m, advance (advance p n) m)

-- A chunk and then the rest.
chunk_read-read_off :
    (p : Pipe) (n m : ℕ)
    → IsValid p
    → p.tail + n ≤ page_size
    → chunk_read p n m ≡ read_off p (n + m)
chunk_read-read_off p n m v h =
    ap₂ (λ bytes t. some (bytes, record p { tail = t }))
      (ap (λ l. l ++ window p.page ((p.tail + n) % page_size) m) (slice-window p.page p.tail n h)
        ∙ sym (window-add p.page p.tail n m v.tail))
      (omega arith)

read_loop_lem :
    (fuel count : ℕ) (p : Pipe)
    → IsValid p
    → count < fuel
    → read_loop fuel count p ≡ read_off p (min count (size p))
unfolding read_loop window
read_loop_lem zero count p v h = absurd (omega arith)
read_loop_lem (suc fuel) count p v h =
    let n = chunk (page_size - p.tail) count (size p) in
    elim (Bool-cases (count == 0 || size p == 0)) [
      | inl stop ↦
          let none_left : min count (size p) ≡ 0 = ground arith in
          rw (stop, none_left)
            (ap (λ t. some ([], record p { tail = t }))
              (let e : p.tail ≡ (p.tail + 0) % page_size = omega (arith, v.tail) in e))
      | inr go ↦
          let b = chunk_bounds p count v (ground arith) (ground arith) in
          rw
            (go, read_loop_lem fuel (count - n) (advance p n) (advance-IsValid p n v) (omega arith))
            (chunk_read-read_off p n (min (count - n) (size (advance p n))) v b.1
              ∙ read_off_cong p (n + min (count - n) (size (advance p n))) (min count (size p))
                  (omega (arith, size-advance p n v b.3)))
    ]

contents-advance :
    (p : Pipe) (m : ℕ)
    → IsValid p
    → m ≤ size p
    → window p.page p.tail m ++ contents (advance p m) ≡ contents p
unfolding contents
contents-advance p m v h =
    ap (λ k. window p.page p.tail m ++ window p.page ((p.tail + m) % page_size) k)
      (size-advance p m v h)
    ∙ sym (window-add p.page p.tail m (size p - m) v.tail)
    ∙ ap (window p.page p.tail) (omega arith)

-- `pipe_read` of a pipe that is not empty, or of any pipe without blocking, returns: as many bytes
-- as are asked for and held, from the front, in order; the rest stays. `count + 1` rounds are enough.
pub pipe_read_lem :
    (fuel count : ℕ) (nonblock signalled : Bool) (p : Pipe)
    → IsValid p
    → count < fuel
    → (nonblock ≡ true) ⊎ (size p ≢ 0)
    → (bytes : List ℕ) × (p' : Pipe) × (pipe_read fuel nonblock signalled count p ≡ got bytes p')
      × (bytes ++ contents p' ≡ contents p)
      × (length bytes ≡ min count (length (contents p)))
      × IsValid p'
unfolding pipe_read contents
pipe_read_lem fuel count nonblock signalled p v f h =
    let m = min count (size p) in
    let ready : (not nonblock && (size p == 0)) ≡ false = ground arith in
    (
      window p.page p.tail m,
      advance p m,
      rw (ready, read_loop_lem fuel count p v f) refl,
      contents-advance p m v (omega arith),
      omega (arith, length-window p.page p.tail m, length-window p.page p.tail (size p)),
      advance-IsValid p m v,
    )

-- On an empty pipe a blocking `pipe_read` returns end of file exactly when the other end is closed;
-- otherwise it asks for a restart if a signal is pending, and sleeps if none is.
pub pipe_read-empty :
    (fuel count : ℕ) (signalled : Bool) (p : Pipe)
    → IsValid p
    → contents p ≡ []
    → ((pipe_read fuel false signalled count p ≡ end_of_file) ↔ (p.count ≢ 2))
      × (p.count ≡ 2
          → pipe_read fuel false signalled count p ≡ (if signalled then restart else sleeps))
unfolding pipe_read contents
pipe_read-empty fuel count signalled p v e =
    let none_held : size p ≡ 0 = omega (arith, length-window p.page p.tail (size p), ap length e) in
    (ground arith, ground arith)
