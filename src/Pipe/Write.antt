-- ===== src/Pipe/Write.antt =====
-- `pipe_write` appends bytes at the end.
use linux.Base.{
  ℕ, zero, suc, ◌+◌, ◌-◌, ◌%◌, ◌≤◌, ◌<◌, ◌≡◌, ◌≢◌, refl, sym, ap, ap₂, ◌∙◌, inl, inr, Bool, true,
  false, not, ◌||◌, Option, some, List, [], ◌∷◌, ◌++◌, arith, get_or, set, length, min, leb,
  if◌then◌else◌, ◌==◌, Bool-cases, take, drop, length-set, length-take, length-drop,
}
use mathlib.Core.List.{append_assoc, append-nil}
use linux.Pipe.{
  Pipe, page_size, size, chunk, store, write_loop, pipe_write, wrote, broken, blocked, or_eintr,
  WriteResult, after_loop,
}
use linux.Pipe.Contents.{IsValid, window, contents, window-add, length-window}

get_or-set_self : (xs : List ℕ) (i v : ℕ) → i < length xs → get_or (set xs i v) i 0 ≡ v
get_or-set_self [] i v h = absurd (omega arith)
get_or-set_self (x ∷ xs) zero v h = refl
get_or-set_self (x ∷ xs) (suc i) v h = get_or-set_self xs i v (omega arith)

get_or-set_ne : (xs : List ℕ) (i j v : ℕ) → i ≢ j → get_or (set xs i v) j 0 ≡ get_or xs j 0
get_or-set_ne [] i j v h = refl
get_or-set_ne (x ∷ xs) zero zero v h = absurd (h refl)
get_or-set_ne (x ∷ xs) zero (suc j) v h = refl
get_or-set_ne (x ∷ xs) (suc i) zero v h = refl
get_or-set_ne (x ∷ xs) (suc i) (suc j) v h = get_or-set_ne xs i j v (λ e. h (ap suc e))

-- A window that does not hold the written place is not changed.
window-set :
    (page : List ℕ) (k v i n : ℕ)
    → i < page_size
    → k < page_size
    → n ≤ (k + page_size - i) % page_size
    → window (set page k v) i n ≡ window page i n
unfolding window
window-set page k v i zero hi hk h = refl
window-set page k v i (suc n) hi hk h =
    ap₂ ◌∷◌ (get_or-set_ne page k i v (omega arith))
      (window-set page k v ((i + 1) % page_size) n (omega arith) hk (omega arith))

-- One byte at the head.
push : Pipe → ℕ → Pipe
push p b = record p { page = set p.page p.head b; head = (p.head + 1) % page_size }

pushes : Pipe → List ℕ → Pipe
unfolding push
pushes p [] = p
pushes p (b ∷ bs) = pushes (push p b) bs

push-IsValid : (p : Pipe) (b : ℕ) → IsValid p → IsValid (push p b)
unfolding push
push-IsValid p b v = record {
  page = length-set p.page p.head b ∙ v.page;
  head = omega arith;
  tail = v.tail;
}

size-push : (p : Pipe) (b : ℕ) → IsValid p → size p < page_size - 1 → size (push p b) ≡ size p + 1
unfolding push
size-push p b v h = omega arith

contents-push :
    (p : Pipe) (b : ℕ)
    → IsValid p
    → size p < page_size - 1
    → contents (push p b) ≡ contents p ++ b ∷ []
unfolding contents push window
contents-push p b v h =
    ap (window (set p.page p.head b) p.tail) (size-push p b v h)
    ∙ window-add (set p.page p.head b) p.tail (size p) 1 v.tail
    ∙ ap₂ ◌++◌ (window-set p.page p.head b p.tail (size p) v.tail v.head (omega arith)) (
        ap (λ x. x ∷ [])
          (ap (λ k. get_or (set p.page p.head b) k 0) (omega arith)
            ∙ get_or-set_self p.page p.head b (omega arith)))

pushes-append : (p : Pipe) (xs ys : List ℕ) → pushes p (xs ++ ys) ≡ pushes (pushes p xs) ys
unfolding pushes
pushes-append p [] ys = refl
pushes-append p (x ∷ xs) ys = pushes-append (push p x) xs ys

-- What the pipe is after `bytes` have been appended to it.
record Appended (p : Pipe) (bytes : List ℕ) (p' : Pipe) : Type 0 where
  valid : IsValid p'
  holds : contents p' ≡ contents p ++ bytes
  grown : size p' ≡ size p + length bytes

pushes-Appended :
    (p : Pipe) (bytes : List ℕ)
    → IsValid p
    → size p + length bytes ≤ page_size - 1
    → Appended p bytes (pushes p bytes)
unfolding pushes
pushes-Appended p [] v h = record {
  valid = v;
  holds = sym (append-nil (contents p));
  grown = omega arith;
}
pushes-Appended p (b ∷ bs) v h =
    let s = size-push p b v (omega arith) in
    let r = pushes-Appended (push p b) bs (push-IsValid p b v) (omega arith) in
    record {
      valid = r.valid;
      holds =
          r.holds
          ∙ ap (λ l. l ++ bs) (contents-push p b v (omega arith))
          ∙ append_assoc (contents p) (b ∷ []) bs;
      grown = omega (arith, r.grown, s);
    }

abbrev stored : Pipe → List ℕ → Pipe
stored p bs = record p { page = store p.page p.head bs; head = (p.head + length bs) % page_size }

-- A chunk that does not reach past the end of the page is stored byte by byte.
stored-pushes :
    (p : Pipe) (bs : List ℕ)
    → IsValid p
    → p.head + length bs ≤ page_size
    → stored p bs ≡ pushes p bs
unfolding pushes push store
stored-pushes p [] v h =
    ap (λ k. record p { head = k })
      (let e : (p.head + 0) % page_size ≡ p.head = omega (arith, v.head) in e)
stored-pushes p (b ∷ []) v h = refl
stored-pushes p (b ∷ c ∷ bs) v h =
    ap₂ (λ i k. record p { page = store (set p.page p.head b) i (c ∷ bs); head = k })
      (let e : p.head + 1 ≡ (p.head + 1) % page_size = omega arith in e) (omega arith)
    ∙ stored-pushes (push p b) (c ∷ bs) (push-IsValid p b v) (omega arith)

drop-drop : (m n : ℕ) (xs : List ℕ) → drop m (drop n xs) ≡ drop (n + m) xs
drop-drop m zero xs = ap (λ k. drop k xs) (let e : m ≡ zero + m = omega arith in e)
drop-drop zero (suc n) [] =
    ap (λ k. drop {A = ℕ} k []) (let e : suc n ≡ suc n + zero = omega arith in e)
drop-drop (suc m) (suc n) [] =
    ap (λ k. drop {A = ℕ} k []) (let e : suc (n + suc m) ≡ suc n + suc m = omega arith in e)
drop-drop m (suc n) (x ∷ xs) =
    drop-drop m n xs
    ∙ ap (λ k. drop k (x ∷ xs)) (let e : suc (n + m) ≡ suc n + m = omega arith in e)

take-add : (m n : ℕ) (xs : List ℕ) → take (n + m) xs ≡ take n xs ++ take m (drop n xs)
take-add m zero xs = ap (λ k. take k xs) (let e : zero + m ≡ m = omega arith in e)
take-add zero (suc n) [] =
    ap (λ k. take {A = ℕ} k []) (let e : suc n + 0 ≡ suc n = omega arith in e)
take-add (suc m) (suc n) [] =
    ap (λ k. take {A = ℕ} k []) (let e : suc n + suc m ≡ suc (n + suc m) = omega arith in e)
take-add m (suc n) (x ∷ xs) =
    ap (λ k. take k (x ∷ xs)) (let e : suc n + m ≡ suc (n + m) = omega arith in e)
    ∙ ap (λ l. x ∷ l) (take-add m n xs)

abbrev writable : Pipe → ℕ → ℕ
writable p n = min n (page_size - 1 - size p)

abbrev written_off : Pipe → List ℕ → ℕ → Option (List ℕ × Pipe)
written_off p bytes m = some (drop m bytes, pushes p (take m bytes))

written_off_add :
    (p : Pipe) (bytes : List ℕ) (n m : ℕ)
    → written_off (pushes p (take n bytes)) (drop n bytes) m ≡ written_off p bytes (n + m)
written_off_add p bytes n m =
    ap₂ (λ l q. some (l, q)) (drop-drop m n bytes)
      (sym (pushes-append p (take n bytes) (take m (drop n bytes)))
        ∙ ap (pushes p) (sym (take-add m n bytes)))

chunk_bounds :
    (p : Pipe) (count : ℕ)
    → IsValid p
    → count ≢ 0
    → page_size - 1 - size p ≢ 0
    → let n = chunk (page_size - p.head) count (page_size - 1 - size p) in
      (0 < n) × (p.head + n ≤ page_size) × (n ≤ count) × (n + size p ≤ page_size - 1)
chunk_bounds p count v c s = ground arith

write_loop_lem :
    (fuel : ℕ) (bytes : List ℕ) (p : Pipe)
    → IsValid p
    → length bytes < fuel
    → write_loop fuel bytes p ≡ written_off p bytes (writable p (length bytes))
unfolding write_loop pushes
write_loop_lem zero bytes p v h = absurd (omega arith)
write_loop_lem (suc fuel) bytes p v h =
    let room = page_size - 1 - size p in
    let n = chunk (page_size - p.head) (length bytes) room in
    elim (Bool-cases (length bytes == 0 || room == 0)) [
      | inl stop ↦
          let none_left : writable p (length bytes) ≡ 0 = ground arith in
          rw (stop, none_left) (nothing p bytes)
      | inr go ↦
          let b = chunk_bounds p (length bytes) v (ground arith) (ground arith) in
          let len : length (take n bytes) ≡ n = omega (arith, length-take n bytes) in
          let one = pushes-Appended p (take n bytes) v (omega arith) in
          let as_stored =
            ap
              (λ k. record p {
                page = store p.page p.head (take n bytes);
                head = (p.head + k) % page_size;
              })
              (sym len)
            ∙ stored-pushes p (take n bytes) v (omega arith) in
          rw
            (
              go,
              as_stored,
              write_loop_lem fuel (drop n bytes) (pushes p (take n bytes)) one.valid
                  (omega (arith, length-drop n bytes)),
            )
            (written_off_add p bytes n (writable (pushes p (take n bytes)) (length (drop n bytes)))
              ∙ ap (written_off p bytes) (
                  let e : n + writable (pushes p (take n bytes)) (length (drop n bytes))
                      ≡ writable p (length bytes) =
                    omega (arith, one.grown, length-drop n bytes) in
                  e))
    ]
  where
    nothing : (p : Pipe) (bytes : List ℕ) → Option.some (bytes, p) ≡ written_off p bytes 0
    nothing p bytes = refl

count-pushes : (p : Pipe) (bs : List ℕ) → (pushes p bs).count ≡ p.count
unfolding pushes push
count-pushes p [] = refl
count-pushes p (b ∷ bs) = count-pushes (push p b) bs

-- What is returned when the pipe has become `p'` and had room for `free` bytes.
abbrev pub written : Bool → List ℕ → ℕ → Pipe → WriteResult
written signalled bytes free p' =
    if leb (length bytes) free
    then wrote (length bytes) p'
    else if not (p'.count == 2)
    then broken true (or_eintr free) p'
    else if signalled
    then broken false (or_eintr free) p'
    else blocked (drop free bytes) p'

after_loop-written :
    (signalled : Bool) (bytes : List ℕ) (free : ℕ) (p' : Pipe)
    → after_loop signalled bytes (drop (min (length bytes) free) bytes) p'
      ≡ written signalled bytes free p'
unfolding after_loop
after_loop-written signalled bytes free p' = elim (Bool-cases (leb (length bytes) free)) [
  | inl fits ↦
      let all : length (drop (min (length bytes) free) bytes) ≡ 0 =
        ground (arith, length-drop (min (length bytes) free) bytes) in
      let sum : length bytes - 0 ≡ length bytes = omega arith in rw (all, fits, sum) refl
  | inr full ↦
      let some_of : min (length bytes) free ≡ free = ground arith in
      let n = length-drop free bytes in
      let left : (length (drop free bytes) == 0) ≡ false = ground arith in
      let sum : length bytes - length (drop free bytes) ≡ free = ground arith in
      rw (some_of, left, full, sum) refl
]

-- `pipe_write` returns. It appends the bytes to what the pipe holds as far as they fit, in order; a
-- pipe holds 4095 at most. If all fit, it returns their number. Otherwise, with the pipe full, it
-- raises SIGPIPE if the other end is closed, stops at a pending signal, and returns in both cases
-- the number written, or -EINTR for none; or it sleeps, with the bytes that are left. One round
-- more than there are bytes is enough.
pub pipe_write_lem :
    (fuel : ℕ) (signalled : Bool) (bytes : List ℕ) (p : Pipe)
    → IsValid p
    → length bytes < fuel
    → let free = page_size - 1 - length (contents p) in
      (p' : Pipe) × (pipe_write fuel signalled bytes p ≡ written signalled bytes free p')
      × (contents p' ≡ contents p ++ take (min (length bytes) free) bytes)
      × (p'.count ≡ p.count)
      × IsValid p'
unfolding pipe_write
pipe_write_lem fuel signalled bytes p v f =
    let free = page_size - 1 - size p in
    let m = min (length bytes) free in
    let fits : size p + length (take m bytes) ≤ page_size - 1 =
      omega (arith, length-take m bytes) in
    let r = pushes-Appended p (take m bytes) v fits in
    rw (contents_size p) (
      pushes p (take m bytes),
      rw (write_loop_lem fuel bytes p v f, pipe_write)
          (after_loop-written signalled bytes free (pushes p (take m bytes))),
      r.holds,
      count-pushes p (take m bytes),
      r.valid,
    )
  where
    contents_size : (p : Pipe) → length (contents p) ≡ size p
    contents_size p = unfold contents in length-window p.page p.tail (size p)
