-- ===== src/Pipe.antt =====
-- fs/pipe.c: `pipe_read` and `pipe_write`, with PIPE_SIZE of include/linux/fs.h.
-- `i_size` points at one page, a list of 4096 bytes; `i_data[0]` and `i_data[1]` are the head and
-- the tail. A call that has to sleep says so, and goes on after it as if called for the rest.
pub mod Contents
pub mod Read
pub mod Write
mod Tests
use linux.Base.{
  ℕ, zero, suc, ◌+◌, ◌-◌, ◌*◌, ◌/◌, ◌^◌, ◌%◌, Bool, true, false, not, ◌&&◌, ◌||◌, Option, none,
  some, List, [], ◌∷◌, ◌++◌, ltb, ◌==◌, if◌then◌else◌, get_or, set, length, take, drop, min,
}

abbrev pub page_size : ℕ
page_size = 4096

pub record Pipe : Type 0 where
  pub page : List ℕ
  pub head : ℕ
  pub tail : ℕ
  pub count : ℕ

-- PIPE_SIZE: the difference of two `unsigned long`s, masked.
abbrev pub size : Pipe → ℕ
size p = (p.head + 2 ^ 32 - p.tail) % page_size

-- `while (chars-->0) put_fs_byte(page[size++],buf++);`
unfoldable pub slice : List ℕ → ℕ → ℕ → List ℕ
slice page i zero = []
slice page i (suc n) = get_or page i 0 ∷ slice page (i + 1) n

-- The three tests on `chars`.
abbrev pub chunk : ℕ → ℕ → ℕ → ℕ
chunk room count size =
    let chars = if ltb count room then count else room in if ltb size chars then size else chars

-- The second loop of `pipe_read`, on fuel: the bytes for the user, and the pipe.
unfoldable pub read_loop : ℕ → ℕ → Pipe → Option (List ℕ × Pipe)
unfolding slice
read_loop zero count p = none
read_loop (suc fuel) count p =
    let chars = chunk (page_size - p.tail) count (size p) in
    let rest = read_loop fuel (count - chars) (record p { tail = (p.tail + chars) % page_size }) in
    if count == 0 || size p == 0 then some ([], p) else elim rest [
      | none ↦ none
      | some (bytes, p') ↦ some (slice p.page p.tail chars ++ bytes, p')
    ]

pub data ReadResult : Type 0 where
  end_of_file : ReadResult
  restart : ReadResult
  sleeps : ReadResult
  got : List ℕ → Pipe → ReadResult
  out_of_fuel : ReadResult

-- `signalled` is `current->signal & ~current->blocked`.
unfoldable pub pipe_read : ℕ → Bool → Bool → ℕ → Pipe → ReadResult
unfolding read_loop
pipe_read fuel nonblock signalled count p =
    if not nonblock && (size p == 0)
    then (if not (p.count == 2) then end_of_file else if signalled then restart else sleeps)
    else elim (read_loop fuel count p) [ none ↦ out_of_fuel | some (bytes, p') ↦ got bytes p' ]

-- `while (chars-->0) page[size++]=get_fs_byte(buf++);`
unfoldable pub store : List ℕ → ℕ → List ℕ → List ℕ
store page i [] = page
store page i (b ∷ bs) = store (set page i b) (i + 1) bs

-- The outer loop of `pipe_write` up to its end or to a full pipe, on fuel: the bytes that are left,
-- and the pipe. `count` is the number of bytes.
unfoldable pub write_loop : ℕ → List ℕ → Pipe → Option (List ℕ × Pipe)
unfolding store
write_loop zero bytes p = none
write_loop (suc fuel) bytes p =
    let room = page_size - 1 - size p in
    let chars = chunk (page_size - p.head) (length bytes) room in
    let rest = write_loop fuel (drop chars bytes) (record p {
      page = store p.page p.head (take chars bytes);
      head = (p.head + chars) % page_size;
    }) in
    if length bytes == 0 || room == 0 then some (bytes, p) else rest

-- -EINTR or the number written; `sigpipe` says that SIGPIPE is raised. `blocked` is the sleep of
-- the writer, with the bytes that are left.
pub data WriteResult : Type 0 where
  wrote : ℕ → Pipe → WriteResult
  broken : (sigpipe : Bool) → Option ℕ → Pipe → WriteResult
  blocked : List ℕ → Pipe → WriteResult
  out_of_fuel : WriteResult

abbrev pub or_eintr : ℕ → Option ℕ
or_eintr written = if written == 0 then none else some written

after_loop : Bool → List ℕ → List ℕ → Pipe → WriteResult
after_loop signalled bytes left p =
    let written = length bytes - length left in
    if length left == 0
    then wrote written p
    else if not (p.count == 2)
    then broken true (or_eintr written) p
    else if signalled
    then broken false (or_eintr written) p
    else blocked left p

unfoldable pub pipe_write : ℕ → Bool → List ℕ → Pipe → WriteResult
unfolding write_loop after_loop
pipe_write fuel signalled bytes p = elim (write_loop fuel bytes p) [
  | none ↦ WriteResult.out_of_fuel
  | some (left, p') ↦ after_loop signalled bytes left p'
]
