-- ===== src/Buffer.antt =====
-- fs/buffer.c: the heads of the buffers, the queues they are linked into, and `getblk`.
-- A pointer to a head is its number, and NULL is 0: what a write through NULL changes is `bufs 0`.
pub mod Queue
pub mod Unlink
pub mod Hash
pub mod Links
pub mod Insert
pub mod TakeOver
pub mod Lookup
pub mod Map
pub mod Getblk
mod Tests
use linux.Base.{
  ℕ, zero, suc, ◌+◌, ◌-◌, ◌*◌, ◌%◌, Bool, true, false, not, ◌&&◌, ◌||◌, Option, none, some, ltb,
  ◌==◌, if◌then◌else◌, ◌>>=◌,
}
use linux.Base.Bits.{bit_and, bit_or}

pub record BufferHead : Type 0 where
  pub blocknr : ℕ
  pub dev : ℕ
  pub uptodate : ℕ
  pub dirt : ℕ
  pub count : ℕ
  pub lock : ℕ
  pub prev : ℕ
  pub next : ℕ
  pub prev_free : ℕ
  pub next_free : ℕ

pub record Cache : Type 0 where
  pub bufs : ℕ → BufferHead
  pub hash_table : ℕ → ℕ
  pub free_list : ℕ

abbrev pub nr_hash : ℕ
nr_hash = 307

-- `_hashfn`, where `^` is written with `&` and `|`.
unfoldable pub hashfn : ℕ → ℕ → ℕ
hashfn dev block = (bit_or dev block - bit_and dev block) % nr_hash

abbrev pub change : ℕ → (BufferHead → BufferHead) → Cache → Cache
change p f c = record c { bufs = λ q. if q == p then f (c.bufs p) else c.bufs q }

abbrev pub set_prev : ℕ → ℕ → Cache → Cache
set_prev p v c = change p (λ b. record b { prev = v }) c

abbrev pub set_next : ℕ → ℕ → Cache → Cache
set_next p v c = change p (λ b. record b { next = v }) c

abbrev pub set_prev_free : ℕ → ℕ → Cache → Cache
set_prev_free p v c = change p (λ b. record b { prev_free = v }) c

abbrev pub set_next_free : ℕ → ℕ → Cache → Cache
set_next_free p v c = change p (λ b. record b { next_free = v }) c

-- `hash(bh->b_dev, bh->b_blocknr)` is the entry of `hash_table` with this number.
abbrev pub slot : BufferHead → ℕ
slot b = hashfn b.dev b.blocknr

abbrev pub set_hash : ℕ → ℕ → Cache → Cache
set_hash h v c = record c { hash_table = λ k. if k == h then v else c.hash_table k }

unfoldable pub unlink_next : ℕ → Cache → Cache
unlink_next p c = let b = c.bufs p in if b.next == 0 then c else set_prev b.next b.prev c

unfoldable pub unlink_prev : ℕ → Cache → Cache
unlink_prev p c = let b = c.bufs p in if b.prev == 0 then c else set_next b.prev b.next c

unfoldable pub unlink_head : ℕ → Cache → Cache
unlink_head p c =
    let b = c.bufs p in if c.hash_table (slot b) == p then set_hash (slot b) b.next c else c

unfoldable pub remove_from_hash_queue : ℕ → Cache → Cache
remove_from_hash_queue p c =
    set_next p 0 (set_prev p 0 (unlink_head p (unlink_prev p (unlink_next p c))))

unfoldable pub off_free_list : ℕ → Cache → Cache
off_free_list p c =
    let b = c.bufs p in
    let c1 : Cache = set_next_free b.prev_free b.next_free c in
    let b1 = c1.bufs p in
    let c2 : Cache = set_prev_free b1.next_free b1.prev_free c1 in
    let c3 : Cache =
      if c2.free_list == p then record c2 { free_list = (c2.bufs p).next_free } else c2 in
    set_next_free p 0 (set_prev_free p 0 c3)

-- `none` is the panic.
unfoldable pub remove_from_free_list : ℕ → Cache → Option Cache
remove_from_free_list p c =
    if ((c.bufs p).prev_free == 0) || ((c.bufs p).next_free == 0)
    then none
    else some (off_free_list p c)

-- In front of `free_list`, which is at the end of the ring.
unfoldable pub append_free : ℕ → Cache → Cache
append_free p c =
    let first = c.free_list in
    let c1 : Cache = set_next_free p first c in
    let c2 : Cache = set_prev_free p (c1.bufs first).prev_free c1 in
    let c3 : Cache = set_next_free (c2.bufs first).prev_free p c2 in set_prev_free first p c3

unfoldable pub put_last_free : ℕ → Cache → Option Cache
put_last_free p c =
    if p == 0
    then some c
    else if p == c.free_list
    then some (record c { free_list = (c.bufs p).next_free })
    else do d ← remove_from_free_list p c; some (append_free p d)

unfoldable pub put_first_free : ℕ → Cache → Option Cache
put_first_free p c =
    if (p == 0) || (p == c.free_list)
    then some c
    else do d ← remove_from_free_list p c; some (record (append_free p d) { free_list = p })

unfoldable pub insert_into_hash_queue : ℕ → Cache → Cache
insert_into_hash_queue p c =
    let c1 : Cache = set_next p 0 (set_prev p 0 c) in
    let h = slot (c1.bufs p) in
    let c2 : Cache = set_hash h p (set_next p (c1.hash_table h) c1) in
    if (c1.bufs p).dev == 0 then c1 else set_prev (c2.bufs p).next p c2

unfoldable pub insert_into_queues : ℕ → Cache → Cache
insert_into_queues p c = insert_into_hash_queue p (append_free p c)

-- The walk of `find_buffer` from `tmp` on.
unfoldable pub find_from : ℕ → ℕ → ℕ → ℕ → Cache → ℕ
find_from zero dev block tmp c = 0
find_from (suc fuel) dev block tmp c =
    let b = c.bufs tmp in
    let rest = find_from fuel dev block b.next c in
    if tmp == 0 then 0 else if (b.dev == dev) && (b.blocknr == block) then tmp else rest

unfoldable pub find_buffer : ℕ → ℕ → ℕ → Cache → ℕ
find_buffer fuel dev block c = find_from fuel dev block (c.hash_table (hashfn dev block)) c

-- The end of `getblk`: the head `p` now stands for another block.
unfoldable pub rename : ℕ → ℕ → ℕ → Cache → Cache
rename p dev block c = change p (λ b. record b { dev = dev; blocknr = block }) c

unfoldable pub mark_used : ℕ → Cache → Cache
mark_used p c = change p (λ b. record b { count = 1; dirt = 0; uptodate = 0 }) c

unfoldable pub take_over : ℕ → ℕ → ℕ → Cache → Option Cache
take_over p dev block c = do
  d ← remove_from_free_list p (remove_from_hash_queue p (mark_used p c))
  some (insert_into_queues p (rename p dev block d))
