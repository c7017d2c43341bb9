-- ===== src/Buffer/Getblk.antt =====
-- fs/buffer.c: `get_hash_table`, the choice of a buffer in `getblk`, and `brelse`. A sleep ends the
-- call: what comes after `goto repeat` is another call.
pub mod Walk
pub mod Take
use linux.Base.{
  ℕ, zero, suc, ◌+◌, ◌-◌, ◌*◌, ◌%◌, Bool, true, false, not, ◌&&◌, ◌||◌, Option, none, some, ltb,
  ◌==◌, if◌then◌else◌,
}
use linux.Buffer.{BufferHead, Cache, change, put_last_free, find_buffer, take_over}

unfoldable pub badness : BufferHead → ℕ
badness b = b.dirt * 2 + b.lock

-- The loop over the free list, from `tmp` on; `write_ahead` is `ll_rw_block(WRITEA, …)`.
unfoldable pub scan : (ℕ → Cache → Cache) → ℕ → ℕ → ℕ → Cache → ℕ × Cache
scan write_ahead zero tmp bh c = (bh, c)
scan write_ahead (suc n) tmp bh c =
    let next = (c.bufs tmp).next_free in
    let b = c.bufs next in
    let better = (bh == 0) || ltb (badness b) (badness (c.bufs bh)) in
    let chosen = if better then next else bh in
    let ahead : Cache = if b.dirt == 0 then c else write_ahead next c in
    let skip = scan write_ahead n next bh c in
    let rest = scan write_ahead n next chosen ahead in
    if not (b.count == 0) then skip else if better && (badness b == 0) then (next, c) else rest

pub data GetBlk : Type 0 where
  got : ℕ → Cache → GetBlk
  sleeps : Cache → GetBlk
  corrupted : GetBlk

unfoldable pub as_got : ℕ → Option Cache → GetBlk
as_got bh none = corrupted
as_got bh (some c) = got bh c

-- One turn of `get_hash_table` for the buffer that was found.
unfoldable pub hold : ℕ → Cache → GetBlk
hold bh c =
    let d : Cache = change bh (λ b. record b { count = (b.count + 1) % 256 }) c in
    if (c.bufs bh).lock == 0 then as_got bh (put_last_free bh d) else sleeps d

-- What `getblk` does with the buffer that the loop has chosen.
unfoldable pub use_buffer : ℕ → ℕ → ℕ → ℕ → Cache → GetBlk
use_buffer fuel dev block bh c =
    if (bh == 0) || not (badness (c.bufs bh) == 0)
    then sleeps c
    else if find_buffer fuel dev block c == 0
    then as_got bh (take_over bh dev block c)
    else sleeps c

unfoldable pub getblk : (ℕ → Cache → Cache) → ℕ → ℕ → ℕ → ℕ → Cache → GetBlk
getblk write_ahead fuel nr_buffers dev block c =
    let found = find_buffer fuel dev block c in
    let (bh, d) = scan write_ahead (nr_buffers + 1) c.free_list 0 c in
    if found == 0 then use_buffer fuel dev block bh d else hold found c

-- `brelse` of a buffer that is not locked; `none` is the panic.
unfoldable pub brelse : ℕ → Cache → Option Cache
brelse bh c =
    if bh == 0
    then some c
    else if (c.bufs bh).count == 0
    then none
    else some (change bh (λ b. record b { count = b.count - 1 }) c)
