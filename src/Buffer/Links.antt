-- ===== src/Buffer/Links.antt =====
-- fs/buffer.c: what linking a buffer to the front of its hash queue does to the links.
use linux.Base.{ℕ, ◌≡◌, ◌≢◌, ◌==◌, if◌then◌else◌, arith}
use linux.Buffer.{Cache, slot, insert_into_hash_queue}
use linux.Buffer.Hash.{nexts, prevs, SameKey}

-- What linking `p` to the front of its queue does to the links.
module _ (p : ℕ) (c : Cache) (dev : (c.bufs p).dev ≢ 0)
    (ne : c.hash_table (slot (c.bufs p)) ≢ p) where
  pub insert-next_self : nexts (insert_into_hash_queue p c) p ≡ c.hash_table (slot (c.bufs p))
  unfolding insert_into_hash_queue
  insert-next_self = ground arith

  pub insert-next : (q : ℕ) → q ≢ p → nexts (insert_into_hash_queue p c) q ≡ nexts c q
  unfolding insert_into_hash_queue
  insert-next q h = ground arith

  pub insert-prev_self : prevs (insert_into_hash_queue p c) p ≡ 0
  unfolding insert_into_hash_queue
  insert-prev_self = ground arith

  pub insert-prev_first : prevs (insert_into_hash_queue p c) (c.hash_table (slot (c.bufs p))) ≡ p
  unfolding insert_into_hash_queue
  insert-prev_first = ground arith

  pub insert-prev :
      (q : ℕ)
      → q ≢ p
      → q ≢ c.hash_table (slot (c.bufs p))
      → prevs (insert_into_hash_queue p c) q ≡ prevs c q
  unfolding insert_into_hash_queue
  insert-prev q h k = ground arith

  pub insert-hash :
      (h : ℕ)
      → (insert_into_hash_queue p c).hash_table h
        ≡ (if h == slot (c.bufs p) then p else c.hash_table h)
  unfolding insert_into_hash_queue
  insert-hash h = ground arith

pub insert-key : (p q : ℕ) (c : Cache) → SameKey c (insert_into_hash_queue p c) q
unfolding insert_into_hash_queue
insert-key p q c = (ground arith, ground arith)

-- A buffer without a device is in no queue.
pub insert_free :
    (p : ℕ) (c : Cache)
    → (c.bufs p).dev ≡ 0
    → ((h : ℕ) → (insert_into_hash_queue p c).hash_table h ≡ c.hash_table h)
      × ((q : ℕ)
          → (nexts (insert_into_hash_queue p c) q ≡ (if q == p then 0 else nexts c q))
            × (prevs (insert_into_hash_queue p c) q ≡ (if q == p then 0 else prevs c q)))
unfolding insert_into_hash_queue
insert_free p c h = (λ k. ground arith, λ q. (ground arith, ground arith))
