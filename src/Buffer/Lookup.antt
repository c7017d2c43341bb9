-- ===== src/Buffer/Lookup.antt =====
-- fs/buffer.c: `find_buffer` as a search in a list, and as a map from blocks to buffers.
use linux.Base.{
  ℕ, zero, suc, ◌≡◌, ◌≤◌, refl, Bool, true, false, ◌&&◌, List, [], ◌∷◌, ◌==◌, if◌then◌else◌, arith,
  length,
}
use linux.Buffer.{BufferHead, Cache, hashfn, find_from, find_buffer}
use linux.Buffer.Queue.{member, without, IsQueue, member_head, member_tail}
use linux.Buffer.Hash.{nexts, prevs, SameKey, Refines}

-- `b` stands for the block.
abbrev pub stands_for : ℕ → ℕ → BufferHead → Bool
stands_for dev block b = (b.dev == dev) && (b.blocknr == block)

-- The first head of the list that stands for the block, or 0.
unfoldable pub first : ℕ → ℕ → Cache → List ℕ → ℕ
first dev block c [] = 0
first dev block c (a ∷ l) = if stands_for dev block (c.bufs a) then a else first dev block c l

find_from-first :
    (fuel dev block b p : ℕ) (c : Cache) (l : List ℕ)
    → IsQueue (nexts c) (prevs c) b p l
    → length l ≤ fuel
    → find_from fuel dev block p c ≡ first dev block c l
unfolding find_from first IsQueue
find_from-first zero dev block b p c [] q le = refl
find_from-first zero dev block b p c (a ∷ l) q le = absurd (omega arith)
find_from-first (suc fuel) dev block b p c [] q le = rw q refl
find_from-first (suc fuel) dev block b p c (a ∷ l) (e, nz, back, rest) le =
    ground (arith, find_from-first fuel dev block a (nexts c a) c l rest (omega arith))

-- With as much fuel as the queue is long, `find_buffer` searches the list that the queue stands for.
pub find_buffer-first :
    (nr x fuel dev block : ℕ) (c : Cache) (qs : ℕ → List ℕ)
    → Refines nr x c qs
    → length (qs (hashfn dev block)) ≤ fuel
    → find_buffer fuel dev block c ≡ first dev block c (qs (hashfn dev block))
unfolding find_buffer
find_buffer-first nr x fuel dev block c qs r le =
    find_from-first fuel dev block 0 _ c _ (r.queue (hashfn dev block)) le

-- No two heads stand for one block.
abbrev pub Unique : Cache → (ℕ → List ℕ) → Type 0
Unique c qs =
    (h q k : ℕ)
    → member q (qs h) ≡ true
    → member k (qs h) ≡ true
    → (c.bufs q).dev ≡ (c.bufs k).dev
    → (c.bufs q).blocknr ≡ (c.bufs k).blocknr
    → q ≡ k

pub first_none :
    (dev block q : ℕ) (c : Cache) (l : List ℕ)
    → first dev block c l ≡ 0
    → member 0 l ≡ false
    → member q l ≡ true
    → stands_for dev block (c.bufs q) ≡ false
unfolding first member
first_none dev block q c [] f nz m = ground arith
first_none dev block q c (a ∷ l) f nz m = ground (arith, first_none dev block q c l)

-- The lists are searched alike if their heads stand for the same blocks.
pub first_same :
    (dev block : ℕ) (c d : Cache) (l : List ℕ)
    → ((q : ℕ) → member q l ≡ true → SameKey c d q)
    → first dev block d l ≡ first dev block c l
unfolding first
first_same dev block c d [] same = refl
first_same dev block c d (a ∷ l) same =
    let (e, f) = same a (member_head a l) in
    rw (e, f, first_same dev block c d l (λ q m. same q (member_tail q a l m))) refl

pub first_absent :
    (dev block : ℕ) (c : Cache) (l : List ℕ)
    → ((q : ℕ) → member q l ≡ true → stands_for dev block (c.bufs q) ≡ false)
    → first dev block c l ≡ 0
unfolding first
first_absent dev block c [] h = refl
first_absent dev block c (a ∷ l) h =
    rw (h a (member_head a l)) (first_absent dev block c l (λ q m. h q (member_tail q a l m)))

pub first-without :
    (dev block p : ℕ) (c : Cache) (l : List ℕ)
    → stands_for dev block (c.bufs p) ≡ false
    → first dev block c (without p l) ≡ first dev block c l
unfolding first without
first-without dev block p c [] h = refl
first-without dev block p c (a ∷ l) h = ground (arith, first-without dev block p c l h)
