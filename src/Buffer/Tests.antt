-- ===== src/Buffer/Tests.antt =====
-- fs/buffer.c: a cache of two buffers, of which the first stands for block 5 of device 1.
use native.Mathlib.Decide.{ℕ_discrete}
use linux.Base.{
  ℕ, ◌+◌, ◌≡◌, ◌≢◌, ◌≤◌, refl, true, ◌&&◌, List, [], ◌∷◌, some, ◌==◌, if◌then◌else◌, arith,
  Bool-cases, inl, inr, length,
}
use linux.Buffer.{BufferHead, Cache, hashfn, change, find_from, find_buffer, take_over}
use linux.Buffer.Queue.{member, Distinct, IsQueue}
use linux.Buffer.Hash.{Refines}
use linux.Buffer.TakeOver.{moved}
use linux.Buffer.Lookup.{stands_for, first, Unique}
use linux.Buffer.Map.{take_over-Refines, find_buffer-take_over}
use linux.Buffer.Getblk.{badness, getblk, got}
use linux.Buffer.Getblk.Walk.{walk, StartsWrite, IsFree}
use linux.Buffer.Getblk.Take.{getblk_takes}

-- The free list leads from the second to the first and round again.
abbrev head : ℕ → BufferHead
head q = record {
  blocknr = if q == 1 then 5 else 0;
  dev = if q == 1 then 1 else 0;
  uptodate = 0;
  dirt = 0;
  count = 0;
  lock = 0;
  prev = 0;
  next = 0;
  prev_free = if q == 1 then 2 else 1;
  next_free = if q == 1 then 2 else 1;
}

abbrev two_heads : Cache
two_heads = record { bufs = head; hash_table = λ h. if h == 4 then 1 else 0; free_list = 1 }

abbrev one_queue : ℕ → List ℕ
one_queue h = if h == 4 then 1 ∷ [] else []

first_only : (h q : ℕ) → member q (one_queue h) ≡ true → (q ≡ 1) × (h ≡ 4)
unfolding member
first_only h q m = (ground arith, ground arith)

two_heads-Refines : Refines 2 0 two_heads one_queue
unfolding IsQueue Distinct member hashfn
two_heads-Refines = record {
  queue = λ h. elim (Bool-cases (h == 4)) [
    | inl e ↦ rw e (refl, (λ z. omega (arith, z)), refl, refl)
    | inr e ↦ rw e refl
  ];
  distinct = λ h. elim (Bool-cases (h == 4)) [ inl e ↦ rw e (refl, tt) | inr e ↦ rw e tt ];
  placed = λ h q m. let (e, f) = first_only h q m in rw (e, f) (refl, λ z. omega (arith, z));
  filed = λ q nz le ne dev. elim (ℕ_discrete q 1) [ yes e ↦ rw e refl | no other ↦ ground arith ];
  idle = λ q nz le ne dev. (refl, refl);
  loose = λ h. ground arith;
}

two_heads-Unique : Unique two_heads one_queue
two_heads-Unique h q k m n e f = ground (arith, first_only h q m, first_only h k n)

one_queue-short : (h : ℕ) → length (one_queue h) + 1 ≤ 2
one_queue-short h = elim (Bool-cases (h == 4)) [
  | inl e ↦ rw e (omega arith)
  | inr e ↦ rw e (omega arith)
]

no_block_9 : first 1 9 two_heads (one_queue (hashfn 1 9)) ≡ 0
unfolding first hashfn
no_block_9 = refl

take_over-Refines_example :
    (d : Cache) × (take_over 1 1 9 two_heads ≡ some d)
    × Refines 2 0 d (moved 1 1 9 one_queue)
    × Unique d (moved 1 1 9 one_queue)
take_over-Refines_example =
    take_over-Refines 2 two_heads one_queue two_heads-Refines two_heads-Unique 1 1 9 (omega arith)
      (omega arith) (omega arith) no_block_9 (omega arith) (omega arith)

find_buffer-take_over_example :
    (d : Cache) × (take_over 1 1 9 two_heads ≡ some d)
    × ((dev' block' : ℕ)
        → dev' ≢ 0
        → find_buffer 2 dev' block' d ≡ (
            if (dev' == 1) && (block' == 9)
            then 1
            else if stands_for dev' block' (two_heads.bufs 1)
            then 0
            else find_buffer 2 dev' block' two_heads))
find_buffer-take_over_example =
    find_buffer-take_over 2 two_heads one_queue two_heads-Refines two_heads-Unique 1 1 9
      (omega arith) (omega arith) (omega arith) no_block_9 (omega arith) (omega arith) 2
      one_queue-short

-- A driver that locks the buffer.
abbrev lock_it : ℕ → Cache → Cache
lock_it p c = change p (λ b. record b { lock = 1; dirt = 0 }) c

lock_it-StartsWrite : StartsWrite lock_it
lock_it-StartsWrite p c = (1, 0, refl)

walk_both : walk 3 1 two_heads ≡ 2 ∷ 1 ∷ 2 ∷ []
unfolding walk
walk_both = refl

on_walk : (p : ℕ) → member p (2 ∷ 1 ∷ 2 ∷ []) ≡ true → (p ≢ 0) × (p ≤ 2)
unfolding member
on_walk p m = (ground arith, ground arith)

linked : (p : ℕ) → ((two_heads.bufs p).prev_free ≢ 0) × ((two_heads.bufs p).next_free ≢ 0)
linked p = (ground arith, ground arith)

no_buffer_9 : find_buffer 2 1 9 two_heads ≡ 0
unfolding find_buffer find_from hashfn
no_buffer_9 = refl

two-IsFree : IsFree two_heads 2
unfolding badness
two-IsFree = (refl, refl)

getblk_takes_example :
    (bh : ℕ) × (d : Cache) × (getblk lock_it 2 2 1 9 two_heads ≡ got bh d)
    × ((two_heads.bufs bh).count ≡ 0)
    × ((d.bufs bh).count ≡ 1)
    × (find_buffer 2 1 9 d ≡ bh)
    × Refines 2 0 d (moved bh 1 9 one_queue)
    × Unique d (moved bh 1 9 one_queue)
unfolding walk member
getblk_takes_example =
    getblk_takes lock_it lock_it-StartsWrite 2 2 1 9 2 two_heads one_queue two_heads-Refines
      two_heads-Unique (omega arith) one_queue-short
      (λ p m. let (a, b) = on_walk p m in (a, b, (linked p).0, (linked p).1)) no_buffer_9 refl
      two-IsFree
