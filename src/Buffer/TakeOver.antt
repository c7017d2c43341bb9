-- ===== src/Buffer/TakeOver.antt =====
-- fs/buffer.c: the end of `getblk`, where a buffer is given to another block.
use mathlib.Core.Path.{subst, fun_ext}
use linux.Base.{
  ℕ, ◌≡◌, ◌≢◌, ◌≤◌, refl, sym, ◌∙◌, not, ◌&&◌, List, ◌∷◌, some, ◌==◌, if◌then◌else◌, arith,
}
use linux.Buffer.{
  Cache, hashfn, unlink_next, unlink_prev, unlink_head, remove_from_hash_queue, off_free_list,
  remove_from_free_list, append_free, insert_into_hash_queue, insert_into_queues, mark_used, rename,
  take_over,
}
use linux.Buffer.Queue.{without}
use linux.Buffer.Hash.{nexts, prevs, SameKey, Refines, Refines-same, remove-Refines}
use linux.Buffer.Insert.{with_front, insert-Refines}
use linux.Buffer.Links.{insert-key}

-- The links of the hash queues and the blocks of the heads are the same.
pub record SameQueues (c d : Cache) : Type 0 where
  pub heads : (h : ℕ) → d.hash_table h ≡ c.hash_table h
  pub links : (q : ℕ) → (nexts d q ≡ nexts c q) × (prevs d q ≡ prevs c q)
  pub keys : (q : ℕ) → SameKey c d q

remove_free-some :
    (p : ℕ) (c : Cache)
    → (c.bufs p).prev_free ≢ 0
    → (c.bufs p).next_free ≢ 0
    → remove_from_free_list p c ≡ some (off_free_list p c)
unfolding remove_from_free_list
remove_free-some p c a b = ground arith

off_free_list-same : (p : ℕ) (c : Cache) → SameQueues c (off_free_list p c)
unfolding off_free_list
off_free_list-same p c = record {
  heads = λ h. (ground arith);
  links = λ q. (ground arith, ground arith);
  keys = λ q. (ground arith, ground arith);
}

append_free-same : (p : ℕ) (c : Cache) → SameQueues c (append_free p c)
unfolding append_free
append_free-same p c = record {
  heads = λ h. refl;
  links = λ q. (ground arith, ground arith);
  keys = λ q. (ground arith, ground arith);
}

mark_used-same : (p : ℕ) (c : Cache) → SameQueues c (mark_used p c)
unfolding mark_used
mark_used-same p c = record {
  heads = λ h. refl;
  links = λ q. (ground arith, ground arith);
  keys = λ q. (ground arith, ground arith);
}

module _ (p dev block : ℕ) (c : Cache) where
  renamed_heads : (h : ℕ) → (append_free p (rename p dev block c)).hash_table h ≡ c.hash_table h
  unfolding append_free rename
  renamed_heads h = refl

  renamed_links :
      (q : ℕ)
      → let d = append_free p (rename p dev block c) in
        (nexts d q ≡ nexts c q) × (prevs d q ≡ prevs c q)
  unfolding append_free rename
  renamed_links q = (ground arith, ground arith)

  renamed_keys : (q : ℕ) → q ≢ p → SameKey c (append_free p (rename p dev block c)) q
  unfolding append_free rename
  renamed_keys q ne = (ground arith, ground arith)

  renamed_self :
      let b = (append_free p (rename p dev block c)).bufs p in (b.dev ≡ dev) × (b.blocknr ≡ block)
  unfolding append_free rename
  renamed_self = (ground arith, ground arith)

removed_free :
    (p : ℕ) (c : Cache)
    → let d = remove_from_hash_queue p (mark_used p c) in
      ((d.bufs p).prev_free ≡ (c.bufs p).prev_free) × ((d.bufs p).next_free ≡ (c.bufs p).next_free)
unfolding remove_from_hash_queue unlink_next unlink_prev unlink_head mark_used
removed_free p c = (ground arith, ground arith)

-- What `take_over` does to the queues: `p` leaves its queue and comes to the front of the one of its
-- new block, if that has a device.
unfoldable pub moved : ℕ → ℕ → ℕ → (ℕ → List ℕ) → ℕ → List ℕ
moved p dev block qs h =
    if (h == hashfn dev block) && not (dev == 0) then p ∷ without p (qs h) else without p (qs h)

moved_front :
    (p dev block : ℕ) (c : Cache) (qs : ℕ → List ℕ) (h : ℕ)
    → ((c.bufs p).dev ≡ dev) × ((c.bufs p).blocknr ≡ block)
    → with_front p c (λ k. without p (qs k)) h ≡ moved p dev block qs h
unfolding with_front moved
moved_front p dev block c qs h (e, f) = rw (e, f) refl

-- The cache that `take_over` leaves.
unfoldable pub taken : ℕ → ℕ → ℕ → Cache → Cache
taken p dev block c =
    insert_into_queues p
      (rename p dev block (off_free_list p (remove_from_hash_queue p (mark_used p c))))

module _ (p dev block : ℕ) (c : Cache) (a : (c.bufs p).prev_free ≢ 0)
    (b : (c.bufs p).next_free ≢ 0) where
  pub take_over-some : take_over p dev block c ≡ some (taken p dev block c)
  unfolding take_over taken
  take_over-some =
      let r : Cache = remove_from_hash_queue p (mark_used p c) in
      let (e, f) = removed_free p c in
      let some_d : remove_from_free_list p r ≡ some (off_free_list p r) =
        remove_free-some p r (λ z. a (sym e ∙ z)) (λ z. b (sym f ∙ z)) in
      rw some_d refl

module _ (nr : ℕ) (c : Cache) (qs : ℕ → List ℕ) (r : Refines nr 0 c qs) (p dev block : ℕ)
    (nz : p ≢ 0) (le : p ≤ nr) where
  pub taken-Refines : Refines nr 0 (taken p dev block c) (moved p dev block qs)
  unfolding taken insert_into_queues
  taken-Refines =
      let m : Cache = mark_used p c in
      let s1 = mark_used-same p c in
      let r1 : Refines nr 0 m qs =
        Refines-same nr 0 c m qs r s1.heads s1.links (λ q ne. s1.keys q) in
      let d : Cache = remove_from_hash_queue p m in
      let off : ℕ → List ℕ = λ h. without p (qs h) in
      let r2 : Refines nr p d off = remove-Refines nr m qs r1 p nz le in
      let e : Cache = off_free_list p d in
      let s3 = off_free_list-same p d in
      let r3 : Refines nr p e off =
        Refines-same nr p d e off r2 s3.heads s3.links (λ q ne. s3.keys q) in
      let f : Cache = append_free p (rename p dev block e) in
      let r4 : Refines nr p f off =
        Refines-same nr p e f off r3 (λ h. renamed_heads p dev block e h)
          (λ q. renamed_links p dev block e q) (λ q ne. renamed_keys p dev block e q ne) in
      subst (Refines nr 0 (insert_into_hash_queue p f))
        (fun_ext (λ h. moved_front p dev block f qs h (renamed_self p dev block e)))
        (insert-Refines nr p f off r4 nz)

remove-SameKey : (p q : ℕ) (c : Cache) → SameKey c (remove_from_hash_queue p c) q
unfolding remove_from_hash_queue unlink_next unlink_prev unlink_head
remove-SameKey p q c = (ground arith, ground arith)

SameKey-trans : (c d e : Cache) (q : ℕ) → SameKey c d q → SameKey d e q → SameKey c e q
SameKey-trans c d e q (a, b) (a', b') = (a' ∙ a, b' ∙ b)

module _ (p dev block : ℕ) (c : Cache) where
  -- Only `p` stands for another block afterwards.
  pub taken-key : (q : ℕ) → q ≢ p → SameKey c (taken p dev block c) q
  unfolding taken insert_into_queues
  taken-key q ne =
      let m : Cache = mark_used p c in
      let d : Cache = remove_from_hash_queue p m in
      let e : Cache = off_free_list p d in
      let f : Cache = append_free p (rename p dev block e) in
      let t : Cache = insert_into_hash_queue p f in
      SameKey-trans c m t q ((mark_used-same p c).keys q) (
        SameKey-trans m d t q (remove-SameKey p q m) (
          SameKey-trans d e t q ((off_free_list-same p d).keys q)
            (SameKey-trans e f t q (renamed_keys p dev block e q ne) (insert-key p q f))))

  pub taken-key_self : let b = (taken p dev block c).bufs p in (b.dev ≡ dev) × (b.blocknr ≡ block)
  unfolding taken insert_into_queues
  taken-key_self =
      let e : Cache = off_free_list p (remove_from_hash_queue p (mark_used p c)) in
      let f : Cache = append_free p (rename p dev block e) in
      let (a, b) = renamed_self p dev block e in
      ((insert-key p p f).0 ∙ a, (insert-key p p f).1 ∙ b)

-- No step but the first changes the use counts.
module _ (p q : ℕ) (c : Cache) where
  remove-count : ((remove_from_hash_queue p c).bufs q).count ≡ (c.bufs q).count
  unfolding remove_from_hash_queue unlink_next unlink_prev unlink_head
  remove-count = ground arith

  off_free_list-count : ((off_free_list p c).bufs q).count ≡ (c.bufs q).count
  unfolding off_free_list
  off_free_list-count = ground arith

  append_free-count :
      (dev block : ℕ) → ((append_free p (rename p dev block c)).bufs q).count ≡ (c.bufs q).count
  unfolding append_free rename
  append_free-count dev block = ground arith

  insert-count : ((insert_into_hash_queue p c).bufs q).count ≡ (c.bufs q).count
  unfolding insert_into_hash_queue
  insert-count = ground arith

  mark_used-count : ((mark_used p c).bufs p).count ≡ 1
  unfolding mark_used
  mark_used-count = ground arith

pub taken-count : (p dev block : ℕ) (c : Cache) → ((taken p dev block c).bufs p).count ≡ 1
unfolding taken insert_into_queues
taken-count p dev block c =
    let m : Cache = mark_used p c in
    let d : Cache = remove_from_hash_queue p m in
    let e : Cache = off_free_list p d in
    let f : Cache = append_free p (rename p dev block e) in
    insert-count p p f
    ∙ append_free-count p p e dev block
    ∙ off_free_list-count p p d
    ∙ remove-count p p m
    ∙ mark_used-count p p c
