-- ===== src/Buffer/Map.antt =====
-- fs/buffer.c: the cache as a map from blocks to buffers, when a buffer is given to another block.
use mathlib.Core.Path.{subst}
use linux.Base.{
  ℕ, ◌+◌, ◌≡◌, ◌≢◌, ◌≤◌, refl, sym, ap, ◌∙◌, ◌⊎◌, inl, inr, true, false, ◌&&◌, List, [], ◌∷◌, some,
  ◌==◌, if◌then◌else◌, arith, Bool-cases, length,
}
use linux.Buffer.{BufferHead, Cache, hashfn, slot, find_buffer, take_over}
use linux.Buffer.Queue.{member, without, differ, member-without, member-without_self}
use linux.Buffer.Hash.{Refines}
use linux.Buffer.TakeOver.{moved, taken, taken-Refines, taken-key, taken-key_self, take_over-some}
use linux.Buffer.Lookup.{
  stands_for, first, Unique, find_buffer-first, first_none, first_same, first_absent, first-without,
}

length-without : (p : ℕ) (l : List ℕ) → length (without p l) ≤ length l
unfolding without
length-without p [] = omega arith
length-without p (a ∷ l) = ground (arith, length-without p l)

module _ (p dev block : ℕ) (qs : ℕ → List ℕ) where
  length-moved : (h : ℕ) → length (moved p dev block qs h) ≤ length (qs h) + 1
  unfolding moved
  length-moved h = ground (arith, length-without p (qs h))

  moved_cases :
      (h q : ℕ)
      → member q (moved p dev block qs h) ≡ true
      → (q ≡ p) ⊎ (member q (without p (qs h)) ≡ true)
  unfolding moved member
  moved_cases h q m = ground arith

  first-moved :
      (dev' block' h : ℕ) (d : Cache)
      → stands_for dev' block' (d.bufs p) ≡ false
      → first dev' block' d (moved p dev block qs h) ≡ first dev' block' d (without p (qs h))
  unfolding moved first
  first-moved dev' block' h d f = ground arith

  first-moved_self :
      (d : Cache)
      → dev ≢ 0
      → stands_for dev block (d.bufs p) ≡ true
      → first dev block d (moved p dev block qs (hashfn dev block)) ≡ p
  unfolding moved first
  first-moved_self d nz f = ground arith

both :
    (dev block : ℕ) (b : BufferHead)
    → stands_for dev block b ≡ true
    → (b.dev ≡ dev) × (b.blocknr ≡ block)
both dev block b h = (ground arith, ground arith)

equal :
    (dev block dev' block' : ℕ)
    → ((dev' == dev) && (block' == block)) ≡ true
    → (dev' ≡ dev) × (block' ≡ block)
equal dev block dev' block' h = (ground arith, ground arith)

stands :
    (dev block : ℕ) (b : BufferHead)
    → b.dev ≡ dev
    → b.blocknr ≡ block
    → stands_for dev block b ≡ true
stands dev block b e f = ground arith

hash_of :
    (b : BufferHead) {dev block : ℕ} → b.dev ≡ dev → b.blocknr ≡ block → slot b ≡ hashfn dev block
hash_of b e f = rw (e, f) refl

module _ (nr : ℕ) (c : Cache) (qs : ℕ → List ℕ) (r : Refines nr 0 c qs) (u : Unique c qs)
    (p dev block : ℕ) (nz : p ≢ 0) (le : p ≤ nr) (dev_nz : dev ≢ 0)
    (absent : first dev block c (qs (hashfn dev block)) ≡ 0) where
  apart : (h q : ℕ) → member q (without p (qs h)) ≡ true → q ≢ p
  apart h q m = differ q p (without p (qs h)) m (member-without_self p (qs h) (r.distinct h))

  -- No other head stands for the new block.
  newcomer :
      (h q : ℕ)
      → member q (without p (qs h)) ≡ true
      → stands_for dev block ((taken p dev block c).bufs q) ≡ false
  newcomer h q m =
      let (e, f) = taken-key p dev block c q (apart h q m) in
      let m' = member-without q p (qs h) m in
      rw (e, f)
        (elim (Bool-cases (stands_for dev block (c.bufs q))) [
          | inl same ↦
              let (x, y) = both dev block (c.bufs q) same in
              let here : hashfn dev block ≡ h =
                sym (hash_of (c.bufs q) x y) ∙ (r.placed h q m').0 in
              first_none dev block q c (qs (hashfn dev block)) absent (r.loose (hashfn dev block))
                (subst (λ j. member q (qs j) ≡ true) (sym here) m')
          | inr other ↦ other
        ])

  taken-apart :
      (h q : ℕ)
      → member q (without p (qs h)) ≡ true
      → let t = taken p dev block c in
        (t.bufs q).dev ≡ (t.bufs p).dev → (t.bufs q).blocknr ≡ (t.bufs p).blocknr → ⊥
  taken-apart h q m e f =
      let (a, b) = taken-key_self p dev block c in
      let same = stands dev block ((taken p dev block c).bufs q) (e ∙ a) (f ∙ b) in
      let other = newcomer h q m in ground arith

  pub taken-Unique : Unique (taken p dev block c) (moved p dev block qs)
  taken-Unique h q k m n e f = elim (moved_cases p dev block qs h q m) [
    | inl q_p ↦ elim (moved_cases p dev block qs h k n) [
      | inl k_p ↦ q_p ∙ sym k_p
      | inr k_in ↦ absurd (
          taken-apart h k k_in (sym e ∙ ap (λ j. ((taken p dev block c).bufs j).dev) q_p)
            (sym f ∙ ap (λ j. ((taken p dev block c).bufs j).blocknr) q_p))
    ]
    | inr q_in ↦ elim (moved_cases p dev block qs h k n) [
      | inl k_p ↦ absurd (
          taken-apart h q q_in (e ∙ ap (λ j. ((taken p dev block c).bufs j).dev) k_p)
            (f ∙ ap (λ j. ((taken p dev block c).bufs j).blocknr) k_p))
      | inr k_in ↦
          let (a, b) = taken-key p dev block c q (apart h q q_in) in
          let (a', b') = taken-key p dev block c k (apart h k k_in) in
          u h q k (member-without q p (qs h) q_in) (member-without k p (qs h) k_in) (sym a ∙ e ∙ a')
            (sym b ∙ f ∙ b')
    ]
  ]

  -- A head that stood for the block is gone from its queue, with `p`.
  old_gone :
      (dev' block' : ℕ)
      → dev' ≢ 0
      → stands_for dev' block' (c.bufs p) ≡ true
      → first dev' block' c (without p (qs (hashfn dev' block'))) ≡ 0
  old_gone dev' block' nz' same =
      let h = hashfn dev' block' in
      let (x, y) = both dev' block' (c.bufs p) same in
      let in_h : member p (qs h) ≡ true =
        subst (λ j. member p (qs j) ≡ true) (hash_of (c.bufs p) x y)
          (r.filed p nz le nz (λ z. nz' (sym x ∙ z))) in
      first_absent dev' block' c (without p (qs h)) λ q m.
        elim (Bool-cases (stands_for dev' block' (c.bufs q))) [
          | inl again ↦
              let (a, b) = both dev' block' (c.bufs q) again in
              absurd
                (apart h q m (u h q p (member-without q p (qs h) m) in_h (a ∙ sym x) (b ∙ sym y)))
          | inr other ↦ other
        ]

  moved_away :
      (dev' block' : ℕ)
      → ((dev' == dev) && (block' == block)) ≡ false
      → stands_for dev' block' ((taken p dev block c).bufs p) ≡ false
  moved_away dev' block' h = let (a, b) = taken-key_self p dev block c in rw (a, b) (ground arith)

  without_old :
      (dev' block' : ℕ)
      → dev' ≢ 0
      → first dev' block' c (without p (qs (hashfn dev' block'))) ≡ (
          if stands_for dev' block' (c.bufs p)
          then 0
          else first dev' block' c (qs (hashfn dev' block')))
  without_old dev' block' nz' = elim (Bool-cases (stands_for dev' block' (c.bufs p))) [
    | inl same ↦ rw same (old_gone dev' block' nz' same)
    | inr other ↦ rw other (first-without dev' block' p c (qs (hashfn dev' block')) other)
  ]

  first-taken :
      (dev' block' : ℕ)
      → dev' ≢ 0
      → first dev' block' (taken p dev block c) (moved p dev block qs (hashfn dev' block')) ≡ (
          if (dev' == dev) && (block' == block)
          then p
          else if stands_for dev' block' (c.bufs p)
          then 0
          else first dev' block' c (qs (hashfn dev' block')))
  first-taken dev' block' nz' = elim (Bool-cases ((dev' == dev) && (block' == block))) [
    | inl new ↦
        let (e, f) = equal dev block dev' block' new in
        let self : ((dev == dev) && (block == block)) ≡ true = ground arith in
        let (a, b) = taken-key_self p dev block c in
        rw (e, f, self)
          (first-moved_self p dev block qs (taken p dev block c) dev_nz
            (stands dev block ((taken p dev block c).bufs p) a b))
    | inr old ↦ rw old (
        first-moved p dev block qs dev' block' (hashfn dev' block') (taken p dev block c)
          (moved_away dev' block' old)
        ∙ first_same dev' block' c (taken p dev block c) (without p (qs (hashfn dev' block')))
            (λ q m. taken-key p dev block c q (apart (hashfn dev' block') q m))
        ∙ without_old dev' block' nz')
  ]

  pub find_buffer-taken :
      (fuel : ℕ)
      → ((h : ℕ) → length (qs h) + 1 ≤ fuel)
      → (dev' block' : ℕ) → dev' ≢ 0
      → find_buffer fuel dev' block' (taken p dev block c) ≡ (
          if (dev' == dev) && (block' == block)
          then p
          else if stands_for dev' block' (c.bufs p)
          then 0
          else find_buffer fuel dev' block' c)
  find_buffer-taken fuel enough dev' block' nz' =
      let h = hashfn dev' block' in
      let before = find_buffer-first nr 0 fuel dev' block' c qs r (omega (arith, enough h)) in
      let room : length (moved p dev block qs h) ≤ fuel =
        omega (arith, enough h, length-moved p dev block qs h) in
      let after =
        find_buffer-first nr 0 fuel dev' block' (taken p dev block c) (moved p dev block qs)
          (taken-Refines nr c qs r p dev block nz le) room in
      rw (after, before) (first-taken dev' block' nz')

  module _ (a : (c.bufs p).prev_free ≢ 0) (b : (c.bufs p).next_free ≢ 0) where
    -- The cache stands for the lists `qs`, with one buffer for a block at most; the new block, on a
    -- device, is in none of them, and `p` is a buffer on the free list. Then `take_over` succeeds, and
    -- the cache it leaves stands for the lists in which `p` has left its queue and is at the front of
    -- the queue of its new block; again there is one buffer for a block at most.
    pub take_over-Refines :
        (d : Cache) × (take_over p dev block c ≡ some d)
        × Refines nr 0 d (moved p dev block qs)
        × Unique d (moved p dev block qs)
    take_over-Refines = (
      taken p dev block c,
      take_over-some p dev block c a b,
      taken-Refines nr c qs r p dev block nz le,
      taken-Unique,
    )

    -- The cache stands for the lists `qs`, with one buffer for a block at most; the new block, on a
    -- device, is in none of them, `p` is a buffer on the free list, and there is more fuel than any
    -- queue is long. Then `take_over` succeeds, and afterwards `find_buffer` finds `p` for the new
    -- block, nothing for the block that `p` stood for before, and for every other block of a device
    -- what it found before.
    pub find_buffer-take_over :
        (fuel : ℕ)
        → ((h : ℕ) → length (qs h) + 1 ≤ fuel)
        → (d : Cache) × (take_over p dev block c ≡ some d)
          × ((dev' block' : ℕ)
              → dev' ≢ 0
              → find_buffer fuel dev' block' d ≡ (
                  if (dev' == dev) && (block' == block)
                  then p
                  else if stands_for dev' block' (c.bufs p)
                  then 0
                  else find_buffer fuel dev' block' c))
    find_buffer-take_over fuel enough =
        (taken p dev block c, take_over-some p dev block c a b, find_buffer-taken fuel enough)
