-- ===== src/Buffer/Getblk/Take.antt =====
-- fs/buffer.c: `getblk` for a block that is in no buffer, when a buffer is free.
use mathlib.Core.Path.{subst}
use linux.Base.{
  ℕ, zero, suc, ◌+◌, ◌≡◌, ◌≢◌, ◌≤◌, refl, sym, ◌∙◌, ◌⊎◌, inl, inr, Bool, true, false, not, ◌||◌,
  ◌&&◌, List, ◌∷◌, ltb, ◌==◌, if◌then◌else◌, arith, if-cases, length,
}
use linux.Buffer.{Cache, hashfn, find_buffer}
use linux.Buffer.Queue.{member, member_head, member_tail}
use linux.Buffer.Hash.{SameKey, Refines, Refines-same}
use linux.Buffer.TakeOver.{SameQueues, moved, taken, take_over-some, taken-Refines, taken-count}
use linux.Buffer.Lookup.{first, Unique, find_buffer-first, first_same}
use linux.Buffer.Map.{find_buffer-taken, taken-Unique}
use linux.Buffer.Getblk.{badness, scan, got, as_got, use_buffer, getblk}
use linux.Buffer.Getblk.Walk.{walk, StartsWrite, IsFree, IsTaken, ahead, scan_finds, ahead-walk}

-- What the loop leaves as it was.
record Kept (c d : Cache) : Type 0 where
  queues : SameQueues c d
  free_links :
      (q : ℕ)
      → ((d.bufs q).next_free ≡ (c.bufs q).next_free)
        × ((d.bufs q).prev_free ≡ (c.bufs q).prev_free)
  counts : (q : ℕ) → (d.bufs q).count ≡ (c.bufs q).count

Kept-refl : (c : Cache) → Kept c c
Kept-refl c = record {
  queues = record { heads = λ h. refl; links = λ q. (refl, refl); keys = λ q. (refl, refl) };
  free_links = λ q. (refl, refl);
  counts = λ q. refl;
}

Kept-trans : (c d e : Cache) → Kept c d → Kept d e → Kept c e
Kept-trans c d e s t = record {
  queues = record {
    heads = λ h. t.queues.heads h ∙ s.queues.heads h;
    links = λ q.
        ((t.queues.links q).0 ∙ (s.queues.links q).0, (t.queues.links q).1 ∙ (s.queues.links q).1);
    keys =
        λ q. ((t.queues.keys q).0 ∙ (s.queues.keys q).0, (t.queues.keys q).1 ∙ (s.queues.keys q).1);
  };
  free_links =
      λ q. ((t.free_links q).0 ∙ (s.free_links q).0, (t.free_links q).1 ∙ (s.free_links q).1);
  counts = λ q. t.counts q ∙ s.counts q;
}

none_null : (l : List ℕ) → (member 0 l ≡ true → ⊥) → member 0 l ≡ false
none_null l h = ground arith

on_walk : (r : ℕ) (l : List ℕ) → r ≢ 0 → (r ≡ 0) ⊎ (member r l ≡ true) → member r l ≡ true
on_walk r l nz (inl z) = absurd (nz z)
on_walk r l nz (inr m) = m

Unique-same :
    (c d : Cache) (qs : ℕ → List ℕ) → ((q : ℕ) → SameKey c d q) → Unique c qs → Unique d qs
Unique-same c d qs same u h q k m n e f =
    let (a, b) = same q in let (a', b') = same k in u h q k m n (sym a ∙ e ∙ a') (sym b ∙ f ∙ b')

not_found :
    (write_ahead : ℕ → Cache → Cache) (fuel nr dev block : ℕ) (c : Cache)
    → find_buffer fuel dev block c ≡ 0
    → let o = scan write_ahead (nr + 1) c.free_list 0 c in
      getblk write_ahead fuel nr dev block c ≡ use_buffer fuel dev block o.0 o.1
unfolding getblk
not_found write_ahead fuel nr dev block c h = rw h refl

use_buffer-got :
    (fuel dev block bh : ℕ) (c : Cache)
    → bh ≢ 0
    → badness (c.bufs bh) ≡ 0
    → find_buffer fuel dev block c ≡ 0
    → (c.bufs bh).prev_free ≢ 0
    → (c.bufs bh).next_free ≢ 0
    → use_buffer fuel dev block bh c ≡ got bh (taken bh dev block c)
unfolding use_buffer as_got
use_buffer-got fuel dev block bh c nz clean h a b =
    let real : (bh == 0) ≡ false = ground arith in
    rw (real, clean, h, take_over-some bh dev block c a b) refl

find_new :
    (nr : ℕ) (c : Cache) (qs : ℕ → List ℕ)
    → Refines nr 0 c qs
    → Unique c qs
    → (p dev block : ℕ) → p ≢ 0
    → p ≤ nr
    → dev ≢ 0
    → first dev block c (qs (hashfn dev block)) ≡ 0
    → (fuel : ℕ) → ((h : ℕ) → length (qs h) + 1 ≤ fuel)
    → find_buffer fuel dev block (taken p dev block c) ≡ p
find_new nr c qs r u p dev block nz le dev_nz absent fuel enough =
    let self : ((dev == dev) && (block == block)) ≡ true = ground arith in
    find_buffer-taken nr c qs r u p dev block nz le dev_nz absent fuel enough dev block dev_nz
    ∙ (rw self refl)

module _ (write_ahead : ℕ → Cache → Cache) (starts : StartsWrite write_ahead) where
  ahead-Kept : (p : ℕ) (c : Cache) → Kept c (ahead write_ahead starts p c)
  ahead-Kept p c =
      let (lock, t, e) = starts p c in
      rw e (record {
        queues = record {
          heads = λ h. (ground arith);
          links = λ q. (ground arith, ground arith);
          keys = λ q. (ground arith, ground arith);
        };
        free_links = λ q. (ground arith, ground arith);
        counts = λ q. (ground arith);
      })

  scan-Kept : (n tmp bh : ℕ) (c : Cache) → Kept c (scan write_ahead n tmp bh c).1
  unfolding scan
  scan-Kept zero tmp bh c = Kept-refl c
  scan-Kept (suc n) tmp bh c =
      let next = (c.bufs tmp).next_free in
      let b = c.bufs next in
      let better = (bh == 0) || ltb (badness b) (badness (c.bufs bh)) in
      let chosen = if better then next else bh in
      let after : Cache = ahead write_ahead starts next c in
      let rest = scan write_ahead n next chosen after in
      if-cases (λ (o : ℕ × Cache). Kept c o.1) (not (b.count == 0)) (scan write_ahead n next bh c) _
        (λ used. scan-Kept n next bh c)
        (λ unused.
          if-cases (λ (o : ℕ × Cache). Kept c o.1) (better && (badness b == 0)) (next, c) rest
            (λ stop. Kept-refl c)
            (λ go_on.
              Kept-trans c after rest.1 (ahead-Kept next c) (scan-Kept n next chosen after)))

  -- The loop gives the buffer that it started with, or one that it has come past.
  scan_from :
      (n tmp bh : ℕ) (c : Cache)
      → let r = (scan write_ahead n tmp bh c).0 in (r ≡ bh) ⊎ (member r (walk n tmp c) ≡ true)
  unfolding scan walk
  scan_from zero tmp bh c = inl refl
  scan_from (suc n) tmp bh c =
      let next = (c.bufs tmp).next_free in
      let b = c.bufs next in
      let better = (bh == 0) || ltb (badness b) (badness (c.bufs bh)) in
      let chosen = if better then next else bh in
      let after : Cache = ahead write_ahead starts next c in
      let rest = scan write_ahead n next chosen after in
      let l = walk n next c in
      if-cases (λ (o : ℕ × Cache). (o.0 ≡ bh) ⊎ (member o.0 (next ∷ l) ≡ true)) (not (b.count == 0))
        (scan write_ahead n next bh c) _
        (λ used. later bh next l (scan write_ahead n next bh c).0 (scan_from n next bh c))
        (λ unused.
          if-cases (λ (o : ℕ × Cache). (o.0 ≡ bh) ⊎ (member o.0 (next ∷ l) ≡ true))
            (better && (badness b == 0)) (next, c) rest (λ stop. inr (member_head next l))
            (λ go_on. chosen_from better bh next l rest.0 (
              subst (λ k. (rest.0 ≡ chosen) ⊎ (member rest.0 k ≡ true))
                (ahead-walk write_ahead starts n next next c) (scan_from n next chosen after))))
    where
      later :
          (bh next : ℕ) (l : List ℕ) (r : ℕ)
          → (r ≡ bh) ⊎ (member r l ≡ true)
          → (r ≡ bh) ⊎ (member r (next ∷ l) ≡ true)
      later bh next l r (inl e) = inl e
      later bh next l r (inr m) = inr (member_tail r next l m)

      chosen_from :
          (better : Bool) (bh next : ℕ) (l : List ℕ) (r : ℕ)
          → (r ≡ (if better then next else bh)) ⊎ (member r l ≡ true)
          → (r ≡ bh) ⊎ (member r (next ∷ l) ≡ true)
      chosen_from true bh next l r (inl e) =
          inr (subst (λ k. member k (next ∷ l) ≡ true) (sym e) (member_head next l))
      chosen_from false bh next l r (inl e) = inl e
      chosen_from better bh next l r (inr m) = inr (member_tail r next l m)

  module _ (nr fuel dev block q : ℕ) (c : Cache) (qs : ℕ → List ℕ) (r : Refines nr 0 c qs)
      (u : Unique c qs) (dev_nz : dev ≢ 0) (enough : (h : ℕ) → length (qs h) + 1 ≤ fuel)
      (on_list : (p : ℕ)
        → member p (walk (nr + 1) c.free_list c) ≡ true
        → (p ≢ 0) × (p ≤ nr) × ((c.bufs p).prev_free ≢ 0) × ((c.bufs p).next_free ≢ 0))
      (absent : find_buffer fuel dev block c ≡ 0)
      (passed : member q (walk (nr + 1) c.free_list c) ≡ true) (free : IsFree c q) where
    -- A block of a device is in no buffer of a cache that stands for the lists `qs`, one buffer for a
    -- block at most; the free list leads to buffers only, each linked on both sides, and one that it
    -- leads to, `q`, is unused, clean and not locked; starting to write a buffer changes no more than
    -- its lock and its dirt; there is more fuel than any queue is long. Then `getblk` returns a
    -- buffer without sleeping. That buffer was unused, it is used once now, `find_buffer` finds it for
    -- the block, and the cache stands for the lists with the buffer moved, one buffer for a block at
    -- most.
    pub getblk_takes :
        (bh : ℕ) × (d : Cache) × (getblk write_ahead fuel nr dev block c ≡ got bh d)
        × ((c.bufs bh).count ≡ 0)
        × ((d.bufs bh).count ≡ 1)
        × (find_buffer fuel dev block d ≡ bh)
        × Refines nr 0 d (moved bh dev block qs)
        × Unique d (moved bh dev block qs)
    getblk_takes =
        let l = walk (nr + 1) c.free_list c in
        let o = scan write_ahead (nr + 1) c.free_list 0 c in
        let bh = o.0 in
        let s : Cache = o.1 in
        let real : member 0 l ≡ false = none_null l (λ m. (on_list 0 m).0 refl) in
        let (nz, (unused, clean)) : IsTaken o =
          scan_finds write_ahead starts (nr + 1) c.free_list 0 q c (λ z. absurd (z refl)) real
            passed free in
        let kept : Kept c s = scan-Kept (nr + 1) c.free_list 0 c in
        let (nz', le, a, b) = on_list bh (on_walk bh l nz (scan_from (nr + 1) c.free_list 0 c)) in
        let rs : Refines nr 0 s qs =
          Refines-same nr 0 c s qs r kept.queues.heads kept.queues.links
            (λ k ne. kept.queues.keys k) in
        let us : Unique s qs = Unique-same c s qs kept.queues.keys u in
        let h = hashfn dev block in
        let gone : first dev block s (qs h) ≡ 0 =
          first_same dev block c s (qs h) (λ k m. kept.queues.keys k)
          ∙ sym (find_buffer-first nr 0 fuel dev block c qs r (omega (arith, enough h)))
          ∙ absent in
        let find_s =
          find_buffer-first nr 0 fuel dev block s qs rs (omega (arith, enough h)) ∙ gone in
        let a' : (s.bufs bh).prev_free ≢ 0 = λ z. a (sym (kept.free_links bh).1 ∙ z) in
        let b' : (s.bufs bh).next_free ≢ 0 = λ z. b (sym (kept.free_links bh).0 ∙ z) in
        let t : Cache = taken bh dev block s in
        let map = find_new nr s qs rs us bh dev block nz le dev_nz gone fuel enough in
        (
          bh,
          t,
          not_found write_ahead fuel nr dev block c absent
              ∙ use_buffer-got fuel dev block bh s nz clean find_s a' b',
          sym (kept.counts bh) ∙ unused,
          taken-count bh dev block s,
          map,
          taken-Refines nr s qs rs bh dev block nz le,
          taken-Unique nr s qs rs us bh dev block nz le dev_nz gone,
        )
