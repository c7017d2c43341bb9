-- ===== src/Buffer/Getblk/Walk.antt =====
-- fs/buffer.c: the loop of `getblk` over the free list.
use native.Mathlib.Decide.{ℕ_discrete}
use mathlib.Core.Path.{subst}
use linux.Base.{
  ℕ, zero, suc, ◌≡◌, ◌≢◌, refl, sym, ap, ◌∙◌, Bool, true, false, not, ◌||◌, ◌&&◌, List, [], ◌∷◌,
  ltb, ◌==◌, if◌then◌else◌, arith, if-cases,
}
use linux.Buffer.{BufferHead, Cache, change}
use linux.Buffer.Queue.{member}
use linux.Buffer.Getblk.{badness, scan}

-- The heads that `n` turns of the loop look at.
unfoldable pub walk : ℕ → ℕ → Cache → List ℕ
walk zero tmp c = []
walk (suc n) tmp c = (c.bufs tmp).next_free ∷ walk n (c.bufs tmp).next_free c

-- Starting to write a buffer changes the buffer's lock and its dirt.
abbrev pub StartsWrite : (ℕ → Cache → Cache) → Type 0
StartsWrite write_ahead =
    (p : ℕ) (c : Cache)
    → (l : ℕ) × (t : ℕ) × (write_ahead p c ≡ change p (λ b. record b { lock = l; dirt = t }) c)

walk-change :
    (n tmp p : ℕ) (f : BufferHead → BufferHead) (c : Cache)
    → ((b : BufferHead) → (f b).next_free ≡ b.next_free)
    → walk n tmp (change p f c) ≡ walk n tmp c
unfolding walk
walk-change zero tmp p f c h = refl
walk-change (suc n) tmp p f c h =
    let e : ((change p f c).bufs tmp).next_free ≡ (c.bufs tmp).next_free =
      ground (arith, h (c.bufs p)) in
    rw (e, walk-change n ((c.bufs tmp).next_free) p f c h) refl

-- A buffer that `getblk` can take at once.
abbrev pub IsFree : Cache → ℕ → Type 0
IsFree c q = ((c.bufs q).count ≡ 0) × (badness (c.bufs q) ≡ 0)

abbrev pub IsTaken : ℕ × Cache → Type 0
IsTaken (r, d) = (r ≢ 0) × IsFree d r

module _ (write_ahead : ℕ → Cache → Cache) (starts : StartsWrite write_ahead) where
  -- The cache after the loop has looked at `p`.
  abbrev pub ahead : ℕ → Cache → Cache
  ahead p c = if (c.bufs p).dirt == 0 then c else write_ahead p c

  ahead-count : (p q : ℕ) (c : Cache) → ((ahead p c).bufs q).count ≡ (c.bufs q).count
  ahead-count p q c = let (l, t, e) = starts p c in rw e (ground arith)

  pub ahead-walk : (n tmp p : ℕ) (c : Cache) → walk n tmp (ahead p c) ≡ walk n tmp c
  ahead-walk n tmp p c =
      let (l, t, e) = starts p c in
      if-cases (λ d. walk n tmp d ≡ walk n tmp c) ((c.bufs p).dirt == 0) c (write_ahead p c)
        (λ z. refl)
        (λ nz. rw e (walk-change n tmp p (λ b. record b { lock = l; dirt = t }) c (λ b. refl)))

  ahead-IsFree : (p q : ℕ) (c : Cache) → IsFree c q → IsFree (ahead p c) q
  unfolding badness
  ahead-IsFree p q c (a, b) =
      let (l, t, e) = starts p c in (ahead-count p q c ∙ a, rw e (ground arith))

  -- A clean buffer that was chosen stays chosen.
  scan_keeps :
      (n tmp bh : ℕ) (c : Cache) → bh ≢ 0 → IsFree c bh → IsTaken (scan write_ahead n tmp bh c)
  unfolding scan
  scan_keeps zero tmp bh c nz free = (nz, free)
  scan_keeps (suc n) tmp bh c nz free =
      let next = (c.bufs tmp).next_free in
      let b = c.bufs next in
      let better = (bh == 0) || ltb (badness b) (badness (c.bufs bh)) in
      let same : better ≡ false = worse next bh c nz free in
      if-cases IsTaken (not (b.count == 0)) _ _ (λ used. scan_keeps n next bh c nz free)
        (λ unused. rw same (scan_keeps n next bh (ahead next c) nz (ahead-IsFree next bh c free)))
    where
      worse :
          (next bh : ℕ) (c : Cache)
          → bh ≢ 0
          → IsFree c bh
          → (bh == 0) || ltb (badness (c.bufs next)) (badness (c.bufs bh)) ≡ false
      worse next bh c nz (a, e) = rw e (ground arith)

  -- If the loop comes past a buffer that is free, it takes such a buffer.
  pub scan_finds :
      (n tmp bh q : ℕ) (c : Cache)
      → (bh ≢ 0 → (c.bufs bh).count ≡ 0)
      → member 0 (walk n tmp c) ≡ false
      → member q (walk n tmp c) ≡ true
      → IsFree c q
      → IsTaken (scan write_ahead n tmp bh c)
  unfolding scan walk member
  scan_finds zero tmp bh q c unused real m free = ground arith
  scan_finds (suc n) tmp bh q c unused real m free =
      let next = (c.bufs tmp).next_free in
      let b = c.bufs next in
      let better = (bh == 0) || ltb (badness b) (badness (c.bufs bh)) in
      let next_nz : next ≢ 0 = ground arith in
      let real' : member 0 (walk n next c) ≡ false = ground arith in
      if-cases IsTaken (not (b.count == 0)) _ _
        (λ used.
          let ne : next ≢ q = λ e. in_use next c used (ap (λ k. (c.bufs k).count) e ∙ free.0) in
          scan_finds n next bh q c unused real' (ground arith) free)
        (λ zero_count.
          if-cases IsTaken (better && (badness b == 0)) _ _
            (λ stop. (next_nz, (ground arith, ground arith)))
            (λ go_on. elim (ℕ_discrete next q) [
              | yes here ↦
                  let clean : badness b ≡ 0 = ap (λ k. badness (c.bufs k)) here ∙ free.1 in
                  let kept : better ≡ false = ground arith in
                  let bh_nz : bh ≢ 0 = not_better bh (badness b) (badness (c.bufs bh)) kept in
                  let bh_clean : badness (c.bufs bh) ≡ 0 = ground arith in
                  rw kept (
                    scan_keeps n next bh (ahead next c) bh_nz
                      (ahead-IsFree next bh c (unused bh_nz, bh_clean)))
              | no ne ↦
                  let same = ahead-walk n next next c in
                  scan_finds n next (if better then next else bh) q (ahead next c)
                    (λ nz.
                      ahead-count next (if better then next else bh) c
                      ∙ chosen_unused better next bh c (ground arith) unused nz)
                    (subst (λ l. member 0 l ≡ false) (sym same) real')
                    (subst (λ l. member q l ≡ true) (sym same) (ground arith))
                    (ahead-IsFree next q c free)
            ]))
    where
      in_use : (p : ℕ) (c : Cache) → not ((c.bufs p).count == 0) ≡ true → (c.bufs p).count ≢ 0
      in_use p c h = ground arith

      not_better : (bh b b' : ℕ) → (bh == 0) || ltb b b' ≡ false → bh ≢ 0
      not_better bh b b' h = ground arith

      chosen_unused :
          (better : Bool) (next bh : ℕ) (c : Cache)
          → (c.bufs next).count ≡ 0
          → (bh ≢ 0 → (c.bufs bh).count ≡ 0)
          → (if better then next else bh) ≢ 0
          → (c.bufs (if better then next else bh)).count ≡ 0
      chosen_unused true next bh c a b nz = a
      chosen_unused false next bh c a b nz = b nz
