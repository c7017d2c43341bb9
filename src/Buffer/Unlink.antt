-- ===== src/Buffer/Unlink.antt =====
-- fs/buffer.c: a hash queue from which a buffer is unlinked.
use native.Mathlib.Decide.{ℕ_discrete}
use mathlib.Core.Path.{subst}
use linux.Base.{
  ℕ, ◌≡◌, ◌≢◌, refl, sym, ap, ◌∙◌, true, false, List, [], ◌∷◌, ◌==◌, if◌then◌else◌, arith,
}
use linux.Buffer.Queue.{
  member, without, Distinct, IsQueue, IsQueue-same, IsQueue-behind, first_member, member_nz,
  next_member, first_prev, prev_member, differ, Unlinked,
}

module _ (next prev next' prev' : ℕ → ℕ) (x : ℕ) (u : Unlinked next prev next' prev' x) where
  -- A queue without `x` is left alone.
  pub IsQueue-apart :
      (p : ℕ) (l : List ℕ)
      → IsQueue next prev 0 p l
      → member x l ≡ false
      → (next x ≢ 0 → member (next x) l ≡ false)
      → (prev x ≢ 0 → member (prev x) l ≡ false)
      → IsQueue next' prev' 0 p l
  IsQueue-apart p l h out out_next out_prev =
      IsQueue-same next prev next' prev' 0 p l
        (λ q m.
          let nz : q ≢ 0 = member_nz next prev 0 p q l h m in
          (
            u.next_else q (ground arith) (ground arith),
            u.prev_else q (ground arith) (ground arith),
          ))
        h

  without_first :
      (b : ℕ) (l : List ℕ)
      → IsQueue next prev x (next x) l
      → Distinct l
      → prev x ≡ b
      → member b l ≡ false
      → member x l ≡ false
      → IsQueue next' prev' b (next x) l
  without_first b l rest d back out out_x =
      IsQueue-behind next prev next' prev' x b (next x) l d
        (λ q m. u.next_else q (differ q x l m out_x) (λ e. differ q b l m out (e ∙ back)))
        (λ q m ne. u.prev_else q (differ q x l m out_x) ne)
        (λ nz.
          u.prev_behind nz (differ (next x) x l (first_member next prev x (next x) l rest nz) out_x)
          ∙ back)
        rest

  next_of :
      (a : ℕ) (l : List ℕ)
      → IsQueue next prev a (next a) l
      → member a l ≡ false
      → a ≢ 0
      → a ≢ x
      → member x l ≡ true
      → next' a ≡ (if next a == x then next x else next a)
  next_of a l rest out nz far m = elim (ℕ_discrete (next a) x) [
    | yes here ↦
        let back : prev x ≡ a =
          first_prev next prev a (next a) x l rest here
            (member_nz next prev a (next a) x l rest m) in
        let test : (next a == x) ≡ true = ground arith in
        rw test (
          subst (λ k. next' k ≡ next x) back
            (u.next_before (λ z. nz (sym back ∙ z)) (λ z. far (sym back ∙ z))))
    | no ne ↦
        let test : (next a == x) ≡ false = ground arith in
        rw test (
          u.next_else a far
            (λ e. differ (prev x) a l (prev_member next prev a (next a) x l rest m ne) out (sym e)))
  ]

  -- The queue with `x` in it loses `x`.
  pub IsQueue-without :
      (b p : ℕ) (l : List ℕ)
      → IsQueue next prev b p l
      → Distinct l
      → member b l ≡ false
      → b ≢ x
      → member x l ≡ true
      → IsQueue next' prev' b (if p == x then next x else p) (without x l)
  unfolding IsQueue Distinct member without
  IsQueue-without b p [] h d out ne m = ground arith
  IsQueue-without b p (a ∷ l) (e, nz, back, rest) d out ne m = elim (ℕ_discrete a x) [
    | yes here ↦
        let first : (p == x) ≡ true = ground arith in
        let gone : without x (a ∷ l) ≡ l = ground arith in
        rw (first, gone)
          (without_first b l (subst (λ k. IsQueue next prev k (next k) l) here rest) d.1
            (ap prev (sym here) ∙ back) (ground arith) (subst (λ k. member k l ≡ false) here d.0))
    | no far ↦
        let first : (p == x) ≡ false = ground arith in
        let kept : without x (a ∷ l) ≡ a ∷ without x l = ground arith in
        let m' : member x l ≡ true = ground arith in
        let back' : prev' a ≡ prev a = u.prev_else a far (λ e'.
          differ a a l
            (subst (λ k. member k l ≡ true) (sym e')
              (next_member next prev a (next a) x l rest m' (λ z. nz (e' ∙ z))))
            d.0 refl) in
        let step : next' a ≡ (if next a == x then next x else next a) =
          next_of a l rest d.0 nz far m' in
        rw (first, kept)
          (e, nz, back' ∙ back, rw step (IsQueue-without a (next a) l rest d.1 d.0 far m'))
  ]
