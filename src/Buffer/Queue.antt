-- ===== src/Buffer/Queue.antt =====
-- fs/buffer.c: a hash queue as a doubly linked list: its members and their neighbours.
use native.Mathlib.Decide.{ℕ_discrete}
use mathlib.Core.Path.{subst}
use linux.Base.{
  ℕ, ◌≡◌, ◌≢◌, refl, sym, ap, ◌∙◌, Bool, true, false, List, [], ◌∷◌, ◌==◌, if◌then◌else◌, arith,
}

unfoldable pub member : ℕ → List ℕ → Bool
member q [] = false
member q (a ∷ l) = if a == q then true else member q l

unfoldable pub without : ℕ → List ℕ → List ℕ
without q [] = []
without q (a ∷ l) = if a == q then l else a ∷ without q l

unfoldable pub Distinct : List ℕ → Type 0
Distinct [] = Unit
Distinct (a ∷ l) = (member a l ≡ false) × Distinct l

pub member_head : (a : ℕ) (l : List ℕ) → member a (a ∷ l) ≡ true
unfolding member
member_head a l = ground arith

pub member_tail : (q a : ℕ) (l : List ℕ) → member q l ≡ true → member q (a ∷ l) ≡ true
unfolding member
member_tail q a l h = ground arith

-- From `p`, which is linked back to `before`, the links lead through `l` and end.
unfoldable pub IsQueue : (ℕ → ℕ) → (ℕ → ℕ) → ℕ → ℕ → List ℕ → Type 0
IsQueue next prev before p [] = p ≡ 0
IsQueue next prev before p (a ∷ l) =
    (p ≡ a) × (a ≢ 0) × (prev a ≡ before) × IsQueue next prev a (next a) l

pub member-without : (q x : ℕ) (l : List ℕ) → member q (without x l) ≡ true → member q l ≡ true
unfolding member without
member-without q x [] h = h
member-without q x (a ∷ l) h = ground (arith, member-without q x l)

pub member-without_ne : (q x : ℕ) (l : List ℕ) → q ≢ x → member q (without x l) ≡ member q l
unfolding member without
member-without_ne q x [] h = refl
member-without_ne q x (a ∷ l) h = ground (arith, member-without_ne q x l h)

pub member-without_self : (x : ℕ) (l : List ℕ) → Distinct l → member x (without x l) ≡ false
unfolding member without Distinct
member-without_self x [] d = refl
member-without_self x (a ∷ l) d = ground (arith, member-without_self x l d.1, d.0)

pub without_none : (x : ℕ) (l : List ℕ) → member x l ≡ false → without x l ≡ l
unfolding member without
without_none x [] h = refl
without_none x (a ∷ l) h = ground (arith, without_none x l)

pub Distinct-without : (x : ℕ) (l : List ℕ) → Distinct l → Distinct (without x l)
unfolding without Distinct member
Distinct-without x [] d = tt
Distinct-without x (a ∷ l) d = elim (ℕ_discrete a x) [
  | yes e ↦ (ground arith)
  | no ne ↦
      let keep : without x (a ∷ l) ≡ a ∷ without x l = ground arith in
      rw keep ((rw (member-without_ne a x l ne) d.0), Distinct-without x l d.1)
]

module _ (next prev next' prev' : ℕ → ℕ) where
  -- Links that do not change on the way.
  pub IsQueue-same :
      (b p : ℕ) (l : List ℕ)
      → ((q : ℕ) → member q l ≡ true → (next' q ≡ next q) × (prev' q ≡ prev q))
      → IsQueue next prev b p l
      → IsQueue next' prev' b p l
  unfolding IsQueue member
  IsQueue-same b p [] same h = h
  IsQueue-same b p (a ∷ l) same (e, nz, back, rest) =
      let (n, v) = same a (member_head a l) in
      (e, nz, v ∙ back, rw n (IsQueue-same a (next a) l (λ q m. same q (member_tail q a l m)) rest))

  -- The first one is linked back to another buffer.
  pub IsQueue-behind :
      (b b' p : ℕ) (l : List ℕ)
      → Distinct l
      → ((q : ℕ) → member q l ≡ true → next' q ≡ next q)
      → ((q : ℕ) → member q l ≡ true → q ≢ p → prev' q ≡ prev q)
      → (p ≢ 0 → prev' p ≡ b')
      → IsQueue next prev b p l
      → IsQueue next' prev' b' p l
  unfolding IsQueue member Distinct
  IsQueue-behind b b' p [] d n v at h = h
  IsQueue-behind b b' p (a ∷ l) d n v at (e, nz, back, rest) = (
    e,
    nz,
    (rw e at at) nz,
    rw (n a (member_head a l)) (
        IsQueue-same a (next a) l
          (λ q m. (n q (member_tail q a l m), v q (member_tail q a l m) (ground (arith, d.0))))
          rest),
  )

-- What unlinking `x` does to the links.
pub record Unlinked (next prev next' prev' : ℕ → ℕ) (x : ℕ) : Type 0 where
  pub next_else : (q : ℕ) → q ≢ x → q ≢ prev x → next' q ≡ next q
  pub next_before : prev x ≢ 0 → prev x ≢ x → next' (prev x) ≡ next x
  pub prev_else : (q : ℕ) → q ≢ x → q ≢ next x → prev' q ≡ prev q
  pub prev_behind : next x ≢ 0 → next x ≢ x → prev' (next x) ≡ prev x

module _ (next prev : ℕ → ℕ) where
  pub first_member : (b p : ℕ) (l : List ℕ) → IsQueue next prev b p l → p ≢ 0 → member p l ≡ true
  unfolding IsQueue member
  first_member b p [] h nz = absurd (nz h)
  first_member b p (a ∷ l) h nz = ground (arith, h.0)

  pub member_nz : (b p x : ℕ) (l : List ℕ) → IsQueue next prev b p l → member x l ≡ true → x ≢ 0
  unfolding IsQueue member
  member_nz b p x [] q m = ground arith
  member_nz b p x (a ∷ l) (e, nz, back, rest) m = elim (ℕ_discrete a x) [
    | yes here ↦ ground arith
    | no ne ↦ member_nz a (next a) x l rest (ground arith)
  ]

  pub next_member :
      (b p x : ℕ) (l : List ℕ)
      → IsQueue next prev b p l
      → member x l ≡ true
      → next x ≢ 0
      → member (next x) l ≡ true
  unfolding IsQueue member
  next_member b p x [] q m h = ground arith
  next_member b p x (a ∷ l) (e, nz, back, rest) m h = elim (ℕ_discrete a x) [
    | yes here ↦
        member_tail (next x) a l
          (first_member x (next x) l (subst (λ k. IsQueue next prev k (next k) l) here rest) h)
    | no ne ↦ member_tail (next x) a l (next_member a (next a) x l rest (ground arith) h)
  ]

  pub first_prev : (b p x : ℕ) (l : List ℕ) → IsQueue next prev b p l → p ≡ x → x ≢ 0 → prev x ≡ b
  unfolding IsQueue
  first_prev b p x [] h e nz = absurd (nz (sym e ∙ h))
  first_prev b p x (a ∷ l) (e, nz, back, rest) here h = ap prev (sym here ∙ e) ∙ back

  pub prev_member :
      (b p x : ℕ) (l : List ℕ)
      → IsQueue next prev b p l
      → member x l ≡ true
      → p ≢ x
      → member (prev x) l ≡ true
  unfolding IsQueue member
  prev_member b p x [] q m ne = ground arith
  prev_member b p x (a ∷ l) (e, nz, back, rest) m ne =
      let later : member x l ≡ true = ground arith in
      elim (ℕ_discrete (next a) x) [
        | yes here ↦
            let x_nz : x ≢ 0 = member_nz a (next a) x l rest later in
            subst (λ k. member k (a ∷ l) ≡ true) (sym (first_prev a (next a) x l rest here x_nz))
              (member_head a l)
        | no far ↦ member_tail (prev x) a l (prev_member a (next a) x l rest later far)
      ]

pub differ : (q x : ℕ) (l : List ℕ) → member q l ≡ true → member x l ≡ false → q ≢ x
differ q x l h k = ground arith

-- Nobody is linked to himself.
pub next_not_self :
    (next prev : ℕ → ℕ) (b p x : ℕ) (l : List ℕ)
    → IsQueue next prev b p l
    → Distinct l
    → member x l ≡ true
    → next x ≢ x
unfolding IsQueue Distinct member
next_not_self next prev b p x [] h d m e' = ground arith
next_not_self next prev b p x (a ∷ l) (e, nz, back, rest) d m e' = elim (ℕ_discrete a x) [
  | yes here ↦
      let nz' : next a ≢ 0 = ground arith in
      let again : member (next a) l ≡ true = first_member next prev a (next a) l rest nz' in
      let e'' : next a ≡ a = (rw here e') in differ (next a) a l again d.0 e''
  | no far ↦ next_not_self next prev a (next a) x l rest d.1 (ground arith) e'
]

pub prev_not_self :
    (next prev : ℕ → ℕ) (b p x : ℕ) (l : List ℕ)
    → IsQueue next prev b p l
    → Distinct l
    → b ≢ x
    → member x l ≡ true
    → prev x ≢ x
unfolding IsQueue Distinct member
prev_not_self next prev b p x [] h d ne m e' = ground arith
prev_not_self next prev b p x (a ∷ l) (e, nz, back, rest) d ne m e' = elim (ℕ_discrete a x) [
  | yes here ↦ ne (sym back ∙ ap prev here ∙ e')
  | no far ↦ prev_not_self next prev a (next a) x l rest d.1 far (ground arith) e'
]
