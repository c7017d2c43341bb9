-- ===== src/Buffer/Insert.antt =====
-- fs/buffer.c: putting a buffer into the hash queue of its block.
use native.Mathlib.Decide.{ℕ_discrete}
use mathlib.Core.Path.{subst}
use linux.Base.{
  ℕ, ◌≡◌, ◌≢◌, ◌≤◌, refl, sym, ap, ◌∙◌, ◌⊎◌, inl, inr, true, false, not, ◌&&◌, List, ◌∷◌, ◌==◌,
  if◌then◌else◌, arith, Bool-cases,
}
use linux.Buffer.{Cache, slot, insert_into_hash_queue}
use linux.Buffer.Queue.{
  member, Distinct, IsQueue, IsQueue-same, IsQueue-behind, first_member, member_nz, differ,
  member_head,
}
use linux.Buffer.Hash.{nexts, prevs, slot_same, Refines}
use linux.Buffer.Links.{
  insert-next_self, insert-next, insert-prev_self, insert-prev_first, insert-prev, insert-hash,
  insert-key, insert_free,
}

-- The queues with `p` at the front of the one of its block, if it has a device.
unfoldable pub with_front : ℕ → Cache → (ℕ → List ℕ) → ℕ → List ℕ
with_front p c qs h = if (h == slot (c.bufs p)) && not ((c.bufs p).dev == 0) then p ∷ qs h else qs h

module _ (nr p : ℕ) (c : Cache) (qs : ℕ → List ℕ) (r : Refines nr p c qs) (nz : p ≢ 0) where
  first_ne : (h : ℕ) → c.hash_table h ≢ p
  first_ne h e =
      let m =
        first_member (nexts c) (prevs c) 0 (c.hash_table h) (qs h) (r.queue h)
          (λ z. nz (sym e ∙ z)) in
      differ (c.hash_table h) p (qs h) m (r.loose h) e

  module _ (dev : (c.bufs p).dev ≢ 0) where
    -- A head of another queue is not the first one of this queue.
    not_first :
        (h q : ℕ)
        → member q (qs h) ≡ true
        → h ≢ slot (c.bufs p)
        → q ≢ c.hash_table (slot (c.bufs p))
    not_first h q m ne e =
        let k = slot (c.bufs p) in
        let q_nz = member_nz (nexts c) (prevs c) 0 (c.hash_table h) q (qs h) (r.queue h) m in
        let f =
          first_member (nexts c) (prevs c) 0 (c.hash_table k) (qs k) (r.queue k)
            (λ z. q_nz (e ∙ z)) in
        ne (
          sym (r.placed h q m).0 ∙ (r.placed k q (subst (λ j. member j (qs k) ≡ true) (sym e) f)).0)

    inserted_front :
        let d = insert_into_hash_queue p c in
        IsQueue (nexts d) (prevs d) 0 p (p ∷ qs (slot (c.bufs p)))
    unfolding IsQueue
    inserted_front =
        let k = slot (c.bufs p) in
        let ne = first_ne k in
        (
          refl,
          nz,
          insert-prev_self p c dev ne,
          rw (insert-next_self p c dev ne) (
              IsQueue-behind (nexts c) (prevs c) _ _ 0 p (c.hash_table k) (qs k) (r.distinct k)
                (λ q m. insert-next p c dev ne q (differ q p (qs k) m (r.loose k)))
                (λ q m other. insert-prev p c dev ne q (differ q p (qs k) m (r.loose k)) other)
                (λ f. insert-prev_first p c dev ne) (r.queue k)),
        )

    inserted_other :
        (h : ℕ)
        → h ≢ slot (c.bufs p)
        → IsQueue
            (nexts (insert_into_hash_queue p c))
            (prevs (insert_into_hash_queue p c))
            0
            (c.hash_table h)
            (qs h)
    inserted_other h ne =
        let f = first_ne (slot (c.bufs p)) in
        IsQueue-same (nexts c) (prevs c) _ _ 0 (c.hash_table h) (qs h)
          (λ q m.
            let q_ne = differ q p (qs h) m (r.loose h) in
            (insert-next p c dev f q q_ne, insert-prev p c dev f q q_ne (not_first h q m ne)))
          (r.queue h)

    front_member : (h q : ℕ) → member q (p ∷ qs h) ≡ true → (q ≡ p) ⊎ (member q (qs h) ≡ true)
    unfolding member
    front_member h q m = elim (ℕ_discrete p q) [ yes e ↦ inl (sym e) | no ne ↦ inr (ground arith) ]

    front_here : with_front p c qs (slot (c.bufs p)) ≡ p ∷ qs (slot (c.bufs p))
    unfolding with_front
    front_here = ground arith

    front_other : (h : ℕ) → h ≢ slot (c.bufs p) → with_front p c qs h ≡ qs h
    unfolding with_front
    front_other h ne = ground arith

    front_cases :
        (h q : ℕ)
        → member q (with_front p c qs h) ≡ true
        → ((q ≡ p) × (h ≡ slot (c.bufs p))) ⊎ (member q (qs h) ≡ true)
    front_cases h q m = elim (ℕ_discrete h (slot (c.bufs p))) [
      | yes e ↦
          let m' = subst (λ l. member q l ≡ true) (ap (with_front p c qs) e ∙ front_here) m in
          elim (front_member (slot (c.bufs p)) q m') [
            | inl same ↦ inl (same, e)
            | inr later ↦ inr (subst (λ k. member q (qs k) ≡ true) (sym e) later)
          ]
      | no ne ↦ inr (subst (λ l. member q l ≡ true) (front_other h ne) m)
    ]

    front_keeps : (h q : ℕ) → member q (qs h) ≡ true → member q (with_front p c qs h) ≡ true
    unfolding with_front member
    front_keeps h q m = ground arith

    front_self : member p (with_front p c qs (slot (c.bufs p))) ≡ true
    front_self =
        subst (λ l. member p l ≡ true) (sym front_here) (member_head p (qs (slot (c.bufs p))))

    inserted-IsQueue :
        (h : ℕ)
        → let d = insert_into_hash_queue p c in
          IsQueue (nexts d) (prevs d) 0 (d.hash_table h) (with_front p c qs h)
    inserted-IsQueue h =
        let k = slot (c.bufs p) in
        let at = insert-hash p c dev (first_ne k) in
        elim (ℕ_discrete h k) [
          | yes e ↦
              let here : (k == k) ≡ true = ground arith in
              rw (e, at k, here, front_here) inserted_front
          | no ne ↦
              let there : (h == k) ≡ false = ground arith in
              rw (at h, there, front_other h ne) (inserted_other h ne)
        ]

    inserted-Distinct : (h : ℕ) → Distinct (with_front p c qs h)
    unfolding with_front Distinct
    inserted-Distinct h = elim (Bool-cases ((h == slot (c.bufs p)) && not ((c.bufs p).dev == 0))) [
      | inl e ↦ rw e (r.loose h, r.distinct h)
      | inr e ↦ rw e (r.distinct h)
    ]

    inserted_idle :
        (q : ℕ)
        → q ≢ 0
        → q ≤ nr
        → (c.bufs q).dev ≡ 0
        → let d = insert_into_hash_queue p c in (nexts d q ≡ 0) × (prevs d q ≡ 0)
    inserted_idle q q_nz le z =
        let k = slot (c.bufs p) in
        let ne = first_ne k in
        let other : q ≢ p = λ e. dev (subst (λ j. (c.bufs j).dev ≡ 0) e z) in
        let (a, b) = r.idle q q_nz le other z in
        let behind : q ≢ c.hash_table k = λ e.
          let m =
            first_member (nexts c) (prevs c) 0 (c.hash_table k) (qs k) (r.queue k)
              (λ w. q_nz (e ∙ w)) in
          (r.placed k q (subst (λ j. member j (qs k) ≡ true) (sym e) m)).1 z in
        (insert-next p c dev ne q other ∙ a, insert-prev p c dev ne q other behind ∙ b)

    insert-Refines_dev : Refines nr 0 (insert_into_hash_queue p c) (with_front p c qs)
    insert-Refines_dev =
        let d : Cache = insert_into_hash_queue p c in
        let same = λ (q : ℕ). slot_same c d q (insert-key p q c) in
        record {
          queue = inserted-IsQueue;
          distinct = inserted-Distinct;
          placed = λ h q m. elim (front_cases h q m) [
            | inl (e, here) ↦ (
              same q ∙ ap (λ j. slot (c.bufs j)) e ∙ sym here,
              λ z. dev (subst (λ j. (c.bufs j).dev ≡ 0) e (sym (insert-key p q c).0 ∙ z)),
            )
            | inr m' ↦ (
              same q ∙ (r.placed h q m').0,
              λ z. (r.placed h q m').1 (sym (insert-key p q c).0 ∙ z),
            )
          ];
          filed = λ q q_nz le ne q_dev. rw (same q) (elim (ℕ_discrete q p) [
            | yes e ↦ rw e front_self
            | no other ↦
                front_keeps (slot (c.bufs q)) q
                  (r.filed q q_nz le other (λ z. q_dev ((insert-key p q c).0 ∙ z)))
          ]);
          idle = λ q q_nz le ne z. inserted_idle q q_nz le (sym (insert-key p q c).0 ∙ z);
          loose = λ h. elim (Bool-cases (member 0 (with_front p c qs h))) [
            | inl m ↦
                absurd
                  (member_nz (nexts d) (prevs d) 0 (d.hash_table h) 0 _ (inserted-IsQueue h) m refl)
            | inr out ↦ out
          ];
        }

  -- A buffer without a device stays out of the queues.
  module _ (z : (c.bufs p).dev ≡ 0) where
    front_none : (h : ℕ) → with_front p c qs h ≡ qs h
    unfolding with_front
    front_none h = ground arith

    free_links :
        (q : ℕ)
        → q ≢ p
        → let d = insert_into_hash_queue p c in (nexts d q ≡ nexts c q) × (prevs d q ≡ prevs c q)
    free_links q ne =
        let (heads, links) = insert_free p c z in
        let test : (q == p) ≡ false = ground arith in
        ((links q).0 ∙ (rw test refl), (links q).1 ∙ (rw test refl))

    insert-Refines_free : Refines nr 0 (insert_into_hash_queue p c) (with_front p c qs)
    insert-Refines_free =
        let d : Cache = insert_into_hash_queue p c in
        let (heads, links) = insert_free p c z in
        let same = λ (q : ℕ). slot_same c d q (insert-key p q c) in
        record {
          queue = λ h.
              rw (front_none h, heads h)
                (IsQueue-same (nexts c) (prevs c) (nexts d) (prevs d) 0 (c.hash_table h) (qs h)
                  (λ q m. free_links q (differ q p (qs h) m (r.loose h))) (r.queue h));
          distinct = λ h. rw (front_none h) (r.distinct h);
          placed = λ h q m.
              let (e, dev) = r.placed h q (rw (front_none h) at m) in
              (same q ∙ e, λ w. dev (sym (insert-key p q c).0 ∙ w));
          filed = λ q q_nz le ne dev.
              let dev' : (c.bufs q).dev ≢ 0 = λ w. dev ((insert-key p q c).0 ∙ w) in
              rw (same q, front_none (slot (c.bufs q)))
                (r.filed q q_nz le (λ e. dev' (subst (λ j. (c.bufs j).dev ≡ 0) (sym e) z)) dev');
          idle = λ q q_nz le ne w. elim (ℕ_discrete q p) [
            | yes e ↦
                let test : (q == p) ≡ true = ground arith in
                ((links q).0 ∙ (rw test refl), (links q).1 ∙ (rw test refl))
            | no other ↦
                let (a, b) = r.idle q q_nz le other (sym (insert-key p q c).0 ∙ w) in
                ((free_links q other).0 ∙ a, (free_links q other).1 ∙ b)
          ];
          loose = λ h. elim (Bool-cases (member 0 (qs h))) [
            | inl m ↦
                absurd
                  (member_nz (nexts c) (prevs c) 0 (c.hash_table h) 0 (qs h) (r.queue h) m refl)
            | inr out ↦ rw (front_none h) out
          ];
        }

  pub insert-Refines : Refines nr 0 (insert_into_hash_queue p c) (with_front p c qs)
  insert-Refines = elim (ℕ_discrete (c.bufs p).dev 0) [
    | yes z ↦ insert-Refines_free z
    | no dev ↦ insert-Refines_dev dev
  ]
