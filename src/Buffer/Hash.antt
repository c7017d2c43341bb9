-- ===== src/Buffer/Hash.antt =====
-- fs/buffer.c: the hash queues stand for lists, and taking a buffer out and putting it in change
-- one list each.
use native.Mathlib.Decide.{ℕ_discrete}
use mathlib.Core.Path.{subst}
use linux.Base.{
  ℕ, ◌≡◌, ◌≢◌, ◌≤◌, refl, sym, ◌∙◌, inl, inr, true, false, List, ◌==◌, if◌then◌else◌, arith,
  Bool-cases,
}
use linux.Buffer.{Cache, slot, unlink_next, unlink_prev, unlink_head, remove_from_hash_queue}
use linux.Buffer.Queue.{
  member, without, Distinct, IsQueue, Unlinked, IsQueue-same, next_not_self, prev_not_self,
  next_member, prev_member, first_member, first_prev, member-without, member-without_ne,
  member-without_self, Distinct-without, differ, without_none,
}
use linux.Buffer.Unlink.{IsQueue-apart, IsQueue-without}

abbrev pub nexts : Cache → ℕ → ℕ
nexts c q = (c.bufs q).next

abbrev pub prevs : Cache → ℕ → ℕ
prevs c q = (c.bufs q).prev

-- The head `q` stands for the same block.
abbrev pub SameKey : Cache → Cache → ℕ → Type 0
SameKey c d q = ((d.bufs q).dev ≡ (c.bufs q).dev) × ((d.bufs q).blocknr ≡ (c.bufs q).blocknr)

module _ (p : ℕ) (c : Cache) (nn : nexts c p ≢ p) (pn : prevs c p ≢ p) where
  remove-Unlinked :
      Unlinked
        (nexts c)
        (prevs c)
        (nexts (remove_from_hash_queue p c))
        (prevs (remove_from_hash_queue p c))
        p
  unfolding remove_from_hash_queue unlink_next unlink_prev unlink_head
  remove-Unlinked = record {
    next_else = λ q ne other. (ground arith);
    next_before = λ nz ne. (ground arith);
    prev_else = λ q ne other. (ground arith);
    prev_behind = λ nz ne. (ground arith);
  }

  remove-key : (q : ℕ) → SameKey c (remove_from_hash_queue p c) q
  unfolding remove_from_hash_queue unlink_next unlink_prev unlink_head
  remove-key q = (ground arith, ground arith)

  remove-hash :
      (h : ℕ)
      → (remove_from_hash_queue p c).hash_table h ≡ (
          if h == slot (c.bufs p)
          then (if c.hash_table h == p then nexts c p else c.hash_table h)
          else c.hash_table h)
  unfolding remove_from_hash_queue unlink_next unlink_prev unlink_head
  remove-hash h = ground arith

-- The hash queues of `c` are the lists `queues`: each head with a device is in the queue of its
-- block, and a head without one is linked to nobody. The head `x` is left out, and is in no queue.
pub record Refines (nr x : ℕ) (c : Cache) (queues : ℕ → List ℕ) : Type 0 where
  pub queue : (h : ℕ) → IsQueue (nexts c) (prevs c) 0 (c.hash_table h) (queues h)
  pub distinct : (h : ℕ) → Distinct (queues h)
  pub placed : (h q : ℕ) → member q (queues h) ≡ true → (slot (c.bufs q) ≡ h) × ((c.bufs q).dev ≢ 0)
  pub filed :
      (q : ℕ)
      → q ≢ 0
      → q ≤ nr
      → q ≢ x
      → (c.bufs q).dev ≢ 0
      → member q (queues (slot (c.bufs q))) ≡ true
  pub idle :
      (q : ℕ) → q ≢ 0 → q ≤ nr → q ≢ x → (c.bufs q).dev ≡ 0 → (nexts c q ≡ 0) × (prevs c q ≡ 0)
  pub loose : (h : ℕ) → member x (queues h) ≡ false

pub slot_same : (c d : Cache) (q : ℕ) → SameKey c d q → slot (d.bufs q) ≡ slot (c.bufs q)
slot_same c d q (e, f) = rw (e, f) refl

module _ (nr : ℕ) (c : Cache) (qs : ℕ → List ℕ) (r : Refines nr 0 c qs) (p : ℕ) (nz : p ≢ 0)
    (le : p ≤ nr) where
  next_in : nexts c p ≢ 0 → member (nexts c p) (qs (slot (c.bufs p))) ≡ true
  next_in ne = elim (ℕ_discrete ((c.bufs p).dev) 0) [
    | yes z ↦ absurd (ne ((r.idle p nz le nz z).0))
    | no d ↦
        next_member (nexts c) (prevs c) 0 (c.hash_table (slot (c.bufs p))) p _ (r.queue _)
          (r.filed p nz le nz d) ne
  ]

  prev_in : prevs c p ≢ 0 → member (prevs c p) (qs (slot (c.bufs p))) ≡ true
  prev_in ne = elim (ℕ_discrete ((c.bufs p).dev) 0) [
    | yes z ↦ absurd (ne ((r.idle p nz le nz z).1))
    | no d ↦
        let h = slot (c.bufs p) in
        prev_member (nexts c) (prevs c) 0 (c.hash_table h) p _ (r.queue h) (r.filed p nz le nz d)
          λ e. ne (first_prev (nexts c) (prevs c) 0 (c.hash_table h) p _ (r.queue h) e nz)
  ]

  nn : nexts c p ≢ p
  nn e = elim (ℕ_discrete ((c.bufs p).dev) 0) [
    | yes z ↦ nz (sym e ∙ (r.idle p nz le nz z).0)
    | no d ↦
        next_not_self (nexts c) (prevs c) 0 _ p _ (r.queue (slot (c.bufs p))) (r.distinct _)
          (r.filed p nz le nz d) e
  ]

  pn : prevs c p ≢ p
  pn e = elim (ℕ_discrete ((c.bufs p).dev) 0) [
    | yes z ↦ nz (sym e ∙ (r.idle p nz le nz z).1)
    | no d ↦
        prev_not_self (nexts c) (prevs c) 0 _ p _ (r.queue (slot (c.bufs p))) (r.distinct _)
          (λ z. nz (sym z)) (r.filed p nz le nz d) e
  ]

  -- A neighbour of `p` is in no queue in which `p` is not.
  elsewhere :
      (h q : ℕ)
      → member p (qs h) ≡ false
      → (q ≢ 0 → member q (qs (slot (c.bufs p))) ≡ true)
      → (c.bufs p).dev ≢ 0
      → q ≢ 0
      → member q (qs h) ≡ false
  elsewhere h q out near d ne = elim (Bool-cases (member q (qs h))) [
    | inl there ↦
        let e : slot (c.bufs p) ≡ h = sym (r.placed _ q (near ne)).0 ∙ (r.placed h q there).0 in
        let m : member p (qs h) ≡ true =
          subst (λ k. member p (qs k) ≡ true) e (r.filed p nz le nz d) in
        ground arith
    | inr not_there ↦ not_there
  ]

  removed-IsQueue :
      (h : ℕ)
      → IsQueue
          (nexts (remove_from_hash_queue p c))
          (prevs (remove_from_hash_queue p c))
          0
          ((remove_from_hash_queue p c).hash_table h)
          (without p (qs h))
  removed-IsQueue h = elim (Bool-cases (member p (qs h))) [
    | inl there ↦
        let e : (h == slot (c.bufs p)) ≡ true = (rw ((r.placed h p there).0) (ground arith)) in
        rw (remove-hash p c nn pn h, e)
          (IsQueue-without (nexts c) (prevs c) _ _ p (remove-Unlinked p c nn pn) 0 (c.hash_table h)
            (qs h) (r.queue h) (r.distinct h) (r.loose h) (λ z. nz (sym z)) there)
    | inr not_there ↦
        let other : (c.hash_table h == p) ≡ false = not_first h not_there in
        let same : (remove_from_hash_queue p c).hash_table h ≡ c.hash_table h =
          rw (remove-hash p c nn pn h, other) (ground arith) in
        rw (same, without_none p (qs h) not_there)
          (IsQueue-apart (nexts c) (prevs c) _ _ p (remove-Unlinked p c nn pn) (c.hash_table h)
            (qs h) (r.queue h) not_there
            (λ ne. elsewhere h (nexts c p) not_there next_in (λ z. ne (r.idle p nz le nz z).0) ne)
            λ ne. elsewhere h (prevs c p) not_there prev_in (λ z. ne (r.idle p nz le nz z).1) ne)
  ]
    where
      not_first : (h : ℕ) → member p (qs h) ≡ false → (c.hash_table h == p) ≡ false
      not_first h out = elim (ℕ_discrete (c.hash_table h) p) [
        | yes e ↦
            let m : member p (qs h) ≡ true =
              subst (λ k. member k (qs h) ≡ true) e
                (first_member (nexts c) (prevs c) 0 (c.hash_table h) (qs h) (r.queue h)
                  (λ z. nz (sym e ∙ z))) in
            ground arith
        | no ne ↦ ground arith
      ]

  not_near :
      (n q : ℕ)
      → (n ≢ 0 → member n (qs (slot (c.bufs p))) ≡ true)
      → q ≢ 0
      → (c.bufs q).dev ≡ 0
      → q ≢ n
  not_near n q near q_nz z e =
      let h = slot (c.bufs p) in
      let m = subst (λ k. member k (qs h) ≡ true) (sym e) (near (λ w. q_nz (e ∙ w))) in
      (r.placed h q m).1 z

  pub remove-Refines : Refines nr p (remove_from_hash_queue p c) (λ h. without p (qs h))
  remove-Refines = record {
    queue = removed-IsQueue;
    distinct = λ h. Distinct-without p (qs h) (r.distinct h);
    placed = λ h q m.
        let m' = member-without q p (qs h) m in
        let (e, d) = r.placed h q m' in
        (
          slot_same c (remove_from_hash_queue p c) q (remove-key p c nn pn q) ∙ e,
          λ z. d (sym (remove-key p c nn pn q).0 ∙ z),
        );
    filed = λ q q_nz q_le ne d.
        rw
          (
            slot_same c (remove_from_hash_queue p c) q (remove-key p c nn pn q),
            member-without_ne q p _ ne,
          )
          (r.filed q q_nz q_le q_nz (λ z. d ((remove-key p c nn pn q).0 ∙ z)));
    idle = λ q q_nz q_le ne z.
        let z' = sym (remove-key p c nn pn q).0 ∙ z in
        let u = remove-Unlinked p c nn pn in
        let (a, b) = r.idle q q_nz q_le q_nz z' in
        (
          u.next_else q ne (not_near (prevs c p) q prev_in q_nz z') ∙ a,
          u.prev_else q ne (not_near (nexts c p) q next_in q_nz z') ∙ b,
        );
    loose = λ h. member-without_self p (qs h) (r.distinct h);
  }

-- A change of other fields, and of the block that the head left out stands for.
pub Refines-same :
    (nr x : ℕ) (c d : Cache) (qs : ℕ → List ℕ)
    → Refines nr x c qs
    → ((h : ℕ) → d.hash_table h ≡ c.hash_table h)
    → ((q : ℕ) → (nexts d q ≡ nexts c q) × (prevs d q ≡ prevs c q))
    → ((q : ℕ) → q ≢ x → SameKey c d q)
    → Refines nr x d qs
Refines-same nr x c d qs r heads links keys =
    let apart : (h q : ℕ) → member q (qs h) ≡ true → q ≢ x =
      λ h q m. differ q x (qs h) m (r.loose h) in
    record {
      queue = λ h. rw (heads h) (
          IsQueue-same (nexts c) (prevs c) (nexts d) (prevs d) 0 (c.hash_table h) (qs h)
            (λ q m. links q) (r.queue h));
      distinct = r.distinct;
      placed = λ h q m.
          let k = keys q (apart h q m) in
          let (e, dev) = r.placed h q m in (slot_same c d q k ∙ e, λ z. dev (sym k.0 ∙ z));
      filed = λ q nz le ne dev.
          let k = keys q ne in rw (slot_same c d q k) (r.filed q nz le ne (λ z. dev (k.0 ∙ z)));
      idle = λ q nz le ne z.
          let (a, b) = r.idle q nz le ne (sym (keys q ne).0 ∙ z) in
          ((links q).0 ∙ a, (links q).1 ∙ b);
      loose = r.loose;
    }
