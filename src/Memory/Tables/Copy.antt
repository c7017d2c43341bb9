-- ===== src/Memory/Tables/Copy.antt =====
-- mm/memory.c: the inner loop of copy_page_tables, on a table with no page that is swapped out.
use linux.Base.{
  ℕ, zero, suc, ◌+◌, ◌-◌, ◌*◌, ◌/◌, ◌%◌, ◌<◌, ◌≡◌, ◌≢◌, ◌⊎◌, inl, inr, refl, sym, ap, ap₂, ◌∙◌,
  Bool, true, false, arith, ltb, ◌==◌, if◌then◌else◌, Bool-cases,
}
use linux.Memory.{Vm, low_mem, is_present}
use linux.Memory.Tables.{Allocator, read_only, share_entry, copy_entry, copy_entries}
use linux.Memory.Tables.Refs.{points, refs, AllPresent, Apart, Outside, refs-same, AllPresent-tail}

-- The child's entry, and the parent's.
abbrev pub child_entry : ℕ → ℕ → ℕ
child_entry entry old = if entry == 0 then old else read_only entry

abbrev pub parent_entry : ℕ → ℕ
parent_entry entry = if ltb low_mem (read_only entry) then read_only entry else entry

-- The tables after the copy of `n` entries, the counts, and what has not changed.
pub record Copied (n from to : ℕ) (vm vm' : Vm) : Type 0 where
  pub child :
      (i : ℕ)
      → i < n
      → vm'.mem (to + 4 * i) ≡ child_entry (vm.mem (from + 4 * i)) (vm.mem (to + 4 * i))
  pub parent : (i : ℕ) → i < n → vm'.mem (from + 4 * i) ≡ parent_entry (vm.mem (from + 4 * i))
  pub others : (a : ℕ) → Outside n from a → Outside n to a → vm'.mem a ≡ vm.mem a
  pub counts : (j : ℕ) → vm'.mem_map j ≡ vm.mem_map j + refs vm.mem n from j
  pub same_memory : vm'.high_memory ≡ vm.high_memory

-- One entry.
record Step (from to : ℕ) (vm vm' : Vm) : Type 0 where
  child : vm'.mem to ≡ child_entry (vm.mem from) (vm.mem to)
  parent : vm'.mem from ≡ parent_entry (vm.mem from)
  others : (a : ℕ) → a ≢ from → a ≢ to → vm'.mem a ≡ vm.mem a
  counts : (j : ℕ) → vm'.mem_map j ≡ vm.mem_map j + points (vm.mem from) j
  same_memory : vm'.high_memory ≡ vm.high_memory

shared_points :
    (e j : ℕ)
    → is_present e ≡ true
    → ltb low_mem (read_only e) ≡ true
    → points e j ≡ (if j == (read_only e - low_mem) / 4096 then 1 else 0)
shared_points e j p l = ground arith

low_points : (e j : ℕ) → is_present e ≡ true → ltb low_mem (read_only e) ≡ false → points e j ≡ 0
low_points e j p l = ground arith

share_entry-Step :
    (from to : ℕ) (vm : Vm)
    → from ≢ to
    → (vm.mem from == 0) ≡ false
    → is_present (vm.mem from) ≡ true
    → ((j : ℕ) → vm.mem_map j + points (vm.mem from) j < 256)
    → Step from to vm (share_entry from to vm)
unfolding share_entry
share_entry-Step from to vm ne z p few = elim (Bool-cases (ltb low_mem (read_only (vm.mem from)))) [
  | inl l ↦ rw l (record {
    child = ground arith;
    parent = ground arith;
    others = λ a f t. ground arith;
    counts = λ j.
        one_more (vm.mem_map j) (vm.mem_map _) _ (j == (read_only (vm.mem from) - low_mem) / 4096)
          (λ e. ap vm.mem_map (==_eq e)) (few j) (shared_points (vm.mem from) j p l);
    same_memory = refl;
  })
  | inr l ↦ rw l (record {
    child = ground arith;
    parent = ground arith;
    others = λ a f t. ground arith;
    counts = λ j. omega (arith, low_points (vm.mem from) j p l);
    same_memory = refl;
  })
]
  where
    ==_eq : {a b : ℕ} → (a == b) ≡ true → a ≡ b
    ==_eq h = ground arith

    one_more :
        (x y k : ℕ) (b : Bool)
        → (b ≡ true → x ≡ y)
        → x + k < 256
        → k ≡ (if b then 1 else 0)
        → (if b then (y + 1) % 256 else x) ≡ x + k
    one_more x y k true e f h = omega (arith, e refl)
    one_more x y k false e f h = omega arith

-- An entry that is 0 is passed over.
zero_Step : (from to : ℕ) (vm : Vm) → vm.mem from ≡ 0 → Step from to vm vm
zero_Step from to vm z = record {
  child = rw z refl;
  parent = rw z refl;
  others = λ a f t. refl;
  counts = λ j. rw z (omega arith);
  same_memory = refl;
}

copy_entry-Step :
    (gfp : Allocator) (from to : ℕ) (vm : Vm)
    → from ≢ to
    → (vm.mem from ≡ 0) ⊎ (is_present (vm.mem from) ≡ true)
    → ((j : ℕ) → vm.mem_map j + points (vm.mem from) j < 256)
    → ((copy_entry gfp from to vm).0 ≡ true) × Step from to vm (copy_entry gfp from to vm).1
unfolding copy_entry
copy_entry-Step gfp from to vm ne (inl z) few =
    rw (let e : (vm.mem from == 0) ≡ true = ground arith in e) (refl, zero_Step from to vm z)
copy_entry-Step gfp from to vm ne (inr p) few =
    let n : (vm.mem from == 0) ≡ false = nonzero (vm.mem from) p in
    rw (n, p) (refl, share_entry-Step from to vm ne n p few)
  where
    nonzero : (e : ℕ) → is_present e ≡ true → (e == 0) ≡ false
    nonzero e p = ground arith

-- The first entry, and the rest.
Copied-cons :
    (n from to : ℕ) (a b c : Vm)
    → Apart (suc n) from to
    → Step from to a b
    → ((j : ℕ) → refs b.mem n (from + 4) j ≡ refs a.mem n (from + 4) j)
    → Copied n (from + 4) (to + 4) b c
    → Copied (suc n) from to a c
unfolding refs
Copied-cons n from to a b c ap' s r h = record {
  child = child;
  parent = parent;
  others = others;
  counts = λ j. omega (arith, h.counts j, s.counts j, r j);
  same_memory = h.same_memory ∙ s.same_memory;
}
  where
    at_zero : (x : ℕ) → x + 4 * 0 ≡ x
    at_zero x = omega arith

    next : (x i : ℕ) → x + 4 * suc i ≡ x + 4 + 4 * i
    next x i = omega arith

    child :
        (i : ℕ)
        → i < suc n
        → c.mem (to + 4 * i) ≡ child_entry (a.mem (from + 4 * i)) (a.mem (to + 4 * i))
    child zero l =
        ap c.mem (at_zero to)
        ∙ (h.others to (elim ap' [ inl u ↦ inl (omega arith) | inr u ↦ inr (omega arith) ])
              (inl (omega arith))
            ∙ (s.child
                ∙ ap₂ (λ p q. child_entry (a.mem p) (a.mem q)) (sym (at_zero from))
                    (sym (at_zero to))))
    child (suc i) l =
        ap c.mem (next to i)
        ∙ (h.child i (omega arith)
            ∙ (ap₂ child_entry (s.others (from + 4 + 4 * i) (omega arith) (omega arith))
                  (s.others (to + 4 + 4 * i) (omega arith) (omega arith))
                ∙ ap₂ (λ p q. child_entry (a.mem p) (a.mem q)) (sym (next from i))
                    (sym (next to i))))

    parent : (i : ℕ) → i < suc n → c.mem (from + 4 * i) ≡ parent_entry (a.mem (from + 4 * i))
    parent zero l =
        ap c.mem (at_zero from)
        ∙ (h.others from (inl (omega arith))
              (elim ap' [ inl u ↦ inr (omega arith) | inr u ↦ inl (omega arith) ])
            ∙ (s.parent ∙ ap (λ p. parent_entry (a.mem p)) (sym (at_zero from))))
    parent (suc i) l =
        ap c.mem (next from i)
        ∙ (h.parent i (omega arith)
            ∙ (ap parent_entry (s.others (from + 4 + 4 * i) (omega arith) (omega arith))
                ∙ ap (λ p. parent_entry (a.mem p)) (sym (next from i))))

    shrink : (p : ℕ) {x : ℕ} → Outside (suc n) p x → Outside n (p + 4) x
    shrink p f = elim f [ inl u ↦ inl (omega arith) | inr u ↦ inr (omega arith) ]

    outside_ne : (p : ℕ) {x : ℕ} → Outside (suc n) p x → x ≢ p
    outside_ne p f = elim f [ inl u ↦ omega arith | inr u ↦ omega arith ]

    others : (x : ℕ) → Outside (suc n) from x → Outside (suc n) to x → c.mem x ≡ a.mem x
    others x f t =
        h.others x (shrink from f) (shrink to t) ∙ s.others x (outside_ne from f) (outside_ne to t)

-- The inner loop of `copy_page_tables`, over a table of `n` entries none of which is swapped out, and
-- another table that does not overlap it, where no count goes above 255: it does not fail. Afterwards
-- the child has each entry of the parent that is not 0, read-only; the parent's entry is read-only too
-- where the page is above low memory; the count of each page has gone up by the number of entries of
-- the parent that lead to it; nothing else in memory has changed.
pub copy_entries-Copied :
    (gfp : Allocator) (n from to : ℕ) (vm : Vm)
    → Apart n from to
    → AllPresent vm.mem n from
    → ((j : ℕ) → vm.mem_map j + refs vm.mem n from j < 256)
    → ((copy_entries gfp n from to vm).0 ≡ true)
      × Copied n from to vm (copy_entries gfp n from to vm).1
unfolding copy_entries refs
copy_entries-Copied gfp zero from to vm o g few = (
  refl,
  record {
    child = λ i l. elim l [ ];
    parent = λ i l. elim l [ ];
    others = λ a f t. refl;
    counts = λ j. omega arith;
    same_memory = refl;
  },
)
copy_entries-Copied gfp (suc n) from to vm o g few =
    let (e, s) =
      copy_entry-Step gfp from to vm (omega arith) (first (g 0 (omega arith)))
        (λ j. omega (arith, few j)) in
    let b = (copy_entry gfp from to vm).1 in
    let same : (i : ℕ) → i < n → b.mem (from + 4 + 4 * i) ≡ vm.mem (from + 4 + 4 * i) =
      λ i l. s.others (from + 4 + 4 * i) (omega arith) (omega arith) in
    let r : (j : ℕ) → refs b.mem n (from + 4) j ≡ refs vm.mem n (from + 4) j = λ j.
      refs-same n (from + 4) (from + 4) j b.mem vm.mem (λ i l. ap (λ x. points x j) (same i l)) in
    let (e', h) =
      copy_entries-Copied gfp n (from + 4) (to + 4) b
        (elim o [ inl u ↦ inl (omega arith) | inr u ↦ inr (omega arith) ])
        (AllPresent-tail vm.mem b.mem n from same g) (λ j. omega (arith, few j, s.counts j, r j)) in
    rw (copy_entries, e)
      (e', Copied-cons n from to vm b (copy_entries gfp n (from + 4) (to + 4) b).1 o s r h)
  where
    first :
        (vm.mem (from + 4 * 0) ≡ 0) ⊎ (is_present (vm.mem (from + 4 * 0)) ≡ true)
        → (vm.mem from ≡ 0) ⊎ (is_present (vm.mem from) ≡ true)
    first (inl z) = inl (ap vm.mem (omega arith) ∙ z)
    first (inr p) = inr (ap (λ a. is_present (vm.mem a)) (omega arith) ∙ p)
