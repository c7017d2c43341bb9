-- ===== src/Memory/Tables/Release.antt =====
-- mm/memory.c: the inner loop of free_page_tables, and what it does after a copy.
use linux.Base.{
  ℕ, zero, suc, ◌+◌, ◌-◌, ◌*◌, ◌/◌, ◌%◌, ◌≤◌, ◌<◌, ◌≡◌, ◌≢◌, ◌⊎◌, inl, inr, refl, sym, ap, ◌∙◌,
  Bool, true, false, arith, ltb, ◌==◌, if◌then◌else◌, Bool-cases,
}
use linux.Memory.{Vm, low_mem, page_of, is_present, free_page}
use linux.Memory.Tables.{Allocator, read_only, free_entry, free_entries, copy_entries}
use linux.Memory.Tables.Refs.{
  points, refs, AllPresent, Apart, Outside, refs-same, AllPresent-tail, points-read_only,
}
use linux.Memory.Tables.Copy.{child_entry, parent_entry, copy_entries-Copied}

-- The pages of the `n` entries lie in the memory.
abbrev pub InMemory : Vm → ℕ → ℕ → Type 0
InMemory vm n ptr = (i : ℕ) → i < n → page_of (vm.mem (ptr + 4 * i)) < vm.high_memory

-- The table is empty, and no page counts its entries any more.
pub record Released (n ptr : ℕ) (vm vm' : Vm) : Type 0 where
  pub entries : (i : ℕ) → i < n → vm'.mem (ptr + 4 * i) ≡ 0
  pub others : (a : ℕ) → Outside n ptr a → vm'.mem a ≡ vm.mem a
  pub counts : (j : ℕ) → vm'.mem_map j + refs vm.mem n ptr j ≡ vm.mem_map j
  pub same_memory : vm'.high_memory ≡ vm.high_memory

record Freed (ptr : ℕ) (vm vm' : Vm) : Type 0 where
  entry : vm'.mem ptr ≡ 0
  others : (a : ℕ) → a ≢ ptr → vm'.mem a ≡ vm.mem a
  counts : (j : ℕ) → vm'.mem_map j + points (vm.mem ptr) j ≡ vm.mem_map j
  same_memory : vm'.high_memory ≡ vm.high_memory

own_points :
    (e : ℕ)
    → is_present e ≡ true
    → ltb (page_of e) low_mem ≡ false
    → points e ((page_of e - low_mem) / 4096) ≡ 1
own_points e p l = ground arith

high_points :
    (e j : ℕ)
    → is_present e ≡ true
    → ltb (page_of e) low_mem ≡ false
    → points e j ≡ (if j == (page_of e - low_mem) / 4096 then 1 else 0)
high_points e j p l = ground arith

low_points : (e j : ℕ) → ltb (page_of e) low_mem ≡ true → points e j ≡ 0
low_points e j l = ground arith

free_entry-Freed :
    (ptr : ℕ) (vm : Vm)
    → (vm.mem ptr ≡ 0) ⊎ (is_present (vm.mem ptr) ≡ true)
    → page_of (vm.mem ptr) < vm.high_memory
    → ((j : ℕ) → points (vm.mem ptr) j ≤ vm.mem_map j)
    → Freed ptr vm (free_entry ptr vm)
unfolding free_entry free_page
free_entry-Freed ptr vm (inl z) m few =
    rw (let e : (vm.mem ptr == 0) ≡ true = ground arith in e) (record {
      entry = z;
      others = λ a f. refl;
      counts = λ j. rw z (omega arith);
      same_memory = refl;
    })
free_entry-Freed ptr vm (inr p) m few =
    let e = vm.mem ptr in
    let n : (vm.mem ptr == 0) ≡ false = nonzero e p in
    let below : ltb (page_of e) vm.high_memory ≡ true = ground arith in
    elim (Bool-cases (ltb (page_of e) low_mem)) [
      | inl l ↦
          rw (n, p, l)
            (record {
              entry = ground arith;
              others = λ a f. ground arith;
              counts = λ j. omega (arith, low_points e j l);
              same_memory = refl;
            })
      | inr l ↦
          let used : (vm.mem_map ((page_of e - low_mem) / 4096) == 0) ≡ false =
            positive (few ((page_of e - low_mem) / 4096)) (own_points e p l) in
          rw (n, p, l, below, used)
            (record {
              entry = ground arith;
              others = λ a f. ground arith;
              counts = λ j.
                  one_less (vm.mem_map j) (vm.mem_map ((page_of e - low_mem) / 4096)) _
                    (j == (page_of e - low_mem) / 4096) (λ q. ap vm.mem_map (==_eq q)) (few j)
                    (high_points e j p l);
              same_memory = refl;
            })
    ]
  where
    nonzero : (e : ℕ) → is_present e ≡ true → (e == 0) ≡ false
    nonzero e p = ground arith

    positive : {x k : ℕ} → k ≤ x → k ≡ 1 → (x == 0) ≡ false
    positive h e = ground arith

    ==_eq : {a b : ℕ} → (a == b) ≡ true → a ≡ b
    ==_eq h = ground arith

    one_less :
        (x y k : ℕ) (b : Bool)
        → (b ≡ true → x ≡ y)
        → k ≤ x
        → k ≡ (if b then 1 else 0)
        → (if b then y - 1 else x) + k ≡ x
    one_less x y k true e f h = omega (arith, e refl)
    one_less x y k false e f h = omega arith

Released-cons :
    (n ptr : ℕ) (a b c : Vm)
    → Freed ptr a b
    → ((j : ℕ) → refs b.mem n (ptr + 4) j ≡ refs a.mem n (ptr + 4) j)
    → Released n (ptr + 4) b c
    → Released (suc n) ptr a c
unfolding refs
Released-cons n ptr a b c s r h = record {
  entries = entries;
  others = λ x o. h.others x (shrink o) ∙ s.others x (outside_ne o);
  counts = λ j. omega (arith, h.counts j, s.counts j, r j);
  same_memory = h.same_memory ∙ s.same_memory;
}
  where
    entries : (i : ℕ) → i < suc n → c.mem (ptr + 4 * i) ≡ 0
    entries zero l = ap c.mem (omega arith) ∙ (h.others ptr (inl (omega arith)) ∙ s.entry)
    entries (suc i) l = ap c.mem (omega arith) ∙ h.entries i (omega arith)

    shrink : {x : ℕ} → Outside (suc n) ptr x → Outside n (ptr + 4) x
    shrink f = elim f [ inl u ↦ inl (omega arith) | inr u ↦ inr (omega arith) ]

    outside_ne : {x : ℕ} → Outside (suc n) ptr x → x ≢ ptr
    outside_ne f = elim f [ inl u ↦ omega arith | inr u ↦ omega arith ]

-- The inner loop of `free_page_tables`, over a table of `n` entries none of which is swapped out, whose
-- pages lie in the memory and are counted at least as often as entries lead to them: it empties the
-- table, the count of each page goes down by the number of entries that lead to it, and nothing else
-- in memory changes.
pub free_entries-Released :
    (n ptr : ℕ) (vm : Vm)
    → AllPresent vm.mem n ptr
    → InMemory vm n ptr
    → ((j : ℕ) → refs vm.mem n ptr j ≤ vm.mem_map j)
    → Released n ptr vm (free_entries n ptr vm)
unfolding free_entries refs
free_entries-Released zero ptr vm g m few = record {
  entries = λ i l. elim l [ ];
  others = λ a f. refl;
  counts = λ j. omega arith;
  same_memory = refl;
}
free_entries-Released (suc n) ptr vm g m few =
    let s =
      free_entry-Freed ptr vm (first (g 0 (omega arith))) (first_in (m 0 (omega arith)))
        (λ j. omega (arith, few j)) in
    let b = free_entry ptr vm in
    let same : (i : ℕ) → i < n → b.mem (ptr + 4 + 4 * i) ≡ vm.mem (ptr + 4 + 4 * i) =
      λ i l. s.others (ptr + 4 + 4 * i) (omega arith) in
    let r : (j : ℕ) → refs b.mem n (ptr + 4) j ≡ refs vm.mem n (ptr + 4) j = λ j.
      refs-same n (ptr + 4) (ptr + 4) j b.mem vm.mem (λ i l. ap (λ x. points x j) (same i l)) in
    Released-cons n ptr vm b (free_entries n (ptr + 4) b) s r (
      free_entries-Released n (ptr + 4) b (AllPresent-tail vm.mem b.mem n ptr same g)
        (λ i l. rest_in i (same i l) s.same_memory (m (suc i) (omega arith)))
        (λ j. omega (arith, few j, s.counts j, r j)))
  where
    first :
        (vm.mem (ptr + 4 * 0) ≡ 0) ⊎ (is_present (vm.mem (ptr + 4 * 0)) ≡ true)
        → (vm.mem ptr ≡ 0) ⊎ (is_present (vm.mem ptr) ≡ true)
    first (inl z) = inl (ap vm.mem (omega arith) ∙ z)
    first (inr p) = inr (ap (λ a. is_present (vm.mem a)) (omega arith) ∙ p)

    first_in :
        page_of (vm.mem (ptr + 4 * 0)) < vm.high_memory → page_of (vm.mem ptr) < vm.high_memory
    first_in h = omega (arith, ap vm.mem (let e : ptr + 4 * 0 ≡ ptr = omega arith in e))

    rest_in :
        (i : ℕ) {x y : ℕ}
        → x ≡ vm.mem (ptr + 4 + 4 * i)
        → y ≡ vm.high_memory
        → page_of (vm.mem (ptr + 4 * suc i)) < vm.high_memory
        → page_of x < y
    rest_in i e f h =
        omega (arith, ap vm.mem (let q : ptr + 4 * suc i ≡ ptr + 4 + 4 * i = omega arith in q))

child_points : (e old j : ℕ) → old ≡ 0 → points (child_entry e old) j ≡ points e j
child_points e old j z = elim (Bool-cases (e == 0)) [
  | inl q ↦ rw q (ap (λ x. points x j) (z ∙ sym (==_eq q)))
  | inr q ↦ rw q (points-read_only e j)
]
  where
    ==_eq : {a b : ℕ} → (a == b) ≡ true → a ≡ b
    ==_eq h = ground arith

child_present :
    (e old : ℕ)
    → old ≡ 0
    → (e ≡ 0) ⊎ (is_present e ≡ true)
    → (child_entry e old ≡ 0) ⊎ (is_present (child_entry e old) ≡ true)
child_present e old z (inl q) = inl (ground arith)
child_present e old z (inr p) = inr (present (Bool-cases (e == 0)))
  where
    parity : read_only e % 2 ≡ e % 2
    parity = omega arith

    present : (((e == 0) ≡ true) ⊎ ((e == 0) ≡ false)) → is_present (child_entry e old) ≡ true
    present (inl q) = absurd (ground arith)
    present (inr q) = rw q (ap (λ k. k == 1) parity ∙ p)

child_page : (e old high : ℕ) → old ≡ 0 → page_of e < high → page_of (child_entry e old) < high
child_page e old high z l = elim (Bool-cases (e == 0)) [
  | inl q ↦ rw q (omega arith)
  | inr q ↦ rw q (omega arith)
]

-- A table that is copied into an empty one by the inner loop of `copy_page_tables`, as in fork, and
-- then freed again by that of `free_page_tables`, as in exit: every page has the count that it had,
-- the child's table is empty, and the parent's entries are the ones the copy left. No page of the
-- parent is swapped out, they lie in the memory, the tables do not overlap, and no count goes above
-- 255.
pub free_entries-copy_entries :
    (gfp : Allocator) (n from to : ℕ) (vm : Vm)
    → Apart n from to
    → AllPresent vm.mem n from
    → InMemory vm n from
    → ((i : ℕ) → i < n → vm.mem (to + 4 * i) ≡ 0)
    → ((j : ℕ) → vm.mem_map j + refs vm.mem n from j < 256)
    → let vm' = free_entries n to (copy_entries gfp n from to vm).1 in
      ((j : ℕ) → vm'.mem_map j ≡ vm.mem_map j)
      × ((i : ℕ) → i < n → vm'.mem (to + 4 * i) ≡ 0)
      × ((i : ℕ) → i < n → vm'.mem (from + 4 * i) ≡ parent_entry (vm.mem (from + 4 * i)))
free_entries-copy_entries gfp n from to vm o g m z few =
    let c = (copy_entries-Copied gfp n from to vm o g few).1 in
    let v = (copy_entries gfp n from to vm).1 in
    let r : (j : ℕ) → refs v.mem n to j ≡ refs vm.mem n from j = λ j.
      refs-same n to from j v.mem vm.mem (λ i l.
        ap (λ x. points x j) (c.child i l)
        ∙ child_points (vm.mem (from + 4 * i)) (vm.mem (to + 4 * i)) j (z i l)) in
    let f =
      free_entries-Released n to v
        (λ i l.
          moved (c.child i l)
            (child_present (vm.mem (from + 4 * i)) (vm.mem (to + 4 * i)) (z i l) (g i l)))
        (λ i l.
          in_memory (c.child i l) c.same_memory (
            child_page (vm.mem (from + 4 * i)) (vm.mem (to + 4 * i)) vm.high_memory (z i l)
              (m i l)))
        (λ j. omega (arith, r j, c.counts j)) in
    (
      λ j. omega (arith, f.counts j, c.counts j, r j),
      f.entries,
      λ i l. f.others (from + 4 * i) (outside i l) ∙ c.parent i l,
    )
  where
    moved : {x y : ℕ} → x ≡ y → (y ≡ 0) ⊎ (is_present y ≡ true) → (x ≡ 0) ⊎ (is_present x ≡ true)
    moved e (inl h) = inl (e ∙ h)
    moved e (inr h) = inr (ap is_present e ∙ h)

    in_memory : {x y a b : ℕ} → x ≡ y → a ≡ b → page_of y < b → page_of x < a
    in_memory e f h = omega arith

    outside : (i : ℕ) → i < n → Outside n to (from + 4 * i)
    outside i l = elim o [ inl u ↦ inr (omega arith) | inr u ↦ inl (omega arith) ]
