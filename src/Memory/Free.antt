-- ===== src/Memory/Free.antt =====
-- mm/swap.c and mm/memory.c: `get_free_page` finds a page that nobody uses, `free_page` gives it
-- back.
use native.Mathlib.Decide.{ℕ_discrete}
use mathlib.Core.Path.{subst}
use linux.Base.{
  ℕ, zero, suc, ◌+◌, ◌-◌, ◌*◌, ◌/◌, ◌≤◌, ◌<◌, ◌≡◌, ◌≢◌, refl, true, false, ltb, leb, ◌==◌, ◌&&◌,
  if◌then◌else◌, inl, inr, arith, Bool-cases,
}
use linux.Memory.{
  Vm, low_mem, claim, get_free_page, is_weird, free_page, Got, page, need_swap, repeats,
}

-- The page `addr` was free and is now used once, the other counts are as before, and the page is
-- cleared, with all else in memory unchanged. It is the highest free one of the `k` low pages.
pub record Claimed (k : ℕ) (vm : Vm) (addr : ℕ) (vm' : Vm) : Type 0 where
  pub nr : ℕ
  pub scanned : nr < k
  pub aligned : addr ≡ low_mem + nr * 4096
  pub same_memory : vm'.high_memory ≡ vm.high_memory
  pub was_free : vm.mem_map nr ≡ 0
  pub now_used : vm'.mem_map nr ≡ 1
  pub highest : (j : ℕ) → nr < j → j < k → vm.mem_map j ≢ 0
  pub others : (j : ℕ) → j ≢ nr → vm'.mem_map j ≡ vm.mem_map j
  pub cleared : (a : ℕ) → vm'.mem a ≡ (if leb addr a && ltb a (addr + 4096) then 0 else vm.mem a)

-- What a search of the `k` low pages says.
abbrev pub Searched : ℕ → Vm → Got → Type 0
Searched k vm (page addr vm') = (addr < vm.high_memory) × Claimed k vm addr vm'
Searched k vm (repeats addr vm') = (vm.high_memory ≤ addr) × Claimed k vm addr vm'
Searched k vm (need_swap vm') = ((j : ℕ) → j < k → vm.mem_map j ≢ 0) × (vm' ≡ vm)

Claimed-suc :
    (vm vm' : Vm) (k addr : ℕ)
    → vm.mem_map k ≢ 0
    → Claimed k vm addr vm'
    → Claimed (suc k) vm addr vm'
Claimed-suc vm vm' k addr h c = record {
  nr = c.nr;
  scanned = (omega (arith, c.scanned));
  aligned = c.aligned;
  same_memory = c.same_memory;
  was_free = c.was_free;
  now_used = c.now_used;
  highest =
      λ j up l. elim (ℕ_discrete j k) [ yes p ↦ rw p h | no p ↦ c.highest j up (omega arith) ];
  others = c.others;
  cleared = c.cleared;
}

-- A page in use is passed over.
Searched-skip :
    (vm : Vm) (k : ℕ) (g : Got) → vm.mem_map k ≢ 0 → Searched k vm g → Searched (suc k) vm g
Searched-skip vm k (page addr vm') h c = (c.0, Claimed-suc vm vm' k addr h c.1)
Searched-skip vm k (repeats addr vm') h c = (c.0, Claimed-suc vm vm' k addr h c.1)
Searched-skip vm k (need_swap vm') h c =
    (λ j l. elim (ℕ_discrete j k) [ yes p ↦ rw p h | no p ↦ c.0 j (omega arith) ], c.1)

claimed :
    (vm : Vm) (k : ℕ) → vm.mem_map k ≡ 0 → Claimed (suc k) vm (low_mem + k * 4096) (claim k vm)
claimed vm k z = record {
  nr = k;
  scanned = omega arith;
  aligned = refl;
  same_memory = refl;
  was_free = z;
  now_used = (let same : (k == k) ≡ true = ground arith in rw same refl);
  highest = λ j up l. absurd (omega arith);
  others = λ j ne. let off : (j == k) ≡ false = ground arith in rw off refl;
  cleared = λ a. refl;
}

-- `get_free_page`, before it calls `swap_out`, finds the highest page of the table that nobody uses:
-- its count is then 1, the page is cleared, and all other counts and the rest of memory are as before.
-- It returns this page if it lies in the memory, and goes back to `repeat` if it lies above. If there
-- is no such page, nothing has changed, and `swap_out` is called.
pub get_free_page-Searched : (k : ℕ) (vm : Vm) → Searched k vm (get_free_page k vm)
unfolding get_free_page
get_free_page-Searched zero vm = (λ j l. absurd (omega arith), refl)
get_free_page-Searched (suc k) vm = elim (Bool-cases (vm.mem_map k == 0)) [
  | inr n ↦ rw n (Searched-skip vm k _ (ground arith) (get_free_page-Searched k vm))
  | inl z ↦ elim (Bool-cases (leb vm.high_memory (low_mem + k * 4096))) [
    | inl up ↦ rw (z, up) (ground arith, claimed vm k (ground arith))
    | inr below ↦
        let fine : is_weird (low_mem + k * 4096) ≡ false = ground arith in
        rw (z, below, fine) (ground arith, claimed vm k (ground arith))
  ]
]

-- A page that `get_free_page` returns can be given back: `free_page` does not complain, and every
-- page of the memory then has the count it had at first.
pub free_page-get_free_page :
    (k addr : ℕ) (vm vm' : Vm)
    → get_free_page k vm ≡ page addr vm'
    → ((free_page addr vm').1 ≡ false)
      × ((j : ℕ)
          → low_mem + j * 4096 < vm.high_memory
          → (free_page addr vm').0.mem_map j ≡ vm.mem_map j)
unfolding free_page
free_page-get_free_page k addr vm vm' e =
    let (in_memory, c) : (addr < vm.high_memory) × Claimed k vm addr vm' =
      subst (Searched k vm) e (get_free_page-Searched k vm) in
    let place : (addr - low_mem) / 4096 ≡ c.nr = omega (arith, c.aligned) in
    let low : ltb addr low_mem ≡ false = ground (arith, c.aligned) in
    let inside : ltb addr vm'.high_memory ≡ true = ground (arith, in_memory, c.same_memory) in
    let used : (vm'.mem_map c.nr == 0) ≡ false = ground (arith, c.now_used) in
    rw (low, inside, place, used)
      (
        refl,
        λ j below. elim (ℕ_discrete j c.nr) [
          | yes p ↦
              let same : (j == c.nr) ≡ true = ground arith in
              rw (same, p, c.was_free, c.now_used) refl
          | no p ↦ let off : (j == c.nr) ≡ false = ground arith in rw off (c.others j p)
        ],
      )
