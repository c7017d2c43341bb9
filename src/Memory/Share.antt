-- ===== src/Memory/Share.antt =====
-- mm/memory.c: a page that two tasks share.
pub mod Write
use linux.Base.{
  ℕ, ◌≤◌, ◌<◌, ◌≡◌, ◌≢◌, arith, refl, sym, ap, ◌∙◌, inl, inr, Bool-cases, ◌+◌, ◌%◌, Bool, true,
  false, not, ◌||◌, Option, none, some, List, [], ◌∷◌, ltb, leb, ◌==◌, if◌then◌else◌,
}
use linux.Base.Bits.{bit_or}
use linux.Memory.{Vm, low_mem, update, page_of, is_present, is_dirty, map_nr, table_entry}
use linux.Memory.Tables.{Allocator, read_only, dir_of}

abbrev pub library_offset : ℕ
library_offset = 0x3c00000

pub data Sharing : Type 0 where
  not_shared : Sharing
  shared : Vm → Sharing
  no_memory : Vm → Sharing
  already_there : Sharing

-- From the test of the entry that is to be made on, with the address of the page.
unfoldable pub share_with : ℕ → ℕ → ℕ → Vm → Sharing
share_with addr from_page to_page vm =
    let entry = read_only (vm.mem from_page) in
    let nr = map_nr addr in
    if is_present (vm.mem to_page)
    then already_there
    else shared (record vm {
      mem = update (update vm.mem from_page entry) to_page entry;
      mem_map = update vm.mem_map nr ((vm.mem_map nr + 1) % 256);
    })

share_new : ℕ → ℕ → ℕ → ℕ → ℕ × Vm → Sharing
share_new addr from_page to_dir address (to, vm) =
    if to == 0
    then no_memory vm
    else share_with addr from_page (table_entry to address)
        (record vm { mem = update vm.mem to_dir (bit_or to 7) })

-- `address` is relative to the start of the code of both tasks.
unfoldable pub try_to_share : Allocator → ℕ → ℕ → ℕ → Vm → Sharing
unfolding share_with share_new
try_to_share get_free_page address their_code own_code vm =
    let from = vm.mem (dir_of address + dir_of their_code) in
    let to_dir = dir_of address + dir_of own_code in
    let to = vm.mem to_dir in
    let from_page = table_entry (page_of from) address in
    let entry = vm.mem from_page in
    if not (is_present from)
    then not_shared
    else if not (is_present entry) || is_dirty entry
    then not_shared
    else if leb vm.high_memory (page_of entry) || ltb (page_of entry) low_mem
    then not_shared
    else if is_present to
    then share_with (page_of entry) from_page (table_entry (page_of to) address) vm
    else share_new (page_of entry) from_page to_dir address (get_free_page vm)

-- What share_page reads of a task; inodes are numbers.
pub record Task : Type 0 where
  pub start_code : ℕ
  pub end_data : ℕ
  pub executable : ℕ
  pub library : ℕ

-- The loop over the tasks, the last one first, without the first one and the current one.
unfoldable share_loop : Allocator → ℕ → ℕ → ℕ → List (Option Task) → Vm → Sharing
unfolding try_to_share
share_loop get_free_page inode address own_code [] vm = not_shared
share_loop get_free_page inode address own_code (none ∷ ts) vm =
    share_loop get_free_page inode address own_code ts vm
share_loop get_free_page inode address own_code (some p ∷ ts) vm =
    let rest = share_loop get_free_page inode address own_code ts vm in
    if not (inode == (if ltb address library_offset then p.executable else p.library))
    then rest
    else elim (try_to_share get_free_page address p.start_code own_code vm) [
      | not_shared ↦ rest
      | shared vm' ↦ shared vm'
      | no_memory vm' ↦ no_memory vm'
      | already_there ↦ already_there
    ]

-- `inode` is not NULL where this is called.
unfoldable pub share_page : Allocator → ℕ → ℕ → ℕ → ℕ → List (Option Task) → Vm → Sharing
unfolding share_loop
share_page get_free_page i_count inode address own_code ts vm =
    if ltb i_count 2 then not_shared else share_loop get_free_page inode address own_code ts vm

-- The tests that are passed where a page is shared.
passed :
    (a b c d : Bool) (x y : Sharing) (vm : Vm)
    → (if not a
        then not_shared
        else if b
        then not_shared
        else if c
        then not_shared
        else if d
        then x
        else y)
      ≡ shared vm
    → d ≡ true
    → (b ≡ false) × (c ≡ false) × (x ≡ shared vm)
passed false b c d x y vm e f = cc
passed true true c d x y vm e f = cc
passed true false true d x y vm e f = cc
passed true false false true x y vm e f = (refl, refl, e)
passed true false false false x y vm e f = cc

share_with_lem :
    (addr from_page to_page : ℕ) (vm vm' : Vm)
    → share_with addr from_page to_page vm ≡ shared vm'
    → (vm'.mem from_page ≡ read_only (vm.mem from_page))
      × (vm'.mem to_page ≡ read_only (vm.mem from_page))
      × ((a : ℕ) → a ≢ from_page → a ≢ to_page → vm'.mem a ≡ vm.mem a)
      × ((j : ℕ)
          → vm'.mem_map j ≡ (if j == map_nr addr then (vm.mem_map j + 1) % 256 else vm.mem_map j))
      × (vm'.high_memory ≡ vm.high_memory)
unfolding share_with
share_with_lem addr from_page to_page vm vm' e = elim (Bool-cases (is_present (vm.mem to_page))) [
  | inl p ↦ cc (let q : already_there ≡ shared vm' = rw p at e in q)
  | inr p ↦
      let q : shared (record vm {
        mem =
            update (update vm.mem from_page (read_only (vm.mem from_page))) to_page
              (read_only (vm.mem from_page));
        mem_map = update vm.mem_map (map_nr addr) ((vm.mem_map (map_nr addr) + 1) % 256);
      })
          ≡ shared vm' =
        rw p at e in
      let m = ap shared_mem q in
      let k = ap shared_map q in
      (
        ap (λ f. f from_page) (sym m) ∙ ground arith,
        ap (λ f. f to_page) (sym m) ∙ ground arith,
        λ a f t. ap (λ g. g a) (sym m) ∙ ground arith,
        λ j. ap (λ g. g j) (sym k) ∙ ground arith,
        ap shared_high (sym q),
      )
]
  where
    shared_mem : Sharing → ℕ → ℕ
    shared_mem (shared v) = v.mem
    shared_mem _ = vm.mem

    shared_high : Sharing → ℕ
    shared_high (shared v) = v.high_memory
    shared_high _ = vm.high_memory

    shared_map : Sharing → ℕ → ℕ
    shared_map (shared v) = v.mem_map
    shared_map _ = vm.mem_map

-- A page that `try_to_share` shares is present, clean and in the memory. Both entries lead to it, read
-- only, its count, a byte, has gone up by one modulo 256, and no other count and no other entry has
-- changed; where the current task has a table for the address.
pub try_to_share_lem :
    (gfp : Allocator) (address their_code own_code : ℕ) (vm vm' : Vm)
    → let from_page = table_entry (page_of (vm.mem (dir_of address + dir_of their_code))) address in
      let to_dir = vm.mem (dir_of address + dir_of own_code) in
      let to_page = table_entry (page_of to_dir) address in
      let entry = vm.mem from_page in
      is_present to_dir ≡ true
      → try_to_share gfp address their_code own_code vm ≡ shared vm'
      → (is_present entry ≡ true)
        × (is_dirty entry ≡ false)
        × (low_mem ≤ page_of entry)
        × (page_of entry < vm.high_memory)
        × (vm'.mem from_page ≡ read_only entry)
        × (vm'.mem to_page ≡ read_only entry)
        × ((a : ℕ) → a ≢ from_page → a ≢ to_page → vm'.mem a ≡ vm.mem a)
        × ((j : ℕ)
            → vm'.mem_map j
              ≡ (if j == map_nr (page_of entry) then (vm.mem_map j + 1) % 256 else vm.mem_map j))
        × (vm'.high_memory ≡ vm.high_memory)
unfolding try_to_share
try_to_share_lem gfp address their_code own_code vm vm' present e =
    let from_page = table_entry (page_of (vm.mem (dir_of address + dir_of their_code))) address in
    let entry = vm.mem from_page in
    let (b, c, x) =
      passed (is_present (vm.mem (dir_of address + dir_of their_code)))
        (not (is_present entry) || is_dirty entry)
        (leb vm.high_memory (page_of entry) || ltb (page_of entry) low_mem)
        (is_present (vm.mem (dir_of address + dir_of own_code))) _ _ vm' e present in
    let (from', to', others, counts, same) = share_with_lem (page_of entry) from_page _ vm vm' x in
    (
      clean_present (is_present entry) (is_dirty entry) b,
      clean (is_present entry) (is_dirty entry) b,
      low _ _ _ c,
      high _ _ _ c,
      from',
      to',
      others,
      counts,
      same,
    )
  where
    clean_present : (p d : Bool) → (not p || d) ≡ false → p ≡ true
    clean_present p d h = ground arith

    clean : (p d : Bool) → (not p || d) ≡ false → d ≡ false
    clean p d h = ground arith

    low : (h p l : ℕ) → (leb h p || ltb p l) ≡ false → l ≤ p
    low h p l e = ground arith

    high : (h p l : ℕ) → (leb h p || ltb p l) ≡ false → p < h
    high h p l e = ground arith
