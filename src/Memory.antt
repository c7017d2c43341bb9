-- ===== src/Memory.antt =====
-- mm/memory.c and mm/swap.c: pages, their counts in `mem_map`, the swap bitmap and page tables.
-- A long of memory is found by its byte address. `swap_map` holds the bits of `swap_bitmap`, where
-- true marks a free place; `disk` holds the pages that have been written out.
pub mod Free
pub mod Tables
pub mod Share
pub mod Fault
mod Tests
use linux.Base.{
  ℕ, zero, suc, ◌+◌, ◌-◌, ◌*◌, ◌/◌, ◌%◌, Bool, true, false, not, ◌&&◌, ◌||◌, Option, none, some,
  ltb, leb, ◌==◌, if◌then◌else◌,
}
use linux.Base.Bits.{bit_or, bit_and}

abbrev pub low_mem : ℕ
low_mem = 0x100000

abbrev pub paging_memory : ℕ
paging_memory = 15 * 1024 * 1024

abbrev pub paging_pages : ℕ
paging_pages = 3840

abbrev pub swap_bits : ℕ
swap_bits = 32768

pub record Vm : Type 0 where
  pub mem : ℕ → ℕ
  pub mem_map : ℕ → ℕ
  pub high_memory : ℕ
  pub has_swap : Bool
  pub swap_map : ℕ → Bool
  pub disk : ℕ → ℕ → ℕ
  pub last_pages : ℕ → ℕ

abbrev pub update {ℓ} : {A : Type ℓ} → (ℕ → A) → ℕ → A → ℕ → A
update f a v x = if x == a then v else f x

-- `page & 0xfffff000`
abbrev pub page_of : ℕ → ℕ
page_of entry = entry / 4096 * 4096

abbrev pub is_present : ℕ → Bool
is_present entry = entry % 2 == 1

-- PAGE_DIRTY is 0x40.
abbrev pub is_dirty : ℕ → Bool
is_dirty entry = entry / 64 % 2 == 1

-- MAP_NR
abbrev pub map_nr : ℕ → ℕ
map_nr addr = (addr - low_mem) / 4096

-- A page of memory replaced; the longs of the page are counted from 0 in bytes.
abbrev pub store_page : ℕ → (ℕ → ℕ) → (ℕ → ℕ) → ℕ → ℕ
store_page page content mem a =
    if leb page a && ltb a (page + 4096) then content (a - page) else mem a

-- The loop of `get_swap_page` over the `k` places from `nr` on.
unfoldable pub swap_page_from : ℕ → ℕ → (ℕ → Bool) → Option ℕ
swap_page_from zero nr m = none
swap_page_from (suc k) nr m =
    let rest = swap_page_from k (nr + 1) m in if m nr then some nr else rest

-- The place found, which is then no longer free, or 0.
unfoldable get_swap_page : Vm → ℕ × Vm
get_swap_page vm =
    if not vm.has_swap then (0, vm) else elim (swap_page_from (swap_bits - 1) 1 vm.swap_map) [
      | none ↦ (0, vm)
      | some nr ↦ (nr, record vm { swap_map = update vm.swap_map nr false })
    ]

-- The Boolean says that the bitmap was found bad, which is printed.
unfoldable pub swap_free : ℕ → Vm → Vm × Bool
swap_free nr vm =
    if nr == 0
    then (vm, false)
    else if vm.has_swap && ltb nr swap_bits
    then (record vm { swap_map = update vm.swap_map nr true }, vm.swap_map nr)
    else (vm, true)

-- The Boolean says that a free page was freed, or one above the memory, which is printed.
unfoldable pub free_page : ℕ → Vm → Vm × Bool
free_page addr vm =
    let nr = (addr - low_mem) / 4096 in
    if ltb addr low_mem
    then (vm, false)
    else if ltb addr vm.high_memory
    then (if vm.mem_map nr == 0
        then (record vm { mem_map = update vm.mem_map nr 0 }, true)
        else (record vm { mem_map = update vm.mem_map nr (vm.mem_map nr - 1) }, false))
    else (vm, true)

-- `page - LOW_MEM > PAGING_MEMORY`, with the wrap of an `unsigned long` below LOW_MEM.
abbrev pub outside_paging : ℕ → Bool
outside_paging entry = ltb entry low_mem || ltb paging_memory (entry - low_mem)

-- With the place `nr` on the disk for the page.
write_out : ℕ → ℕ → ℕ × Vm → Bool × Vm
write_out table_ptr page (nr, vm) = if nr == 0 then (false, vm) else (
  true,
  (free_page page (record vm {
    mem = update vm.mem table_ptr (nr * 2);
    disk = update vm.disk nr (λ k. vm.mem (page + k));
  })).0,
)

unfoldable try_to_swap_out : ℕ → Vm → Bool × Vm
unfolding free_page write_out
try_to_swap_out table_ptr vm =
    let entry = vm.mem table_ptr in
    let base = page_of entry in
    if not (is_present entry)
    then (false, vm)
    else if outside_paging entry
    then (false, vm)
    else if is_dirty entry
    then (if not (vm.mem_map (map_nr base) == 1)
        then (false, vm)
        else write_out table_ptr base (get_swap_page vm))
    else (true, (free_page base (record vm { mem = update vm.mem table_ptr 0 })).0)

-- The page is marked used, and cleared.
abbrev pub claim : ℕ → Vm → Vm
claim k vm = record vm {
  mem_map = update vm.mem_map k 1;
  mem = store_page (low_mem + k * 4096) (λ a. 0) vm.mem;
}

-- The test that prints "weird result".
abbrev pub is_weird : ℕ → Bool
is_weird result = ltb result low_mem || not (result % 4096 == 0)

-- `get_free_page` up to its call of `swap_out`, which `need_swap` stands for, or up to the jump back to
-- `repeat` for a page above the memory. There `rep stosl` has left 0 in ecx, so `repne scasb` compares
-- nothing, and what follows depends on the zero flag that the compiled comparison leaves.
pub data Got : Type 0 where
  page : ℕ → Vm → Got
  need_swap : Vm → Got
  repeats : ℕ → Vm → Got

-- `repne scasb` from the last page down, with `k` pages left in ecx.
unfoldable pub get_free_page : ℕ → Vm → Got
get_free_page zero vm = need_swap vm
get_free_page (suc k) vm =
    let result = low_mem + k * 4096 in
    let rest = get_free_page k vm in
    if not (vm.mem_map k == 0)
    then rest
    else if leb vm.high_memory result
    then repeats result (claim k vm)
    else if is_weird result
    then need_swap (claim k vm)
    else page result (claim k vm)

-- `put_page` up to its call of `get_free_page`, which `need_table` stands for.
abbrev pub dir_entry : ℕ → ℕ
dir_entry address = address / 4194304 * 4

abbrev pub table_entry : ℕ → ℕ → ℕ
table_entry table address = table + address / 4096 % 1024 * 4

pub data Put : Type 0 where
  refused : Put
  need_table : Put
  stored : Vm → Put

unfoldable pub put_page : ℕ → ℕ → Vm → Put
put_page addr address vm =
    let dir = vm.mem (dir_entry address) in
    if ltb addr low_mem || leb vm.high_memory addr
    then refused
    else if not (vm.mem_map (map_nr addr) == 1)
    then refused
    else if is_present dir
    then stored
        (record vm { mem = update vm.mem (table_entry (page_of dir) address) (bit_or addr 7) })
    else need_table

pub data Unshared : Type 0 where
  not_present : Vm → Unshared
  bad_address : Vm → Unshared
  made_writable : Vm → Unshared
  oom : Vm → Unshared
  copied : Vm → Unshared

-- `if (new_page) free_page(new_page);`
abbrev pub give_back : ℕ → Vm → Vm
give_back new vm = if new == 0 then vm else (free_page new vm).0

-- `copy_page`, the new entry, and the old page freed.
abbrev pub copy_to : ℕ → ℕ → Vm → Vm
copy_to new entry_ptr vm =
    let entry = vm.mem entry_ptr in
    (free_page (page_of entry) (record vm {
      mem =
          update (store_page new (λ k. vm.mem (page_of entry + k)) vm.mem) entry_ptr
            (bit_or new (bit_or (bit_and entry 64) 7));
    })).0

-- One round of `un_wp_page` with `new_page` at hand, 0 if none; `none` is the branch that needs one.
unfoldable pub un_wp_round : ℕ → ℕ → Vm → Option Unshared
un_wp_round new entry_ptr vm =
    let entry = vm.mem entry_ptr in
    let old = page_of entry in
    if not (is_present entry)
    then some (not_present (give_back new vm))
    else if leb vm.high_memory old
    then some (bad_address (give_back new vm))
    else if leb low_mem old && (vm.mem_map (map_nr old) == 1)
    then some (
        made_writable
          (give_back new (record vm { mem = update vm.mem entry_ptr (bit_or entry 2) })))
    else if new == 0
    then none
    else some (copied (copy_to new entry_ptr vm))

-- After `get_free_page` has returned `new`, or 0, and left the memory as it is in the pair.
un_wp_second : ℕ → ℕ × Vm → Unshared
un_wp_second entry_ptr (new, vm) = elim (un_wp_round new entry_ptr vm) [
  | some r ↦ r
  | none ↦ oom vm
]

-- `un_wp_page`: a second round is made only if the first needs a page.
unfoldable un_wp_page : (Vm → ℕ × Vm) → ℕ → Vm → Unshared
unfolding un_wp_second
un_wp_page get_free_page entry_ptr vm = elim (un_wp_round 0 entry_ptr vm) [
  | some r ↦ r
  | none ↦ un_wp_second entry_ptr (get_free_page vm)
]
