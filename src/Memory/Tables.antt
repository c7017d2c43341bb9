-- ===== src/Memory/Tables.antt =====
-- mm/memory.c: copying and freeing page tables. The directory is at address 0, an entry is a long. The
-- allocation of a page, which may swap others out, is an argument; it gives 0 where there is no page.
pub mod Refs
pub mod Copy
pub mod Release
use linux.Base.{
  ℕ, zero, suc, ◌+◌, ◌-◌, ◌*◌, ◌/◌, ◌%◌, Bool, true, false, not, ◌&&◌, ◌||◌, Option, none, some,
  ltb, leb, ◌==◌, if◌then◌else◌,
}
use linux.Base.Bits.{bit_or}
use linux.Memory.{Vm, low_mem, update, page_of, is_present, store_page, free_page, swap_free}

abbrev pub Allocator : Type 0
Allocator = Vm → ℕ × Vm

-- `this_page & ~2`
abbrev pub read_only : ℕ → ℕ
read_only entry = entry - entry / 2 % 2 * 2

-- A present page is shared: both entries become read-only, and its count goes up, if it is not in low
-- memory. A count is a byte.
unfoldable pub share_entry : ℕ → ℕ → Vm → Vm
share_entry from to vm =
    let this = read_only (vm.mem from) in
    let nr = (this - low_mem) / 4096 in
    let mem' = update vm.mem to this in
    if ltb low_mem this
    then record vm {
      mem = update mem' from this;
      mem_map = update vm.mem_map nr ((vm.mem_map nr + 1) % 256);
    }
    else record vm { mem = mem' }

-- A page that is swapped out is read in for the parent, and the child gets the place on the disk.
unfoldable pub unswap_entry : ℕ → ℕ → ℕ → ℕ × Vm → Bool × Vm
unswap_entry this from to (new, vm) =
    let read = store_page new (vm.disk (this / 2)) vm.mem in
    if new == 0
    then (false, vm)
    else (true, record vm { mem = update (update read to this) from (bit_or new 0x47) })

-- One turn of the inner loop of copy_page_tables; false is the return with -1.
unfoldable pub copy_entry : Allocator → ℕ → ℕ → Vm → Bool × Vm
unfolding share_entry unswap_entry
copy_entry get_free_page from to vm =
    if vm.mem from == 0
    then (true, vm)
    else if not (is_present (vm.mem from))
    then unswap_entry (vm.mem from) from to (get_free_page vm)
    else (true, share_entry from to vm)

unfoldable pub copy_entries : Allocator → ℕ → ℕ → ℕ → Vm → Bool × Vm
unfolding copy_entry
copy_entries get_free_page zero from to vm = (true, vm)
copy_entries get_free_page (suc nr) from to vm =
    let r = copy_entry get_free_page from to vm in
    elim r.0 [ true ↦ copy_entries get_free_page nr (from + 4) (to + 4) r.1 | false ↦ r ]

-- With the page for the new table.
unfoldable pub copy_table : Allocator → ℕ → ℕ → ℕ → ℕ × Vm → Bool × Vm
unfolding copy_entries
copy_table get_free_page nr table to_dir (new, vm) =
    if new == 0
    then (false, vm)
    else copy_entries get_free_page nr table new
        (record vm { mem = update vm.mem to_dir (bit_or new 7) })

-- The outer loop, with `nr` entries of each table; what it prints is left out.
unfoldable pub copy_dirs : Allocator → ℕ → ℕ → ℕ → ℕ → Vm → Bool × Vm
unfolding copy_table
copy_dirs get_free_page nr zero from_dir to_dir vm = (true, vm)
copy_dirs get_free_page nr (suc size) from_dir to_dir vm =
    let entry = vm.mem from_dir in
    let r =
      if entry == 0
      then (true, vm)
      else if not (is_present entry)
      then (true, record vm { mem = update vm.mem from_dir 0 })
      else copy_table get_free_page nr (page_of entry) to_dir (get_free_page vm) in
    elim r.0 [ true ↦ copy_dirs get_free_page nr size (from_dir + 4) (to_dir + 4) r.1 | false ↦ r ]

-- `(size + 0x3fffff) >> 22`, of an unsigned long.
abbrev pub directories : ℕ → ℕ
directories size = (size + 0x3fffff) % 0x100000000 / 0x400000

-- `(addr >> 20) & 0xffc`
abbrev pub dir_of : ℕ → ℕ
dir_of addr = addr / 0x100000 % 4096 / 4 * 4

-- none is a panic.
unfoldable pub copy_page_tables : Allocator → ℕ → ℕ → ℕ → Vm → Option (Bool × Vm)
unfolding copy_dirs
copy_page_tables get_free_page from to size vm =
    if not (from % 0x400000 == 0) || not (to % 0x400000 == 0)
    then none
    else some (
        copy_dirs get_free_page (if from == 0 then 0xa0 else 1024) (directories size) (dir_of from)
          (dir_of to) vm)

-- One turn of the inner loop of free_page_tables.
unfoldable pub free_entry : ℕ → Vm → Vm
unfolding free_page swap_free
free_entry ptr vm =
    let entry = vm.mem ptr in
    let vm' : Vm = record vm { mem = update vm.mem ptr 0 } in
    if entry == 0
    then vm
    else if is_present entry
    then (free_page (page_of entry) vm').0
    else (swap_free (entry / 2) vm').0

unfoldable pub free_entries : ℕ → ℕ → Vm → Vm
unfolding free_entry
free_entries zero ptr vm = vm
free_entries (suc nr) ptr vm = free_entries nr (ptr + 4) (free_entry ptr vm)

-- The outer loop.
unfoldable pub free_dirs : ℕ → ℕ → Vm → Vm
unfolding free_entries free_page
free_dirs zero dir vm = vm
free_dirs (suc size) dir vm =
    let entry = vm.mem dir in
    let vm' : Vm = record vm { mem = update vm.mem dir 0 } in
    free_dirs size (dir + 4) (
      if entry == 0
      then vm
      else if not (is_present entry)
      then vm'
      else (free_page (page_of entry) (free_entries 1024 (page_of entry) vm')).0)

unfoldable pub free_page_tables : ℕ → ℕ → Vm → Option Vm
unfolding free_dirs
free_page_tables from size vm =
    if not (from % 0x400000 == 0) || from == 0
    then none
    else (let vm' = free_dirs (directories size) (dir_of from) vm in
        some (record vm' { last_pages = λ i. if ltb i 16 then 0 else vm'.last_pages i }))
