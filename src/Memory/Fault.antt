-- ===== src/Memory/Fault.antt =====
-- mm/memory.c and mm/swap.c: page faults. Reading a page of a file, and the scheduler, are arguments.
use linux.Base.{
  ℕ, zero, suc, ◌+◌, ◌-◌, ◌*◌, ◌/◌, ◌%◌, ◌^◌, Bool, true, not, ◌&&◌, ◌||◌, Option, none, some, List,
  ltb, leb, ◌==◌, if◌then◌else◌,
}
use linux.Base.Bits.{bit_or}
use linux.Memory.{
  Vm, update, page_of, is_present, map_nr, store_page, free_page, dir_entry, table_entry,
  paging_pages, refused, need_table, stored, put_page, Unshared, un_wp_page,
}
use linux.Memory.Tables.{Allocator}
use linux.Memory.Share.{
  library_offset, not_shared, shared, no_memory, already_there, Task, share_page,
}

abbrev pub task_size : ℕ
task_size = 0x4000000

-- The page, or 0, and the memory.
with_table : ℕ → ℕ → ℕ → ℕ × Vm → ℕ × Vm
with_table addr address bits (tmp, vm) = if tmp == 0 then (0, vm) else (
  addr,
  record vm {
    mem =
        update (update vm.mem (dir_entry address) (bit_or tmp 7)) (table_entry tmp address)
          (bit_or addr bits);
  },
)

unfoldable pub put_dirty_page : Allocator → ℕ → ℕ → Vm → ℕ × Vm
unfolding with_table
put_dirty_page get_free_page addr address vm =
    let dir = vm.mem (dir_entry address) in
    if is_present dir
    then (
      addr,
      record vm { mem = update vm.mem (table_entry (page_of dir) address) (bit_or addr 0x47) },
    )
    else with_table addr address 0x47 (get_free_page vm)

-- `put_page`, with the page that it may need for a new table.
unfoldable pub put_whole_page : Allocator → ℕ → ℕ → Vm → ℕ × Vm
unfolding with_table put_page
put_whole_page get_free_page addr address vm = elim (put_page addr address vm) [
  | refused ↦ (0, vm)
  | stored vm' ↦ (addr, vm')
  | need_table ↦ with_table addr address 7 (get_free_page vm)
]

-- How a fault ends: the task goes on, or is killed by a signal, or for want of memory.
pub data Fault : Type 0 where
  done : Vm → Fault
  killed : Vm → Fault
  oom : Vm → Fault
  panics : Fault

-- The unsigned difference.
abbrev pub offset : ℕ → ℕ → ℕ
offset address start = (address + 0x100000000 - start) % 0x100000000

unfoldable pub do_wp_page : Allocator → ℕ → ℕ → Vm → Option Unshared
unfolding un_wp_page
do_wp_page get_free_page start_code address vm =
    if leb task_size (offset address start_code)
    then none
    else some
        (un_wp_page get_free_page (table_entry (page_of (vm.mem (dir_entry address))) address) vm)

-- none where there is nothing to do.
unfoldable pub write_verify : Allocator → ℕ → Vm → Option Unshared
unfolding un_wp_page
write_verify get_free_page address vm =
    let dir = vm.mem (dir_entry address) in
    let ptr = table_entry (page_of dir) address in
    if is_present dir && vm.mem ptr % 4 == 1 then some (un_wp_page get_free_page ptr vm) else none

settle : ℕ × (ℕ × Vm) → Fault
settle (tmp, (addr, vm)) = if addr == 0 then oom (free_page tmp vm).0 else done vm

-- With the page that was got.
fill_empty : Allocator → ℕ → ℕ × Vm → Fault
fill_empty get_free_page address (tmp, vm) =
    if tmp == 0 then oom vm else settle (tmp, put_whole_page get_free_page tmp address vm)

unfoldable pub get_empty_page : Allocator → ℕ → Vm → Fault
unfolding fill_empty settle put_whole_page free_page
get_empty_page get_free_page address vm = fill_empty get_free_page address (get_free_page vm)

-- The end of swap_in, with the page that was got.
read_in : ℕ → ℕ × Vm → Fault
read_in ptr (new, vm) =
    let nr = vm.mem ptr / 2 in
    if new == 0
    then oom vm
    else done (record vm {
      mem = update (store_page new (vm.disk nr) vm.mem) ptr (bit_or new 0x47);
      swap_map = update vm.swap_map nr true;
    })

unfoldable pub swap_in : Allocator → ℕ → Vm → Fault
unfolding read_in
swap_in get_free_page ptr vm =
    if not vm.has_swap || (is_present (vm.mem ptr) || vm.mem ptr / 2 == 0)
    then done vm
    else read_in ptr (get_free_page vm)

-- What do_no_page asks for: the scheduler, which it calls with the counter of the task at 0; bmap and
-- bread_page, which read the four blocks from a block of an inode on into a page; i_count of the
-- inodes, and the tasks as share_page sees them. `is_current` says that the fault is that of the
-- current task.
pub record Services : Type 0 where
  pub get_free_page : Allocator
  pub schedule : Vm → Vm
  pub read_page : ℕ → ℕ → ℕ → Vm → Vm
  pub i_count : ℕ → ℕ
  pub tasks : List (Option Task)
  pub is_current : Bool

-- The loop over `last_pages`.
unfoldable pub check_last : (Vm → Vm) → ℕ → ℕ → ℕ → Vm → Vm
check_last schedule base zero i vm = vm
check_last schedule base (suc k) i vm =
    check_last schedule base k (i + 1) (if base == vm.last_pages i then schedule vm else vm)

-- The last `i` bytes of a page are cleared, where a long keeps its low bytes.
unfoldable pub clear_tail : ℕ → ℕ → Vm → Vm
clear_tail page i vm = record vm {
  mem = λ a.
      if leb page a && ltb a (page + 4096) && ltb 4096 (a - page + 4 + i)
      then vm.mem a % 2 ^ (8 * (4096 - i - (a - page)))
      else vm.mem a;
}

-- How many bytes of the page at `tmp` lie behind the data, 0 if it has none of it.
abbrev pub behind_data : ℕ → ℕ → ℕ
behind_data tmp end_data = if ltb 4095 (tmp + 4096 - end_data) then 0 else tmp + 4096 - end_data

-- With the page for it.
read_file : Services → ℕ → ℕ → ℕ → ℕ → ℕ × Vm → Fault
read_file s inode block i address (new, vm) =
    if new == 0
    then oom vm
    else settle (
      new,
      put_whole_page s.get_free_page new address
          (clear_tail new i (s.read_page inode block new vm)),
    )

-- From the choice of the inode on.
unfoldable pub load_page : Services → ℕ → Task → Vm → Fault
unfolding read_file settle get_empty_page share_page clear_tail
load_page s address tsk vm =
    let tmp = offset address tsk.start_code in
    let in_library = leb library_offset tmp in
    let inode =
      if in_library then tsk.library else if ltb tmp tsk.end_data then tsk.executable else 0 in
    let block = 1 + (if in_library then tmp - library_offset else tmp) / 1024 in
    if inode == 0
    then get_empty_page s.get_free_page address vm
    else elim (if s.is_current
        then share_page s.get_free_page (s.i_count inode) inode tmp tsk.start_code s.tasks vm
        else not_shared) [
          | shared vm' ↦ done vm'
          | no_memory vm' ↦ oom vm'
          | already_there ↦ panics
          | not_shared ↦
              read_file s inode block (behind_data tmp tsk.end_data) address (s.get_free_page vm)
        ]

-- With the page for a new table.
new_table : Services → ℕ → Task → ℕ × Vm → Fault
new_table s address tsk (new, vm) =
    if new == 0
    then oom vm
    else load_page s (page_of address) tsk
        (record vm { mem = update vm.mem (dir_entry address) (bit_or new 7) })

-- The next value of `last_checked`, and the end of the fault.
unfoldable pub do_no_page : Services → ℕ → ℕ → Task → Vm → ℕ × Fault
unfolding check_last load_page new_table swap_in
do_no_page s last_checked address tsk vm =
    let next = if leb 16 (last_checked + 1) then 0 else last_checked + 1 in
    let seen = check_last s.schedule (page_of address) 16 0 vm in
    let vm' : Vm = record seen { last_pages = update seen.last_pages next (page_of address) } in
    let dir = vm'.mem (dir_entry address) in
    let ptr = table_entry (page_of dir) address in
    let swapped_out = not (vm'.mem ptr == 0) && not (is_present (vm'.mem ptr)) in
    (
      next,
      if leb task_size (offset address tsk.start_code)
          then killed vm'
          else if not (is_present dir)
          then new_table s address tsk (s.get_free_page vm')
          else if swapped_out
          then swap_in s.get_free_page ptr vm'
          else load_page s (page_of address) tsk vm',
    )

-- USED is 100. The swap file and device are not part of the state.
unfoldable pub mem_init : ℕ → ℕ → Vm → Vm
mem_init start_mem end_mem vm =
    let first = map_nr start_mem in
    record vm {
      high_memory = end_mem;
      mem_map = λ i.
          if leb first i && ltb i (first + (end_mem - start_mem) / 4096)
          then 0
          else if ltb i paging_pages
          then 100
          else vm.mem_map i;
    }
