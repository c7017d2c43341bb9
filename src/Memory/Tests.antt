-- ===== src/Memory/Tests.antt =====
-- Tests of the page counts of mm/memory.c and mm/swap.c.
use linux.Base.{
  ℕ, zero, suc, ◌+◌, ◌*◌, ◌<◌, ◌≡◌, refl, true, false, inl, inr, arith, ◌==◌, if◌then◌else◌,
}
use linux.Memory.{Vm, low_mem, update, get_free_page}
use linux.Memory.Tables.{Allocator, copy_entries, free_entries}
use linux.Memory.Tables.Refs.{refs, AllPresent}
use linux.Memory.Tables.Copy.{Copied, parent_entry, copy_entries-Copied}
use linux.Memory.Tables.Release.{InMemory, free_entries-copy_entries}
use linux.Memory.Free.{Searched, get_free_page-Searched}

-- Eight pages, and the first two of them in use.
abbrev vm : Vm
vm = record {
  mem = λ a. 7;
  mem_map = update (update (λ i. 0) 0 1) 1 1;
  high_memory = low_mem + 8 * 4096;
  has_swap = false;
  swap_map = λ i. false;
  disk = λ nr a. 0;
  last_pages = λ i. 0;
}

get_free_page-Searched_example : Searched 20 vm (get_free_page 20 vm)
get_free_page-Searched_example = get_free_page-Searched 20 vm

-- A table of two entries at 0x5000, one that leads to page 1 and one that is 0, and an empty one at
-- 0x6000.
abbrev tables : Vm
tables = record vm { mem = λ a. if a == 0x5000 then low_mem + 4096 + 7 else 0 }

abbrev no_page : Allocator
no_page v = (0, v)

all-AllPresent : AllPresent tables.mem 2 0x5000
all-AllPresent zero l = inr refl
all-AllPresent (suc zero) l = inl refl
all-AllPresent (suc (suc i)) l = absurd (omega arith)

all-InMemory : InMemory tables 2 0x5000
all-InMemory zero l = omega arith
all-InMemory (suc zero) l = omega arith
all-InMemory (suc (suc i)) l = absurd (omega arith)

empty_table : (i : ℕ) → i < 2 → tables.mem (0x6000 + 4 * i) ≡ 0
empty_table i l = ground arith

few_refs : (j : ℕ) → tables.mem_map j + refs tables.mem 2 0x5000 j < 256
unfolding refs
few_refs j = ground arith

free_entries-copy_entries_example :
    let vm' = free_entries 2 0x6000 (copy_entries no_page 2 0x5000 0x6000 tables).1 in
    ((j : ℕ) → vm'.mem_map j ≡ tables.mem_map j)
    × ((i : ℕ) → i < 2 → vm'.mem (0x6000 + 4 * i) ≡ 0)
    × ((i : ℕ) → i < 2 → vm'.mem (0x5000 + 4 * i) ≡ parent_entry (tables.mem (0x5000 + 4 * i)))
free_entries-copy_entries_example =
    free_entries-copy_entries no_page 2 0x5000 0x6000 tables (inr (omega arith)) all-AllPresent
      all-InMemory empty_table few_refs

copy_entries-Copied_example :
    ((copy_entries no_page 2 0x5000 0x6000 tables).0 ≡ true)
    × Copied 2 0x5000 0x6000 tables (copy_entries no_page 2 0x5000 0x6000 tables).1
copy_entries-Copied_example =
    copy_entries-Copied no_page 2 0x5000 0x6000 tables (inr (omega arith)) all-AllPresent few_refs

-- The task at 0x4000000 has a clean page at its start, and the one at 0x8000000 only a table.
abbrev two_tasks : Vm
two_tasks = record vm {
  mem = λ a.
      if a == 64
      then 0x2007
      else if a == 128
      then 0x3007
      else if a == 0x2000
      then low_mem + 4096 + 7
      else 0;
}

abbrev after_sharing : Vm
after_sharing = record two_tasks {
  mem = update (update two_tasks.mem 0x2000 (low_mem + 4096 + 5)) 0x3000 (low_mem + 4096 + 5);
  mem_map = update two_tasks.mem_map 1 2;
}
