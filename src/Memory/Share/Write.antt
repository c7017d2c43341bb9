-- ===== src/Memory/Share/Write.antt =====
-- mm/memory.c: what happens when a page that is shared is written to.
use linux.Base.{ℕ, ◌≡◌, ◌≢◌, ◌+◌, ◌/◌, ◌%◌, true, false, none, some}
use linux.Memory.{Vm, page_of, is_present, is_dirty, map_nr, copied, copy_to, un_wp_round}

-- A page table entry that leads to the page, read-only, and a write to it: `un_wp_page` asks for a new
-- page, and with one it copies.
pub record WriteCopies (ptr page : ℕ) (vm : Vm) : Type 0 where
  pub leads_to : page_of (vm.mem ptr) ≡ page
  pub present : is_present (vm.mem ptr) ≡ true
  pub protected : vm.mem ptr / 2 % 2 ≡ 0
  pub asks : un_wp_round 0 ptr vm ≡ none
  pub copies : (new : ℕ) → new ≢ 0 → un_wp_round new ptr vm ≡ some (copied (copy_to new ptr vm))

-- What sharing the page of an entry leaves.
pub record SharedPage (from_page to_page entry : ℕ) (vm vm' : Vm) : Type 0 where
  pub theirs : WriteCopies from_page (page_of entry) vm'
  pub own : WriteCopies to_page (page_of entry) vm'
  pub clean : is_dirty entry ≡ false
  pub counted : vm'.mem_map (map_nr (page_of entry)) ≡ vm.mem_map (map_nr (page_of entry)) + 1
  pub other_counts : (j : ℕ) → j ≢ map_nr (page_of entry) → vm'.mem_map j ≡ vm.mem_map j
  pub other_entries : (a : ℕ) → a ≢ from_page → a ≢ to_page → vm'.mem a ≡ vm.mem a
