-- ===== src/Bitmap.antt =====
-- fs/minix/bitmap.c: the inode and block bitmaps of a minix file system.
-- Memory from the data of a map on is a list of 32-bit words; `ptr` is the word that `b_data` points
-- at, since `find_first_zero` has `b_data` as an output ("+S" (addr)) and leaves it behind the last
-- word that it loaded. A map that is missing is `none`.
pub mod Find
pub mod Free
pub mod Alloc
mod Tests
use linux.Base.{
  ℕ, zero, suc, ◌+◌, ◌-◌, ◌*◌, ◌/◌, ◌%◌, Bool, true, false, not, ◌&&◌, ◌||◌, Option, none, some,
  List, [], ◌∷◌, get_or, set, ltb, leb, ◌==◌, if◌then◌else◌,
}
use linux.Base.Bits.{bit_and, bit_or, bit_not, one_shl}

pub record Map : Type 0 where
  pub words : List ℕ
  pub ptr : ℕ
  pub dirty : Bool

abbrev pub bits_per_map : ℕ
bits_per_map = 8192

-- The word that bit `nr` of `b_data` lies in.
abbrev pub word_at : Map → ℕ → ℕ
word_at m nr = get_or m.words (m.ptr + nr / 32) 0

-- `btsl`: whether the bit was set, and the map with the bit set.
unfoldable pub set_bit : ℕ → Map → Bool × Map
set_bit nr m = (
  not (bit_and (word_at m nr) (one_shl (nr % 32)) == 0),
  record m { words = set m.words (m.ptr + nr / 32) (bit_or (word_at m nr) (one_shl (nr % 32))) },
)

-- `btrl` and `setnb`: whether the bit was clear, and the map with the bit cleared.
unfoldable pub clear_bit : ℕ → Map → Bool × Map
clear_bit nr m = (
  bit_and (word_at m nr) (one_shl (nr % 32)) == 0,
  record m {
    words = set m.words (m.ptr + nr / 32) (bit_and (word_at m nr) (bit_not 32 (one_shl (nr % 32))));
  },
)

-- `bsfl`: the lowest of the `k` low bits that is set, counted from `i`.
unfoldable pub bsf : ℕ → ℕ → ℕ → Option ℕ
bsf zero w i = none
bsf (suc k) w i = let rest = bsf k (w / 2) (i + 1) in if w % 2 == 1 then some i else rest

-- The loop of `find_first_zero` with `k` words to load: ECX, and the place of ESI.
unfoldable pub scan : ℕ → List ℕ → ℕ → ℕ → ℕ × ℕ
unfolding bsf
scan zero words ptr ecx = (ecx, ptr)
scan (suc k) words ptr ecx =
    let rest = scan k words (ptr + 1) (ecx + 32) in
    elim (bsf 32 (bit_not 32 (get_or words ptr 0)) 0) [
      | some edx ↦ (ecx + edx, ptr + 1)
      | none ↦ rest
    ]

unfoldable pub find_first_zero : Map → ℕ × Map
unfolding scan
find_first_zero m = let (res, ptr) = scan 256 m.words m.ptr 0 in (res, record m { ptr = ptr })

-- The loop `for (i=0 ; i<8 ; i++)` over the maps from the `i`-th on: the map and the bit that it
-- stops at, and the maps as the searches leave them.
pub search_maps : ℕ → List (Option Map) → Option (ℕ × ℕ) × List (Option Map)
search_maps i [] = (none, [])
search_maps i (none ∷ ms) = let (r, ms') = search_maps (i + 1) ms in (r, none ∷ ms')
search_maps i (some m ∷ ms) =
    let (j, m') = find_first_zero m in
    let (r, ms') = search_maps (i + 1) ms in
    if ltb j bits_per_map then (some (i, j), some m' ∷ ms) else (r, some m' ∷ ms')

-- The fields of `struct super_block` that are read.
pub record Super : Type 0 where
  pub ninodes : ℕ
  pub nzones : ℕ
  pub firstdatazone : ℕ
  pub imap : List (Option Map)
  pub zmap : List (Option Map)

abbrev pub with_map : List (Option Map) → ℕ → Map → List (Option Map)
with_map ms i m = set ms i (some m)

-- `none` for a missing map or one behind the eighth.
abbrev pub map_at : List (Option Map) → ℕ → Option Map
map_at ms i = get_or ms i none

pub data NewBlock : Type 0 where
  no_block : Super → NewBlock
  bit_already_set : NewBlock
  bad_buffer : NewBlock
  block : ℕ → Super → NewBlock

-- With the map `m` and the bit `j` at hand. `getblk` gives the use count of the buffer of a block,
-- `none` if there is no buffer; the block is then cleared, marked dirty and released.
mark_block : (ℕ → Option ℕ) → Super → List (Option Map) → ℕ → ℕ → Map → NewBlock
mark_block getblk sb ms i j m =
    let (was_set, m') = set_bit j m in
    let sb' = record sb { zmap = with_map ms i (record m' { dirty = true }) } in
    let nr = j + i * bits_per_map + sb.firstdatazone - 1 in
    let found : NewBlock = elim (getblk nr) [
      | none ↦ bad_buffer
      | some count ↦ if count == 1 then block nr sb' else bad_buffer
    ] in
    if was_set then bit_already_set else if leb sb.nzones nr then no_block sb' else found

-- After the search, with its result.
mark_found : (ℕ → Option ℕ) → Super → Option (ℕ × ℕ) × List (Option Map) → NewBlock
mark_found getblk sb (none, ms) = no_block (record sb { zmap = ms })
mark_found getblk sb (some (i, j), ms) = elim (map_at ms i) [
  | none ↦ no_block (record sb { zmap = ms })
  | some m ↦ mark_block getblk sb ms i j m
]

pub minix_new_block : (ℕ → Option ℕ) → Super → NewBlock
minix_new_block getblk sb = mark_found getblk sb (search_maps 0 sb.zmap)

pub data FreeBlock : Type 0 where
  not_in_datazone : FreeBlock
  in_use : FreeBlock
  no_map : FreeBlock
  freed : Super → Bool → FreeBlock

clear_zone : Super → ℕ → Option Map → FreeBlock
clear_zone sb zone none = no_map
clear_zone sb zone (some m) =
    let (was_clear, m') = clear_bit (zone % bits_per_map) m in
    freed (record sb { zmap = with_map sb.zmap (zone / bits_per_map) (record m' { dirty = true }) })
      was_clear

-- `cached` is the use count of the block's buffer, `none` if it has none; `freed` says whether the
-- bit was already clear. A missing map is dereferenced without a test: `no_map`.
unfoldable pub minix_free_block : (ℕ → Option ℕ) → Super → ℕ → FreeBlock
unfolding clear_bit clear_zone
minix_free_block cached sb nr =
    let zone = nr - sb.firstdatazone + 1 in
    let busy : Bool = elim (cached nr) [ none ↦ false | some count ↦ ltb 1 count ] in
    if ltb nr sb.firstdatazone || leb sb.nzones nr
    then not_in_datazone
    else if busy
    then in_use
    else clear_zone sb zone (map_at sb.zmap (zone / bits_per_map))
