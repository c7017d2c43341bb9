-- ===== src/Bitmap/Tests.antt =====
-- Tests of the bitmaps of fs/minix/bitmap.c.
use linux.Base.{
  zero, suc, ◌+◌, ◌-◌, ◌≤◌, ◌<◌, ◌≡◌, refl, arith, none, some, [], ◌∷◌, true, false, get_or, length,
  ◌/◌, ◌%◌,
}
use linux.Base.Bits.{bit, one_shl, ones, bit_not}
use linux.Bitmap.{
  Map, Super, bits_per_map, find_first_zero, set_bit, clear_bit, minix_new_block, map_at,
  minix_free_block, scan, bsf, search_maps, mark_found, mark_block,
}
use linux.Bitmap.Find.{AreWords, Scanned, find_first_zero_lem}
use linux.Bitmap.Free.{Freed, zone_of, minix_free_block-Freed}
use linux.Bitmap.Alloc.{new_block-lost}

-- The low 33 bits of the map are set, and bit 34.
abbrev used : Map
used = record { words = 0xffffffff ∷ 5 ∷ 0 ∷ 0 ∷ []; ptr = 0; dirty = false }

used-AreWords : AreWords used.words
unfolding ones
used-AreWords zero = omega arith
used-AreWords (suc zero) = omega arith
used-AreWords (suc (suc zero)) = omega arith
used-AreWords (suc (suc (suc zero))) = omega arith
used-AreWords (suc (suc (suc (suc i)))) = omega arith

find_first_zero_lem_example :
    let (res, m') = find_first_zero used in Scanned used.words 0 256 0 (res, m'.ptr)
find_first_zero_lem_example = find_first_zero_lem used used-AreWords

abbrev disk : Super
disk = record { ninodes = 64; nzones = 100; firstdatazone = 10; imap = []; zmap = some used ∷ [] }

abbrev disk_after : Super
disk_after = record disk {
  zmap = some (record { words = 0xffffffff ∷ 1 ∷ 0 ∷ 0 ∷ []; ptr = 0; dirty = true }) ∷ [];
}

used-inside :
    (m : Map)
    → map_at disk.zmap (zone_of disk 43 / bits_per_map) ≡ some m
    → m.ptr + zone_of disk 43 % bits_per_map / 32 < length m.words
used-inside m e = ground (arith, e)

minix_free_block-Freed_example :
    (10 ≤ 43)
    × (43 < 100)
    × Freed disk disk_after (zone_of disk 43 / bits_per_map) (zone_of disk 43 % bits_per_map) false
unfolding minix_free_block clear_bit one_shl bit_not
minix_free_block-Freed_example =
    minix_free_block-Freed (λ nr. none) disk disk_after 43 false used-inside refl

-- The map after the allocation: bit 33 is clear, and bit 97 is set.
abbrev disk_lost : Super
disk_lost = record disk {
  zmap = some (record { words = 0xffffffff ∷ 5 ∷ 0 ∷ 2 ∷ []; ptr = 2; dirty = true }) ∷ [];
}

new_block-lost_example :
    (42 ≡ 33 + 10 - 1)
    × ((m' : Map) × (map_at disk_lost.zmap 0 ≡ some m') × (bit (get_or m'.words 1 0) 1 ≡ 0))
unfolding minix_new_block search_maps find_first_zero scan bsf set_bit one_shl bit_not mark_found
    mark_block ones
new_block-lost_example =
    new_block-lost (λ nr. some 1) disk disk_lost used [] 42 used-AreWords (omega arith) refl
