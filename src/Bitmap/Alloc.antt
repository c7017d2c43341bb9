-- ===== src/Bitmap/Alloc.antt =====
-- What `minix_new_block` does to the map: it does not mark the block that it returns.
use linux.Base.{
  ℕ, ◌+◌, ◌-◌, ◌*◌, ◌/◌, ◌%◌, ◌<◌, ◌≡◌, refl, ap, sym, ◌∙◌, inl, inr, true, Option, some, List, ◌∷◌,
  get_or, arith, lt→ltb,
}
use linux.Base.Bits.{bit}
use linux.Bitmap.{
  Map, Super, set_bit, find_first_zero, minix_new_block, block, map_at, with_map, bits_per_map,
  mark_block, mark_found, search_maps,
}
use linux.Bitmap.Find.{AreWords, find_first_zero_lem}
use linux.Bitmap.Free.{get_or-set_ne}

-- The bit that `find_first_zero` returns stays clear when `set_bit` is called with its number,
-- since `b_data` has been moved.
lost_bit :
    (m : Map) (j : ℕ)
    → AreWords m.words
    → (find_first_zero m).0 ≡ j
    → j < bits_per_map
    → bit (get_or (set_bit j (find_first_zero m).1).1.words (m.ptr + j / 32) 0) (j % 32) ≡ 0
unfolding set_bit find_first_zero
lost_bit m j w e h = elim (find_first_zero_lem m w) [
  | inr a ↦ absurd (omega (arith, a.result))
  | inl z ↦
      let word : j / 32 ≡ z.index = omega (arith, z.result, z.in_range.1) in
      let low : j % 32 ≡ z.low = omega (arith, z.result, z.in_range.1) in
      rw
        (
          get_or-set_ne m.words ((find_first_zero m).1.ptr + j / 32) (m.ptr + j / 32) _
              (omega (arith, z.behind)),
          word,
          low,
        )
        z.is_zero
]

search_maps-hit :
    (i : ℕ) (m : Map) (ms : List (Option Map))
    → (find_first_zero m).0 < bits_per_map
    → search_maps i (some m ∷ ms)
      ≡ (some (i, (find_first_zero m).0), some (find_first_zero m).1 ∷ ms)
unfolding search_maps
search_maps-hit i m ms h = rw (lt→ltb _ _ h)

mark_block-block :
    (getblk : ℕ → Option ℕ) (sb sb' : Super) (ms : List (Option Map)) (i j nr : ℕ) (m : Map)
    → mark_block getblk sb ms i j m ≡ block nr sb'
    → (nr ≡ j + i * bits_per_map + sb.firstdatazone - 1)
      × (sb'.zmap ≡ with_map ms i (record (set_bit j m).1 { dirty = true }))
unfolding mark_block
mark_block-block getblk sb sb' ms i j nr m e = ground arith

-- If the first map has a zero bit and `minix_new_block` returns a block (it may also panic or return
-- 0), then that is the block of the first zero bit, but the bit is still clear in the map that it
-- leaves: the block is not marked as used.
pub new_block-lost :
    (getblk : ℕ → Option ℕ) (sb sb' : Super) (m : Map) (rest : List (Option Map)) (nr : ℕ)
    → AreWords m.words
    → (find_first_zero m).0 < bits_per_map
    → minix_new_block getblk (record sb { zmap = some m ∷ rest }) ≡ block nr sb'
    → let j = (find_first_zero m).0 in
      (nr ≡ j + sb.firstdatazone - 1)
      × ((m' : Map) × (map_at sb'.zmap 0 ≡ some m')
          × (bit (get_or m'.words (m.ptr + j / 32) 0) (j % 32) ≡ 0))
unfolding minix_new_block mark_found
new_block-lost getblk sb sb' m rest nr w h e =
    let r =
      mark_block-block getblk (record sb { zmap = some m ∷ rest }) sb'
        (some (find_first_zero m).1 ∷ rest) 0 (find_first_zero m).0 nr (find_first_zero m).1
        (ap (mark_found getblk (record sb { zmap = some m ∷ rest }))
            (sym (search_maps-hit 0 m rest h))
          ∙ e) in
    (
      omega (arith, r.0),
      (
        record (set_bit (find_first_zero m).0 (find_first_zero m).1).1 { dirty = true },
        ap (λ l. map_at l 0) r.1,
        lost_bit m (find_first_zero m).0 w refl h,
      ),
    )
