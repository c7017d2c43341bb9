-- ===== src/Bitmap/Free.antt =====
-- `set_bit` and `clear_bit` change one bit of a map; `minix_free_block` frees one block.
use native.Mathlib.Decide.{ℕ_discrete}
use linux.Base.{
  ℕ, zero, suc, ◌+◌, ◌-◌, ◌/◌, ◌%◌, ◌≤◌, ◌<◌, ◌≡◌, ◌≢◌, refl, ap, ◌∙◌, Bool, true, false, not,
  Option, none, some, List, [], ◌∷◌, get_or, set, ◌==◌, length, if◌then◌else◌, arith,
}
use linux.Base.Bits.{bit, bit_not, bit_and, bit_or, one_shl}
use linux.Base.Masks.{bit-clear_bit, bit-set_bit, test_bit}
use linux.Bitmap.{
  Map, Super, word_at, set_bit, clear_bit, minix_free_block, freed, map_at, with_map, bits_per_map,
  clear_zone,
}

-- Bit `nr` of a map, counted from `b_data`.
abbrev pub bit_of : Map → ℕ → ℕ
bit_of m nr = bit (word_at m nr) (nr % 32)

pub get_or-set_self : (xs : List ℕ) (i v : ℕ) → i < length xs → get_or (set xs i v) i 0 ≡ v
get_or-set_self [] i v h = absurd (omega arith)
get_or-set_self (x ∷ xs) zero v h = refl
get_or-set_self (x ∷ xs) (suc i) v h = get_or-set_self xs i v (omega arith)

pub get_or-set_ne : (xs : List ℕ) (i j v : ℕ) → i ≢ j → get_or (set xs i v) j 0 ≡ get_or xs j 0
get_or-set_ne [] i j v h = refl
get_or-set_ne (x ∷ xs) zero zero v h = absurd (h refl)
get_or-set_ne (x ∷ xs) zero (suc j) v h = refl
get_or-set_ne (x ∷ xs) (suc i) zero v h = refl
get_or-set_ne (x ∷ xs) (suc i) (suc j) v h = get_or-set_ne xs i j v (λ e. h (ap suc e))

-- The word of `nr` is replaced by one in which bit `nr % 32` is `v` and the others are as before.
replace_bit :
    (m : Map) (nr i w v : ℕ)
    → m.ptr + nr / 32 < length m.words
    → ((j : ℕ) → j < 32 → bit w j ≡ (if j == nr % 32 then v else bit (word_at m nr) j))
    → bit (get_or (set m.words (m.ptr + nr / 32) w) (m.ptr + i / 32) 0) (i % 32)
      ≡ (if i == nr then v else bit_of m i)
replace_bit m nr i w v h b = elim (ℕ_discrete (i / 32) (nr / 32)) [
  | yes p ↦
      rw (p, get_or-set_self m.words (m.ptr + nr / 32) w h, b (i % 32) (omega arith))
        (elim (ℕ_discrete i nr) [
          | yes q ↦ rw q (ground arith)
          | no q ↦
              let other : (i == nr) ≡ false = ground arith in
              let low : (i % 32 == nr % 32) ≡ false = ground arith in rw (other, low) refl
        ])
  | no p ↦
      let other : (i == nr) ≡ false = ground arith in
      rw (get_or-set_ne m.words (m.ptr + nr / 32) (m.ptr + i / 32) w (omega arith), other) refl
]

-- `clear_bit` says whether the bit was clear, clears it, and leaves every other bit of the map.
pub clear_bit_lem :
    (nr i : ℕ) (m : Map)
    → m.ptr + nr / 32 < length m.words
    → let (was_clear, m') = clear_bit nr m in
      (was_clear ≡ (bit_of m nr == 0)) × (bit_of m' i ≡ (if i == nr then 0 else bit_of m i))
unfolding clear_bit
clear_bit_lem nr i m h = (
  test_bit (word_at m nr) (nr % 32),
  replace_bit m nr i (bit_and (word_at m nr) (bit_not 32 (one_shl (nr % 32)))) 0 h
      λ j l. bit-clear_bit 32 (word_at m nr) (nr % 32) j (omega arith) l,
)

-- `set_bit` says whether the bit was set, sets it, and leaves every other bit of the map.
pub set_bit_lem :
    (nr i : ℕ) (m : Map)
    → m.ptr + nr / 32 < length m.words
    → let (was_set, m') = set_bit nr m in
      (was_set ≡ not (bit_of m nr == 0)) × (bit_of m' i ≡ (if i == nr then 1 else bit_of m i))
unfolding set_bit
set_bit_lem nr i m h = (
  ap not (test_bit (word_at m nr) (nr % 32)),
  replace_bit m nr i (bit_or (word_at m nr) (one_shl (nr % 32))) 1 h
      λ j l. bit-set_bit (word_at m nr) (nr % 32) j,
)

-- The bit that stands for a block.
abbrev pub zone_of : Super → ℕ → ℕ
zone_of sb nr = nr - sb.firstdatazone + 1

clear_zone-map :
    (sb sb' : Super) (zone : ℕ) (was : Bool) (o : Option Map)
    → clear_zone sb zone o ≡ freed sb' was
    → (m : Map) × (o ≡ some m)
      × (was ≡ (clear_bit (zone % bits_per_map) m).0)
      × (sb' ≡ record sb {
        zmap =
            with_map sb.zmap
              (zone / bits_per_map)
              (record (clear_bit (zone % bits_per_map) m).1 { dirty = true });
      })
unfolding clear_zone
clear_zone-map sb sb' zone was none e = cc
clear_zone-map sb sb' zone was (some m) e = (m, refl, cc, cc)

map_at-set :
    (ms : List (Option Map)) (k : ℕ) (m m' : Map)
    → map_at ms k ≡ some m
    → map_at (with_map ms k m') k ≡ some m'
map_at-set [] k m m' e = cc
map_at-set (x ∷ ms) zero m m' e = refl
map_at-set (x ∷ ms) (suc k) m m' e = map_at-set ms k m m' e

map_at-set_ne :
    (ms : List (Option Map)) (k l : ℕ) (m' : Map)
    → k ≢ l
    → map_at (with_map ms k m') l ≡ map_at ms l
map_at-set_ne [] k l m' h = refl
map_at-set_ne (x ∷ ms) zero zero m' h = absurd (h refl)
map_at-set_ne (x ∷ ms) zero (suc l) m' h = refl
map_at-set_ne (x ∷ ms) (suc k) zero m' h = refl
map_at-set_ne (x ∷ ms) (suc k) (suc l) m' h = map_at-set_ne ms k l m' (λ e. h (ap suc e))

free_block-zone :
    (cached : ℕ → Option ℕ) (sb sb' : Super) (nr : ℕ) (was : Bool)
    → minix_free_block cached sb nr ≡ freed sb' was
    → (sb.firstdatazone ≤ nr)
      × (nr < sb.nzones)
      × (clear_zone sb (zone_of sb nr) (map_at sb.zmap (zone_of sb nr / bits_per_map))
          ≡ freed sb' was)
unfolding minix_free_block
free_block-zone cached sb sb' nr was e = ground arith

-- What `minix_free_block` did when it freed the block of bit `bit` in the map `k`.
pub record Freed (sb sb' : Super) (k nr : ℕ) (was_clear : Bool) : Type 0 where
  pub before : Map
  pub after : Map
  pub had : map_at sb.zmap k ≡ some before
  pub has : map_at sb'.zmap k ≡ some after
  pub told : was_clear ≡ (bit_of before nr == 0)
  pub cleared : (i : ℕ) → bit_of after i ≡ (if i == nr then 0 else bit_of before i)
  pub others : (l : ℕ) → k ≢ l → map_at sb'.zmap l ≡ map_at sb.zmap l

-- If `minix_free_block` frees a block whose bit, counted from where `b_data` of its map points, lies
-- in the words of the map, then the block lies in the data zone; the bit is cleared, with every other
-- bit of that map and every other map as it was; and it tells whether the bit was clear before.
pub minix_free_block-Freed :
    (cached : ℕ → Option ℕ) (sb sb' : Super) (nr : ℕ) (was : Bool)
    → ((m : Map)
        → map_at sb.zmap (zone_of sb nr / bits_per_map) ≡ some m
        → m.ptr + zone_of sb nr % bits_per_map / 32 < length m.words)
    → minix_free_block cached sb nr ≡ freed sb' was
    → (sb.firstdatazone ≤ nr)
      × (nr < sb.nzones)
      × Freed sb sb' (zone_of sb nr / bits_per_map) (zone_of sb nr % bits_per_map) was
minix_free_block-Freed cached sb sb' nr was inside e =
    let (low, high, c) = free_block-zone cached sb sb' nr was e in
    let zone = zone_of sb nr in
    let (m, had, told, is) =
      clear_zone-map sb sb' zone was (map_at sb.zmap (zone / bits_per_map)) c in
    let m' : Map = record (clear_bit (zone % bits_per_map) m).1 { dirty = true } in
    (
      low,
      high,
      record {
        before = m;
        after = m';
        had = had;
        has =
            ap (λ (s : Super). map_at s.zmap (zone / bits_per_map)) is
            ∙ map_at-set sb.zmap (zone / bits_per_map) m m' had;
        told = told ∙ (clear_bit_lem (zone % bits_per_map) 0 m (inside m had)).0;
        cleared = λ i. (clear_bit_lem (zone % bits_per_map) i m (inside m had)).1;
        others = λ l ne.
            ap (λ (s : Super). map_at s.zmap l) is
            ∙ map_at-set_ne sb.zmap (zone / bits_per_map) l m' ne;
      },
    )
