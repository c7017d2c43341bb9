-- ===== src/String/Copy/Whole.antt =====
-- include/string.h: `strcpy` and `strcat` copy the whole string.
use linux.Base.{
  ℕ, zero, suc, ◌+◌, ◌-◌, ◌≤◌, ◌<◌, ◌≡◌, ◌⊎◌, inl, inr, false, some, refl, sym, ◌∙◌, ap, arith,
}
use linux.String.{Memory, Flags, store_byte, rep_movsb, repne_scasb}
use linux.String.Search.{
  IsString, Without, FirstAt-head, FirstAt-tail, FirstAt-zero, repne_scasb-found,
}
use linux.String.Move.{moved, rep_movsb_lem}
use linux.String.Copy.{copy_string, strcpy, strcat}

-- A store outside the rest of a string leaves it as it is.
pub IsString-store_byte :
    (s n d v : ℕ) (mem : Memory)
    → (d < s) ⊎ (s + n < d)
    → IsString s n mem
    → IsString s n (store_byte d v mem)
unfolding Without
IsString-store_byte s n d v mem o f = record {
  here = there n (omega arith) ∙ f.here;
  before = λ i h e. f.before i h (sym (there i (omega arith)) ∙ e);
}
  where
    there : (i : ℕ) → i ≤ n → store_byte d v mem (s + i) ≡ mem (s + i)
    there i h = elim o [ inl u ↦ ground arith | inr u ↦ ground arith ]

-- The loop of `strcpy` copies the string and its zero byte, as `rep; movsb` does.
pub copy_string-rep_movsb :
    (fuel d s n : ℕ) (mem : Memory)
    → n < fuel
    → IsString s n mem
    → (d ≤ s) ⊎ (s + n < d)
    → copy_string fuel d s mem ≡ some (rep_movsb (suc n) d s mem)
unfolding copy_string rep_movsb
copy_string-rep_movsb zero d s n mem h f o = elim h [ ]
copy_string-rep_movsb (suc fuel) d s zero mem h f o = rw (copy_string, FirstAt-zero 0 s mem f) refl
copy_string-rep_movsb (suc fuel) d s (suc n) mem h f o =
    rw (copy_string, FirstAt-head 0 s n mem f)
      (copy_string-rep_movsb fuel (d + 1) (s + 1) n (store_byte d (mem s) mem) (omega arith)
        (IsString-store_byte (s + 1) n d (mem s) mem
          (elim o [ inl u ↦ inl (omega arith) | inr u ↦ inr (omega arith) ])
          (FirstAt-tail 0 s n mem f))
        (elim o [ inl u ↦ inl (omega arith) | inr u ↦ inr (omega arith) ]))

copy_string-moved :
    (fuel d s n : ℕ) (mem : Memory)
    → n < fuel
    → IsString s n mem
    → (d ≤ s) ⊎ (s + n < d)
    → copy_string fuel d s mem ≡ some (moved d s (suc n) mem)
copy_string-moved fuel d s n mem h f o = copy_string-rep_movsb fuel d s n mem h f o ∙ (λ i.
    some (λ a.
      rep_movsb_lem (suc n) d s mem a (elim o [ inl u ↦ inl u | inr u ↦ inr (omega arith) ]) i))

-- `strcpy` ends, with the string of `n` bytes and its zero byte at `dest`, and every other byte as
-- it was, where `dest` is not after the beginning of the string and before its end.
pub strcpy_lem :
    (fuel dest src n : ℕ) (mem : Memory)
    → n < fuel
    → IsString src n mem
    → (dest ≤ src) ⊎ (src + n < dest)
    → strcpy fuel dest src mem ≡ some (moved dest src (suc n) mem)
unfolding strcpy
strcpy_lem fuel dest src n mem h f o = copy_string-moved fuel dest src n mem h f o

-- `repne; scasb; decl` finds the end of a string.
pub end_of_string :
    (s m : ℕ) (mem : Memory)
    → m < 0xffffffff
    → IsString s m mem
    → (repne_scasb 0xffffffff 0 s false mem).at - 1 ≡ s + m
end_of_string s m mem h f =
    ap (λ (x : Flags). x.at - 1) (repne_scasb-found 0xffffffff 0 s m false mem h f) ∙ omega arith

-- `strcat` ends, with the string of `n` bytes and its zero byte at the end of the string of `m`
-- bytes at `dest`, and every other byte as it was, where that end is not after the beginning of
-- the string copied and before its end, and `m` is less than 0xffffffff.
pub strcat_lem :
    (fuel dest src m n : ℕ) (mem : Memory)
    → n < fuel
    → m < 0xffffffff
    → IsString dest m mem
    → IsString src n mem
    → (dest + m ≤ src) ⊎ (src + n < dest + m)
    → strcat fuel dest src mem ≡ some (moved (dest + m) src (suc n) mem)
unfolding strcat
strcat_lem fuel dest src m n mem h b g f o =
    ap (λ d. copy_string fuel d src mem) (end_of_string dest m mem b g)
    ∙ copy_string-moved fuel (dest + m) src n mem h f o
