-- ===== src/String/Move.antt =====
-- include/string.h: the functions on blocks of memory.
use linux.Base.{
  ℕ, zero, suc, ◌+◌, ◌-◌, ◌≤◌, ◌≡◌, ◌⊎◌, inl, inr, Bool, true, false, ◌&&◌, ◌||◌, refl, ◌∙◌, ltb,
  leb, ◌==◌, if-cases, if◌then◌else◌, arith, ◌%◌,
}
use linux.String.{Memory, store_byte, rep_movsb, rep_movsb_down, rep_stosb}

unfoldable pub memcpy : ℕ → ℕ → ℕ → Memory → Memory
unfolding rep_movsb
memcpy dest src n mem = rep_movsb n dest src mem

unfoldable pub memmove : ℕ → ℕ → ℕ → Memory → Memory
unfolding rep_movsb rep_movsb_down
memmove dest src n mem =
    if dest == src || n == 0
    then mem
    else if ltb dest src
    then rep_movsb n dest src mem
    else rep_movsb_down n (dest + n - 1) (src + n - 1) mem

unfoldable pub memset : ℕ → ℕ → ℕ → Memory → Memory
unfolding rep_stosb
memset s c count mem = rep_stosb count (c % 256) s mem

-- Whether an address is in a block.
abbrev pub inside : ℕ → ℕ → ℕ → Bool
inside start n a = leb start a && ltb a (start + n)

-- The memory with the block at `dest` as the block at `src` was.
unfoldable pub moved : ℕ → ℕ → ℕ → Memory → Memory
moved dest src n mem a = if inside dest n a then mem (src + (a - dest)) else mem a

-- The memory with a block of one byte.
unfoldable pub filled : ℕ → ℕ → ℕ → Memory → Memory
filled s c n mem a = if inside s n a then c else mem a

-- A block that moves down, or away, may be moved from its first byte on.
moved_step :
    (d s n : ℕ) (mem : Memory) (a : ℕ)
    → (d ≤ s) ⊎ (s + suc n ≤ d)
    → moved (d + 1) (s + 1) n (store_byte d (mem s) mem) a ≡ moved d s (suc n) mem a
unfolding moved
moved_step d s n mem a h = grind arith

-- A block that moves up may be moved from its last byte on.
moved_step_down :
    (d s n edi esi : ℕ) (mem : Memory) (a : ℕ)
    → s ≤ d
    → edi ≡ d + n
    → esi ≡ s + n
    → moved d s n (store_byte edi (mem esi) mem) a ≡ moved d s (suc n) mem a
unfolding moved
moved_step_down d s n edi esi mem a h e f = grind arith

pub rep_movsb_lem :
    (n d s : ℕ) (mem : Memory) (a : ℕ)
    → (d ≤ s) ⊎ (s + n ≤ d)
    → rep_movsb n d s mem a ≡ moved d s n mem a
unfolding rep_movsb moved
rep_movsb_lem zero d s mem a h = ground arith
rep_movsb_lem (suc n) d s mem a h =
    rep_movsb_lem n (d + 1) (s + 1) (store_byte d (mem s) mem) a
      (elim h [ inl e ↦ inl (omega arith) | inr e ↦ inr (omega arith) ])
    ∙ moved_step d s n mem a h

pub rep_movsb_down_lem :
    (n d s edi esi : ℕ) (mem : Memory) (a : ℕ)
    → s ≤ d
    → edi ≡ d + n - 1
    → esi ≡ s + n - 1
    → rep_movsb_down n edi esi mem a ≡ moved d s n mem a
unfolding rep_movsb_down moved
rep_movsb_down_lem zero d s edi esi mem a h e f = ground arith
rep_movsb_down_lem (suc n) d s edi esi mem a h e f =
    rep_movsb_down_lem n d s (edi - 1) (esi - 1) (store_byte edi (mem esi) mem) a h (omega arith)
      (omega arith)
    ∙ moved_step_down d s n edi esi mem a h (omega arith) (omega arith)

pub rep_stosb_lem : (n c s : ℕ) (mem : Memory) (a : ℕ) → rep_stosb n c s mem a ≡ filled s c n mem a
unfolding rep_stosb filled
rep_stosb_lem zero c s mem a = ground arith
rep_stosb_lem (suc n) c s mem a = rep_stosb_lem n c (s + 1) (store_byte s c mem) a ∙ ground arith

-- `memmove` gives the block at `dest` the bytes that the block at `src` had, however the two
-- overlap, and leaves every other byte of memory alone.
pub memmove_lem :
    (dest src n : ℕ) (mem : Memory) (a : ℕ) → memmove dest src n mem a ≡ moved dest src n mem a
unfolding memmove moved
memmove_lem dest src n mem a =
    if-cases (λ (m : Memory). m a ≡ moved dest src n mem a) (dest == src || n == 0) _ _
      (λ e. same e)
      (λ _.
        if-cases (λ (m : Memory). m a ≡ moved dest src n mem a) (ltb dest src) _ _
          (λ e. rep_movsb_lem n dest src mem a (inl (ltb_le dest src e)))
          (λ e. rep_movsb_down_lem n dest src _ _ mem a (ltb_ge dest src e) refl refl))
  where
    same : (dest == src || n == 0) ≡ true → mem a ≡ moved dest src n mem a
    same e = grind arith

    ltb_le : (x y : ℕ) → ltb x y ≡ true → x ≤ y
    ltb_le x y e = ground arith

    ltb_ge : (x y : ℕ) → ltb x y ≡ false → y ≤ x
    ltb_ge x y e = ground arith

-- `memcpy` gives the block at `dest` the bytes that the block at `src` had, and leaves every other
-- byte of memory alone, where the block at `dest` does not begin inside the one at `src` after its
-- first byte.
pub memcpy_lem :
    (dest src n : ℕ) (mem : Memory) (a : ℕ)
    → (dest ≤ src) ⊎ (src + n ≤ dest)
    → memcpy dest src n mem a ≡ moved dest src n mem a
unfolding memcpy
memcpy_lem dest src n mem a h = rep_movsb_lem n dest src mem a h
