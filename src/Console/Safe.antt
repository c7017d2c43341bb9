-- ===== src/Console/Safe.antt =====
-- kernel/chr_drv/console.c: what holds of a console between two operations, and what an operation
-- may do to memory.
pub mod Moves
pub mod Scrolling
pub mod Editing
pub mod Writing
pub mod Sequences
use native.Mathlib.Decide.{ℕ_discrete}
use linux.Base.{
  ℕ, zero, suc, ◌+◌, ◌-◌, ◌*◌, ◌≤◌, ◌<◌, ◌≡◌, ◌≢◌, refl, sym, ap, ◌∙◌, ◌⊎◌, inl, inr, Bool, true,
  false, ◌==◌, if◌then◌else◌, arith,
}
use linux.Console.{Video, Screen, store_word, fill_up, fill_down, copy_up, copy_down}

-- A text screen with a row of memory for each line.
pub record IsVideo (v : Video) : Type 0 where
  pub wide : 8 ≤ v.columns
  pub some_lines : 1 ≤ v.lines
  pub row : v.size_row ≡ 2 * v.columns

-- The cursor is on the screen, or behind the end of a line; the scrolling region is not empty; `pos`
-- and `scr_end` are where the cursor and the screen end; the screen lies in the video memory.
pub record Fits (v : Video) (x y top bottom pos origin scr_end mem_start mem_end : ℕ) : Type 0 where
  pub x_in : x ≤ v.columns
  pub y_in : y < v.lines
  pub region : top < bottom
  pub bottom_in : bottom ≤ v.lines
  pub at_cursor : pos ≡ origin + y * v.size_row + 2 * x
  pub at_end : scr_end ≡ origin + v.lines * v.size_row
  pub starts_in : mem_start ≤ origin
  pub ends_in : scr_end ≤ mem_end

abbrev pub IsValid : Video → Screen → Type 0
IsValid v s = Fits v s.x s.y s.top s.bottom s.pos s.origin s.scr_end s.mem_start s.mem_end

-- The word at `a` is not wholly in the video memory of the console.
abbrev pub Outside : Screen → ℕ → Type 0
Outside s a = (a < s.mem_start) ⊎ (s.mem_end < a + 2)

pub record Safe (v : Video) (s s' : Screen) : Type 0 where
  pub valid : IsValid v s'
  pub same_start : s'.mem_start ≡ s.mem_start
  pub same_end : s'.mem_end ≡ s.mem_end
  pub kept : (a : ℕ) → Outside s a → s'.mem a ≡ s.mem a

-- An operation that writes nothing.
pub Safe_same :
    (v : Video) (s s' : Screen)
    → IsValid v s'
    → s'.mem_start ≡ s.mem_start
    → s'.mem_end ≡ s.mem_end
    → s'.mem ≡ s.mem
    → Safe v s s'
Safe_same v s s' h p q e = record {
  valid = h;
  same_start = p;
  same_end = q;
  kept = λ a o. ap (λ m. m a) e;
}

pub Safe_trans : (v : Video) (s t u : Screen) → Safe v s t → Safe v t u → Safe v s u
Safe_trans v s t u p q = record {
  valid = q.valid;
  same_start = q.same_start ∙ p.same_start;
  same_end = q.same_end ∙ p.same_end;
  kept = λ a o. q.kept a (rw (p.same_start, p.same_end) o) ∙ p.kept a o;
}

pub Safe_if :
    {v : Video} {s t u : Screen} (b : Bool)
    → Safe v s t
    → Safe v s u
    → Safe v s (if b then t else u)
Safe_if true p q = p
Safe_if false p q = q

-- `a` is not the address of one of the `n` words from `addr` up.
abbrev pub Beside : ℕ → ℕ → ℕ → Type 0
Beside n addr a = (a < addr) ⊎ (addr + 2 * n < a + 2)

store_other : (addr v a : ℕ) (mem : ℕ → ℕ) → a ≢ addr → store_word addr v mem a ≡ mem a
store_other addr v a mem h = ground arith

pub fill_up-Beside :
    (n addr v a : ℕ) (mem : ℕ → ℕ) → Beside n addr a → fill_up n addr v mem a ≡ mem a
unfolding fill_up
fill_up-Beside zero addr v a mem h = refl
fill_up-Beside (suc n) addr v a mem h =
    fill_up-Beside n (addr + 2) v a (store_word addr v mem) (ground arith)
    ∙ store_other addr v a mem (ground arith)

pub fill_down-Beside :
    (n low v a : ℕ) (mem : ℕ → ℕ) → Beside n low a → fill_down n (low + 2 * n - 2) v mem a ≡ mem a
unfolding fill_down
fill_down-Beside zero low v a mem h = refl
fill_down-Beside (suc n) low v a mem h =
    let e : low + 2 * suc n - 2 - 2 ≡ low + 2 * n - 2 = omega arith in
    rw e (fill_down-Beside n low v a (store_word (low + 2 * suc n - 2) v mem) (ground arith))
    ∙ store_other (low + 2 * suc n - 2) v a mem (ground arith)

pub copy_up-Beside :
    (n dst src a : ℕ) (mem : ℕ → ℕ) → Beside (2 * n) dst a → copy_up n dst src mem a ≡ mem a
unfolding copy_up
copy_up-Beside zero dst src a mem h = refl
copy_up-Beside (suc n) dst src a mem h =
    copy_up-Beside n (dst + 4) (src + 4) a _ (ground arith)
    ∙ store_other (dst + 2) (mem (src + 2)) a (store_word dst (mem src) mem) (ground arith)
    ∙ store_other dst (mem src) a mem (ground arith)

pub copy_down-Beside :
    (n low src a : ℕ) (mem : ℕ → ℕ)
    → Beside (2 * n) low a
    → copy_down n (low + 4 * n - 4) src mem a ≡ mem a
unfolding copy_down
copy_down-Beside zero low src a mem h = refl
copy_down-Beside (suc n) low src a mem h =
    let e : low + 4 * suc n - 4 - 4 ≡ low + 4 * n - 4 = omega arith in
    let top = low + 4 * suc n - 4 in
    rw e (copy_down-Beside n low (src - 4) a _ (ground arith))
    ∙ store_other (top + 2) (mem (src + 2)) a (store_word top (mem src) mem) (ground arith)
    ∙ store_other top (mem src) a mem (ground arith)
