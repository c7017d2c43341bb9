-- ===== src/Console/Safe/Editing.antt =====
-- kernel/chr_drv/console.c: erasing, inserting and deleting stay within the video memory.
use linux.Base.{
  ℕ, zero, suc, ◌+◌, ◌-◌, ◌*◌, ◌≤◌, ◌≡◌, refl, ◌∙◌, leb, ◌==◌, arith, Bool-cases, inl, inr,
}
use linux.Console.{Video, Screen, store_word}
use linux.Console.Scroll.{insert_line, delete_line}
use linux.Console.Edit.{
  erase, csi_J, csi_K, shift_right, insert_char, shift_left, delete_char, times, clip, csi_at,
  csi_L, csi_P, csi_M,
}
use linux.Console.Safe.{
  IsVideo, IsValid, Safe, Safe_same, Safe_trans, Safe_if, Beside, fill_up-Beside, store_other,
}
use linux.Console.Safe.Moves.{row_end, cursor_end}
use linux.Console.Safe.Scrolling.{Outside-Beside, insert_line-Safe, delete_line-Safe}

erase-Safe :
    (v : Video) (n start : ℕ) (s : Screen)
    → IsValid v s
    → s.mem_start ≤ start
    → start + 2 * n ≤ s.mem_end
    → Safe v s (erase n start s)
erase-Safe v n start s h low high = record {
  valid = h;
  same_start = refl;
  same_end = refl;
  kept = λ a o. fill_up-Beside n start s.erase_char a s.mem (Outside-Beside n start a s low high o);
}

pub csi_J-Safe :
    (v : Video) (vpar : ℕ) (s : Screen) → IsVideo v → IsValid v s → Safe v s (csi_J v vpar s)
unfolding csi_J
csi_J-Safe v vpar s i h =
    let size : 2 * (v.columns * v.lines) ≡ v.lines * v.size_row = rw i.row (grind arith) in
    Safe_if (vpar == 0)
      (erase-Safe v _ s.pos s h (omega (arith, h.at_cursor, h.starts_in))
        (omega (arith, cursor_end v s i h, h.ends_in)))
      (Safe_if (vpar == 1)
        (erase-Safe v _ s.origin s h h.starts_in
          (omega (arith, cursor_end v s i h, h.at_cursor, h.ends_in)))
        (Safe_if (vpar == 2)
          (erase-Safe v _ s.origin s h h.starts_in (omega (arith, size, h.at_end, h.ends_in)))
          (Safe_same v s s h refl refl refl)))

pub csi_K-Safe :
    (v : Video) (vpar : ℕ) (s : Screen) → IsVideo v → IsValid v s → Safe v s (csi_K v vpar s)
unfolding csi_K
csi_K-Safe v vpar s i h =
    let row = row_end v s h in
    Safe_if (vpar == 0)
      (Safe_if (leb v.columns s.x) (Safe_same v s s h refl refl refl) (
        erase-Safe v _ s.pos s h (omega (arith, h.at_cursor, h.starts_in))
          (omega (arith, row, h.at_cursor, h.ends_in, i.row, h.x_in))))
      (Safe_if (vpar == 1)
        (erase-Safe v _ (s.pos - 2 * s.x) s h (omega (arith, h.at_cursor, h.starts_in))
          (ground (arith, row, h.at_cursor, h.ends_in, i.row)))
        (Safe_if (vpar == 2)
          (erase-Safe v _ (s.pos - 2 * s.x) s h (omega (arith, h.at_cursor, h.starts_in))
            (omega (arith, row, h.at_cursor, h.ends_in, i.row)))
          (Safe_same v s s h refl refl refl)))

shift_right-Beside :
    (n p old a : ℕ) (mem : ℕ → ℕ) → Beside n p a → shift_right n p old mem a ≡ mem a
unfolding shift_right
shift_right-Beside zero p old a mem h = refl
shift_right-Beside (suc n) p old a mem h =
    shift_right-Beside n (p + 2) (mem p) a (store_word p old mem) (ground arith)
    ∙ store_other p old a mem (ground arith)

shift_left-Beside :
    (n p blank a : ℕ) (mem : ℕ → ℕ) → Beside (suc n) p a → shift_left n p blank mem a ≡ mem a
unfolding shift_left
shift_left-Beside zero p blank a mem h = store_other p blank a mem (ground arith)
shift_left-Beside (suc n) p blank a mem h =
    shift_left-Beside n (p + 2) blank a (store_word p (mem (p + 2)) mem) (ground arith)
    ∙ store_other p (mem (p + 2)) a mem (ground arith)

-- The words from the cursor to the end of its line lie in the video memory.
rest_of_line :
    (v : Video) (s : Screen)
    → IsVideo v
    → IsValid v s
    → (s.mem_start ≤ s.pos) × (s.pos + 2 * (v.columns - s.x) ≤ s.mem_end)
rest_of_line v s i h = (
  omega (arith, h.at_cursor, h.starts_in),
  omega (arith, row_end v s h, h.at_cursor, h.ends_in, i.row, h.x_in),
)

insert_char-Safe : (v : Video) (s : Screen) → IsVideo v → IsValid v s → Safe v s (insert_char v s)
unfolding insert_char
insert_char-Safe v s i h =
    let (low, high) = rest_of_line v s i h in
    record {
      valid = h;
      same_start = refl;
      same_end = refl;
      kept = λ a o.
          shift_right-Beside (v.columns - s.x) s.pos s.erase_char a s.mem
            (Outside-Beside (v.columns - s.x) s.pos a s low high o);
    }

delete_char-Safe : (v : Video) (s : Screen) → IsVideo v → IsValid v s → Safe v s (delete_char v s)
unfolding delete_char
delete_char-Safe v s i h = elim (Bool-cases (leb v.columns s.x)) [
  | inl at_end ↦ rw at_end (Safe_same v s s h refl refl refl)
  | inr on ↦
      let (low, high) = rest_of_line v s i h in
      let e : suc (v.columns - s.x - 1) ≡ v.columns - s.x = ground arith in
      rw on (record {
        valid = h;
        same_start = refl;
        same_end = refl;
        kept = λ a o.
            shift_left-Beside (v.columns - s.x - 1) s.pos s.erase_char a s.mem
              (rw e (Outside-Beside (v.columns - s.x) s.pos a s low high o));
      })
]

module _ (v : Video) (f : Screen → Screen)
    (safe : (s : Screen) → IsValid v s → Safe v s (f s)) where
  times-Safe : (n : ℕ) (s : Screen) → IsValid v s → Safe v s (times n f s)
  unfolding times
  times-Safe zero s h = Safe_same v s s h refl refl refl
  times-Safe (suc n) s h =
      let one = safe s h in
      Safe_trans v s (f s) (times n f (f s)) one (times-Safe n (f s) one.valid)

module _ (v : Video) (nr : ℕ) (s : Screen) (i : IsVideo v) (h : IsValid v s) where
  pub csi_at-Safe : Safe v s (csi_at v nr s)
  unfolding csi_at
  csi_at-Safe = times-Safe v (insert_char v) (λ t. insert_char-Safe v t i) (clip v.columns nr) s h

  pub csi_L-Safe : Safe v s (csi_L v nr s)
  unfolding csi_L
  csi_L-Safe = times-Safe v (insert_line v) (λ t. insert_line-Safe v t i) (clip v.lines nr) s h

  pub csi_P-Safe : Safe v s (csi_P v nr s)
  unfolding csi_P
  csi_P-Safe = times-Safe v (delete_char v) (λ t. delete_char-Safe v t i) (clip v.columns nr) s h

  pub csi_M-Safe : Safe v s (csi_M v nr s)
  unfolding csi_M
  csi_M-Safe = times-Safe v (delete_line v) (λ t. delete_line-Safe v t i) (clip v.lines nr) s h
