-- ===== src/Console/Safe/Writing.antt =====
-- kernel/chr_drv/console.c: printing a character, with the wrap at the end of a line, and the other
-- control characters.
use linux.Base.{
  ℕ, ◌+◌, ◌-◌, ◌*◌, ◌≤◌, ◌<◌, ◌≡◌, refl, ◌∙◌, ◌||◌, ◌&&◌, ltb, leb, ◌==◌, arith, Bool-cases, inl,
  inr,
}
use linux.Console.{Video, Screen}
use linux.Console.Scroll.{lf, scrup, scrup_region, scroll_origin, scroll_lines_up}
use linux.Console.Print.{glyph, next_line, put, print, backspace, tab_width, tab, normal_char}
use linux.Console.Safe.{IsVideo, IsValid, Safe, Safe_same, Safe_trans, Safe_if, store_other}
use linux.Console.Safe.Moves.{Fits-at, row_end, cr-Safe, del-Safe}
use linux.Console.Safe.Scrolling.{lf-Safe}

x-lf : (v : Video) (s : Screen) → (lf v s).x ≡ s.x
unfolding lf scrup scrup_region scroll_origin scroll_lines_up
x-lf v s = ground arith

-- A line feed from a screen with the cursor moved within its line.
lf_from :
    (v : Video) (s : Screen) (k p : ℕ)
    → IsVideo v
    → IsValid v s
    → k ≤ v.columns
    → p ≡ s.origin + s.y * v.size_row + 2 * k
    → Safe v s (lf v (record s { x = k; pos = p }))
lf_from v s k p i h hk hp =
    let t : Screen = record s { x = k; pos = p } in
    let valid : IsValid v t = (rw hp (Fits-at v s k s.y h hk h.y_in)) in
    Safe_trans v s t (lf v t) (Safe_same v s t valid refl refl refl) (lf-Safe v t i valid)

put-Safe :
    (v : Video) (c : ℕ) (s : Screen)
    → IsVideo v
    → IsValid v s
    → s.x < v.columns
    → Safe v s (put c s)
put-Safe v c s i h on =
    let e : s.pos + 2 ≡ s.origin + s.y * v.size_row + 2 * (s.x + 1) = omega (arith, h.at_cursor) in
    let last : s.pos + 2 ≤ s.mem_end =
      omega (arith, row_end v s h, h.at_cursor, i.row, h.ends_in) in
    record {
      valid = (rw e (Fits-at v s (s.x + 1) s.y h (omega arith) h.y_in));
      same_start = refl;
      same_end = refl;
      kept = λ a o.
          store_other s.pos (glyph s.translate c + 256 * s.attr) a s.mem
            (ground (arith, h.at_cursor, h.starts_in));
    }

print-Safe : (v : Video) (c : ℕ) (s : Screen) → IsVideo v → IsValid v s → Safe v s (print v c s)
unfolding print
print-Safe v c s i h = elim (Bool-cases (leb v.columns s.x)) [
  | inl full ↦
      let t : Screen = next_line v s in
      let safe : Safe v s t =
        lf_from v s _ _ i h (omega (arith, h.x_in)) (ground (arith, h.at_cursor, i.row, h.x_in)) in
      let start : t.x ≡ 0 = x-lf v _ ∙ (omega (arith, h.x_in)) in
      rw full
        (Safe_trans v s t (put c t) safe (put-Safe v c t i safe.valid (omega (arith, i.wide))))
  | inr room ↦ rw room (put-Safe v c s i h (ground arith))
]

backspace-Safe : (v : Video) (s : Screen) → IsValid v s → Safe v s (backspace s)
unfolding backspace
backspace-Safe v s h = elim (Bool-cases (s.x == 0)) [
  | inl z ↦ rw z (Safe_same v s s h refl refl refl)
  | inr nz ↦
      let e : s.pos - 2 ≡ s.origin + s.y * v.size_row + 2 * (s.x - 1) =
        ground (arith, h.at_cursor) in
      rw nz (
        Safe_same v s _ (rw e (Fits-at v s (s.x - 1) s.y h (omega (arith, h.x_in)) h.y_in)) refl
          refl refl)
]

tab-Safe : (v : Video) (s : Screen) → IsVideo v → IsValid v s → Safe v s (tab v s)
unfolding tab
tab-Safe v s i h = elim (Bool-cases (ltb v.columns (s.x + tab_width s))) [
  | inl over ↦
      rw over
        (lf_from v s _ _ i h (omega (arith, i.wide, h.x_in)) (ground (arith, h.at_cursor, i.row)))
  | inr on ↦
      let e : s.pos + 2 * tab_width s ≡ s.origin + s.y * v.size_row + 2 * (s.x + tab_width s) =
        omega (arith, h.at_cursor) in
      rw on (
        Safe_same v s _ (rw e (Fits-at v s (s.x + tab_width s) s.y h (ground arith) h.y_in)) refl
          refl refl)
]

pub normal_char-Safe :
    (v : Video) (c : ℕ) (s : Screen) → IsVideo v → IsValid v s → Safe v s (normal_char v c s)
unfolding normal_char
normal_char-Safe v c s i h = Safe_if (ltb 31 c && ltb c 127) (print-Safe v c s i h) (
    Safe_if (c == 27) (Safe_same v s _ h refl refl refl) (
      Safe_if ((c == 10) || (c == 11) || (c == 12)) (lf-Safe v s i h) (
        Safe_if (c == 13) (cr-Safe v s h) (
          Safe_if (c == 127) (del-Safe v s i h) (
            Safe_if (c == 8) (backspace-Safe v s h) (
              Safe_if (c == 9) (tab-Safe v s i h) (
                Safe_if (c == 7) (Safe_same v s _ h refl refl refl) (
                  Safe_if (c == 14) (Safe_same v s _ h refl refl refl) (
                    Safe_if (c == 15) (Safe_same v s _ h refl refl refl)
                      (Safe_same v s s h refl refl refl))))))))))
