-- ===== src/Console/Safe/Scrolling.antt =====
-- kernel/chr_drv/console.c: scrolling stays within the video memory and keeps the cursor.
use linux.Base.{
  ℕ, ◌+◌, ◌-◌, ◌*◌, ◌/◌, ◌≤◌, ◌<◌, ◌≡◌, refl, ap, ◌∙◌, false, ◌&&◌, ltb, leb, ◌==◌, arith,
  Bool-cases, inl, inr,
}
use linux.Console.{Video, Screen}
use linux.Console.Scroll.{
  scroll_origin, scroll_lines_up, scroll_lines_down, scrup_region, scrup, scrdown, lf, ri,
  insert_line, delete_line, region_top, region_bottom,
}
use linux.Console.Safe.{
  IsVideo, Fits, IsValid, Outside, Safe, Safe_same, Safe_if, Beside, fill_up-Beside,
  fill_down-Beside, copy_up-Beside, copy_down-Beside,
}
use linux.Console.Safe.Moves.{Fits-at}

pub Outside-Beside :
    (n addr a : ℕ) (s : Screen)
    → s.mem_start ≤ addr
    → addr + 2 * n ≤ s.mem_end
    → Outside s a
    → Beside n addr a
Outside-Beside n addr a s low high o = ground arith

-- The longs of `m` rows, rounded down.
longs_le : (v : Video) (m : ℕ) → IsVideo v → 4 * (m * v.columns / 2) ≤ m * v.size_row
longs_le v m i =
    let e : m * v.size_row ≡ 2 * (m * v.columns) = rw i.row (grind arith) in omega arith

rows_add : (r t b : ℕ) → t < b → t * r + (b - t - 1) * r + r ≡ b * r
rows_add r t b h =
    let e : b ≡ t + (b - t - 1) + 1 = omega arith in
    let f : (t + (b - t - 1) + 1) * r ≡ t * r + (b - t - 1) * r + r = grind arith in
    omega (arith, ap (λ k. k * r) e)

row_before : (r b : ℕ) → 0 < b → (b - 1) * r + r ≡ b * r
row_before r b h =
    let e : b ≡ b - 1 + 1 = omega arith in
    let f : (b - 1 + 1) * r ≡ (b - 1) * r + r = grind arith in omega (arith, ap (λ k. k * r) e)

rows_mono : (r b n : ℕ) → b ≤ n → b * r ≤ n * r
rows_mono r b n h = grind arith

scroll_lines_up-Safe :
    (v : Video) (t b : ℕ) (s : Screen)
    → IsVideo v
    → IsValid v s
    → t < b
    → b ≤ v.lines
    → Safe v s (scroll_lines_up v t b s)
unfolding scroll_lines_up
scroll_lines_up-Safe v t b s i h p q =
    let longs = (b - t - 1) * v.columns / 2 in
    let dst = s.origin + t * v.size_row in
    let facts : dst + 4 * longs + 2 * v.columns ≤ s.scr_end = omega (
      arith,
      longs_le v (b - t - 1) i,
      rows_add v.size_row t b p,
      rows_mono v.size_row b v.lines q,
      h.at_end,
      i.row,
    ) in
    record {
      valid = h;
      same_start = refl;
      same_end = refl;
      kept = λ a o.
          fill_up-Beside v.columns (dst + 4 * longs) s.erase_char a _ (
            Outside-Beside v.columns (dst + 4 * longs) a s (omega (arith, h.starts_in))
              (omega (arith, h.ends_in)) o)
          ∙ copy_up-Beside longs dst (s.origin + (t + 1) * v.size_row) a s.mem (
              Outside-Beside (2 * longs) dst a s (omega (arith, h.starts_in))
                (omega (arith, h.ends_in)) o);
    }

scroll_lines_down-Safe :
    (v : Video) (t b : ℕ) (s : Screen)
    → IsVideo v
    → IsValid v s
    → t < b
    → b ≤ v.lines
    → Safe v s (scroll_lines_down v t b s)
unfolding scroll_lines_down
scroll_lines_down-Safe v t b s i h p q =
    let longs = (b - t - 1) * v.columns / 2 in
    let low = s.origin + b * v.size_row - 4 * longs in
    let room : s.origin + t * v.size_row + v.size_row + 4 * longs ≤ s.origin + b * v.size_row =
      omega (arith, longs_le v (b - t - 1) i, rows_add v.size_row t b p) in
    let top : s.origin + b * v.size_row ≤ s.scr_end =
      omega (arith, rows_mono v.size_row b v.lines q, h.at_end) in
    let e : s.origin + b * v.size_row - 4 ≡ low + 4 * longs - 4 = omega arith in
    let blank = low - 2 * v.columns in
    let f : low + 4 * longs - 4 - 4 * longs + 2 ≡ blank + 2 * v.columns - 2 =
      omega (arith, i.row, i.wide) in
    record {
      valid = h;
      same_start = refl;
      same_end = refl;
      kept = λ a o.
          rw (e, f)
            (fill_down-Beside v.columns blank s.erase_char a _ (
                Outside-Beside v.columns blank a s (omega (arith, h.starts_in, i.row))
                  (omega (arith, h.ends_in, i.row)) o)
              ∙ copy_down-Beside longs low (s.origin + (b - 1) * v.size_row - 4) a s.mem (
                  Outside-Beside (2 * longs) low a s (omega (arith, h.starts_in))
                    (omega (arith, h.ends_in)) o));
    }

scroll_origin-Safe :
    (v : Video) (s : Screen) → IsVideo v → IsValid v s → Safe v s (scroll_origin v s)
unfolding scroll_origin
scroll_origin-Safe v s i h =
    let rest : (v.lines - 1) * v.size_row + v.size_row ≡ v.lines * v.size_row =
      row_before v.size_row v.lines i.some_lines in
    elim (Bool-cases (ltb s.mem_end (s.scr_end + v.size_row))) [
      | inr room ↦
          let at : s.scr_end + v.size_row - v.size_row ≡ s.scr_end = omega arith in
          rw room (record {
            valid = record {
              x_in = h.x_in;
              y_in = h.y_in;
              region = h.region;
              bottom_in = h.bottom_in;
              at_cursor = omega (arith, h.at_cursor);
              at_end = omega (arith, h.at_end);
              starts_in = omega (arith, h.starts_in);
              ends_in = (ground arith);
            };
            same_start = refl;
            same_end = refl;
            kept = λ a o. rw at (
                fill_up-Beside v.columns s.scr_end s.erase_char a s.mem (
                  Outside-Beside v.columns s.scr_end a s (omega (arith, h.starts_in, h.at_end))
                    (ground (arith, i.row)) o));
          })
      | inl full ↦
          let longs = (v.lines - 1) * v.columns / 2 in
          let size : s.mem_start + 4 * longs + 2 * v.columns ≤ s.mem_end =
            omega
              (arith, longs_le v (v.lines - 1) i, rest, h.at_end, h.starts_in, h.ends_in, i.row) in
          rw full (record {
            valid = record {
              x_in = h.x_in;
              y_in = h.y_in;
              region = h.region;
              bottom_in = h.bottom_in;
              at_cursor = omega (arith, h.at_cursor, h.starts_in);
              at_end = omega (arith, h.at_end, h.starts_in);
              starts_in = omega arith;
              ends_in = omega (arith, h.at_end, h.starts_in, h.ends_in);
            };
            same_start = refl;
            same_end = refl;
            kept = λ a o.
                fill_up-Beside v.columns (s.mem_start + 4 * longs) s.erase_char a _
                  (Outside-Beside v.columns (s.mem_start + 4 * longs) a s (omega arith) size o)
                ∙ copy_up-Beside longs s.mem_start (s.origin + v.size_row) a s.mem
                    (Outside-Beside (2 * longs) s.mem_start a s (omega arith) (omega arith) o);
          })
    ]

scrup_region-Safe :
    (v : Video) (t b : ℕ) (s : Screen)
    → IsVideo v
    → IsValid v s
    → b ≤ v.lines
    → Safe v s (scrup_region v t b s)
unfolding scrup_region
scrup_region-Safe v t b s i h q = elim (Bool-cases (leb b t)) [
  | inl none ↦ rw none (Safe_same v s s h refl refl refl)
  | inr some ↦ rw some (
      Safe_if (v.is_ega && ((t == 0) && (b == v.lines))) (scroll_origin-Safe v s i h)
        (scroll_lines_up-Safe v t b s i h (ground arith) q))
]

region_bottom-le : (v : Video) (s : Screen) → region_bottom v s ≤ v.lines
region_bottom-le v s = ground arith

pub scrup-Safe : (v : Video) (s : Screen) → IsVideo v → IsValid v s → Safe v s (scrup v s)
unfolding scrup
scrup-Safe v s i h =
    scrup_region-Safe v (region_top v s) (region_bottom v s) s i h (region_bottom-le v s)

pub scrdown-Safe : (v : Video) (s : Screen) → IsVideo v → IsValid v s → Safe v s (scrdown v s)
unfolding scrdown
scrdown-Safe v s i h = elim (Bool-cases (leb (region_bottom v s) (region_top v s))) [
  | inl none ↦ rw none (Safe_same v s s h refl refl refl)
  | inr some ↦
      let order : region_top v s < region_bottom v s =
        not_leb (region_bottom v s) (region_top v s) some in
      rw some (
        scroll_lines_down-Safe v (region_top v s) (region_bottom v s) s i h order
          (region_bottom-le v s))
]
  where
    not_leb : (a b : ℕ) → leb a b ≡ false → b < a
    not_leb a b e = ground arith

pub lf-Safe : (v : Video) (s : Screen) → IsVideo v → IsValid v s → Safe v s (lf v s)
unfolding lf
lf-Safe v s i h = elim (Bool-cases (ltb (s.y + 1) s.bottom)) [
  | inl down ↦
      let e : s.pos + v.size_row ≡ s.origin + (s.y + 1) * v.size_row + 2 * s.x =
        omega (arith, h.at_cursor, rows_add v.size_row s.y (s.y + 1) (omega arith)) in
      rw down (
        Safe_same v s _ (rw e (Fits-at v s s.x (s.y + 1) h h.x_in (ground (arith, h.bottom_in))))
          refl refl refl)
  | inr scroll ↦ rw scroll (scrup-Safe v s i h)
]

pub ri-Safe : (v : Video) (s : Screen) → IsVideo v → IsValid v s → Safe v s (ri v s)
unfolding ri
ri-Safe v s i h = elim (Bool-cases (ltb s.top s.y)) [
  | inl up ↦
      let above : s.y - 1 < s.y = ground arith in
      let e : s.pos - v.size_row ≡ s.origin + (s.y - 1) * v.size_row + 2 * s.x =
        omega (arith, h.at_cursor, row_before v.size_row s.y (omega arith)) in
      rw up (
        Safe_same v s _ (rw e (Fits-at v s s.x (s.y - 1) h h.x_in (omega (arith, h.y_in)))) refl
          refl refl)
  | inr scroll ↦ rw scroll (scrdown-Safe v s i h)
]

-- The screen with another scrolling region.
pub Fits-region :
    (v : Video) (s : Screen) (t b : ℕ)
    → IsValid v s
    → t < b
    → b ≤ v.lines
    → Fits v s.x s.y t b s.pos s.origin s.scr_end s.mem_start s.mem_end
Fits-region v s t b h p q = record {
  x_in = h.x_in;
  y_in = h.y_in;
  region = p;
  bottom_in = q;
  at_cursor = h.at_cursor;
  at_end = h.at_end;
  starts_in = h.starts_in;
  ends_in = h.ends_in;
}

-- An operation with the region of `insert_line`, which is put back.
with_region :
    (v : Video) (s out : Screen)
    → IsValid v s
    → Safe v (record s { top = s.y; bottom = v.lines }) out
    → Safe v s (record out { top = s.top; bottom = s.bottom })
with_region v s out h r = record {
  valid = Fits-region v out s.top s.bottom r.valid h.region h.bottom_in;
  same_start = r.same_start;
  same_end = r.same_end;
  kept = r.kept;
}

pub insert_line-Safe :
    (v : Video) (s : Screen) → IsVideo v → IsValid v s → Safe v s (insert_line v s)
unfolding insert_line
insert_line-Safe v s i h = with_region v s _ h (
    scrdown-Safe v (record s { top = s.y; bottom = v.lines }) i
      (Fits-region v s s.y v.lines h h.y_in (omega arith)))

pub delete_line-Safe :
    (v : Video) (s : Screen) → IsVideo v → IsValid v s → Safe v s (delete_line v s)
unfolding delete_line
delete_line-Safe v s i h = with_region v s _ h (
    scrup-Safe v (record s { top = s.y; bottom = v.lines }) i
      (Fits-region v s s.y v.lines h h.y_in (omega arith)))
