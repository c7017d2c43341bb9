-- ===== src/Console/Safe/Moves.antt =====
-- kernel/chr_drv/console.c: moving the cursor, and what changes neither the cursor nor the memory.
use linux.Base.{
  ℕ, ◌+◌, ◌-◌, ◌*◌, ◌≤◌, ◌<◌, ◌≡◌, refl, ◌||◌, ltb, leb, ◌==◌, arith, Bool-cases, inl, inr,
}
use linux.Console.{Video, Screen, gotoxy, cr, del, restore_cur}
use linux.Console.Safe.{IsVideo, Fits, IsValid, Safe, Safe_same, store_other}

-- The cursor elsewhere, at the address that belongs to it.
pub Fits-at :
    (v : Video) (s : Screen) (x y : ℕ)
    → IsValid v s
    → x ≤ v.columns
    → y < v.lines
    → Fits v x y s.top s.bottom
        (s.origin + y * v.size_row + 2 * x)
        s.origin
        s.scr_end
        s.mem_start
        s.mem_end
Fits-at v s x y h hx hy = record {
  x_in = hx;
  y_in = hy;
  region = h.region;
  bottom_in = h.bottom_in;
  at_cursor = refl;
  at_end = h.at_end;
  starts_in = h.starts_in;
  ends_in = h.ends_in;
}

pub gotoxy-Safe :
    (v : Video) (new_x new_y : ℕ) (s : Screen) → IsValid v s → Safe v s (gotoxy v new_x new_y s)
unfolding gotoxy
gotoxy-Safe v new_x new_y s h = elim (Bool-cases (ltb v.columns new_x || leb v.lines new_y)) [
  | inl out ↦ rw out (Safe_same v s s h refl refl refl)
  | inr on ↦
      rw on
        (Safe_same v s _ (Fits-at v s new_x new_y h (ground arith) (ground arith)) refl refl refl)
]

pub restore_cur-Safe : (v : Video) (s : Screen) → IsValid v s → Safe v s (restore_cur v s)
unfolding restore_cur
restore_cur-Safe v s h = gotoxy-Safe v s.saved_x s.saved_y s h

pub cr-Safe : (v : Video) (s : Screen) → IsValid v s → Safe v s (cr s)
unfolding cr
cr-Safe v s h =
    let e : s.pos - 2 * s.x ≡ s.origin + s.y * v.size_row + 2 * 0 = omega (arith, h.at_cursor) in
    Safe_same v s _ (rw e (Fits-at v s 0 s.y h (omega arith) h.y_in)) refl refl refl

-- The last row ends where the screen does.
pub row_end :
    (v : Video) (s : Screen) → IsValid v s → s.origin + s.y * v.size_row + v.size_row ≤ s.scr_end
row_end v s h = grind (arith, h.at_end, h.y_in)

pub cursor_end : (v : Video) (s : Screen) → IsVideo v → IsValid v s → s.pos ≤ s.scr_end
cursor_end v s i h = omega (arith, row_end v s h, h.at_cursor, h.x_in, i.row)

pub del-Safe : (v : Video) (s : Screen) → IsVideo v → IsValid v s → Safe v s (del s)
unfolding del
del-Safe v s i h = elim (Bool-cases (s.x == 0)) [
  | inl z ↦ rw z (Safe_same v s s h refl refl refl)
  | inr nz ↦
      let e : s.pos - 2 ≡ s.origin + s.y * v.size_row + 2 * (s.x - 1) =
        ground (arith, h.at_cursor) in
      rw nz (record {
        valid = (rw e (Fits-at v s (s.x - 1) s.y h (omega (arith, h.x_in)) h.y_in));
        same_start = refl;
        same_end = refl;
        kept = λ a o.
            store_other (s.pos - 2) s.erase_char a s.mem
              (ground (arith, e, cursor_end v s i h, h.starts_in, h.ends_in));
      })
]
