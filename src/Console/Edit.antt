-- ===== src/Console/Edit.antt =====
-- kernel/chr_drv/console.c: erasing, and inserting and deleting characters and lines.
use linux.Base.{ℕ, zero, suc, ◌+◌, ◌-◌, ◌*◌, ◌/◌, ltb, leb, ◌==◌, if◌then◌else◌}
use linux.Console.{Video, Screen, fill_up, store_word}
use linux.Console.Scroll.{insert_line, delete_line}

abbrev pub erase : ℕ → ℕ → Screen → Screen
erase count start s = record s { mem = fill_up count start s.erase_char s.mem }

unfoldable pub csi_J : Video → ℕ → Screen → Screen
csi_J v vpar s =
    if vpar == 0
    then erase ((s.scr_end - s.pos) / 2) s.pos s
    else if vpar == 1
    then erase ((s.pos - s.origin) / 2) s.origin s
    else if vpar == 2
    then erase (v.columns * v.lines) s.origin s
    else s

unfoldable pub csi_K : Video → ℕ → Screen → Screen
csi_K v vpar s =
    if vpar == 0
    then (if leb v.columns s.x then s else erase (v.columns - s.x) s.pos s)
    else if vpar == 1
    then erase (if ltb s.x v.columns then s.x else v.columns) (s.pos - 2 * s.x) s
    else if vpar == 2
    then erase v.columns (s.pos - 2 * s.x) s
    else s

-- The loop of `insert_char`: `n` words from `p` on, each replaced by the one before it.
unfoldable pub shift_right : ℕ → ℕ → ℕ → (ℕ → ℕ) → ℕ → ℕ
shift_right zero p old mem = mem
shift_right (suc n) p old mem = shift_right n (p + 2) (mem p) (store_word p old mem)

unfoldable pub insert_char : Video → Screen → Screen
insert_char v s = record s { mem = shift_right (v.columns - s.x) s.pos s.erase_char s.mem }

-- The loop of `delete_char`, and the blank at its end.
unfoldable pub shift_left : ℕ → ℕ → ℕ → (ℕ → ℕ) → ℕ → ℕ
shift_left zero p blank mem = store_word p blank mem
shift_left (suc n) p blank mem = shift_left n (p + 2) blank (store_word p (mem (p + 2)) mem)

unfoldable pub delete_char : Video → Screen → Screen
delete_char v s =
    if leb v.columns s.x
    then s
    else record s { mem = shift_left (v.columns - s.x - 1) s.pos s.erase_char s.mem }

-- `while (nr--)`
unfoldable pub times : ℕ → (Screen → Screen) → Screen → Screen
times zero f s = s
times (suc n) f s = times n f (f s)

-- How often `csi_at`, `csi_L`, `csi_P` and `csi_M` do it.
abbrev pub clip : ℕ → ℕ → ℕ
clip limit nr = if ltb limit nr then limit else if nr == 0 then 1 else nr

unfoldable pub csi_at : Video → ℕ → Screen → Screen
unfolding times insert_char
csi_at v nr s = times (clip v.columns nr) (insert_char v) s

unfoldable pub csi_L : Video → ℕ → Screen → Screen
unfolding times insert_line
csi_L v nr s = times (clip v.lines nr) (insert_line v) s

unfoldable pub csi_P : Video → ℕ → Screen → Screen
unfolding times delete_char
csi_P v nr s = times (clip v.columns nr) (delete_char v) s

unfoldable pub csi_M : Video → ℕ → Screen → Screen
unfolding times delete_line
csi_M v nr s = times (clip v.lines nr) (delete_line v) s
