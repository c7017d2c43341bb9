-- ===== src/Console/Safe/Sequences.antt =====
-- kernel/chr_drv/console.c: whole escape sequences stay within the video memory.
use linux.Base.{
  ℕ, zero, suc, ◌+◌, ◌-◌, ◌%◌, ◌≡◌, refl, false, not, ◌&&◌, ◌||◌, List, [], ◌∷◌, replicate, ltb,
  leb, ◌==◌, if◌then◌else◌, arith, Bool-cases, inl, inr, get_or,
}
use linux.Console.{
  Video, Screen, EscState, normal, esc, square, getpars, gotpars, funckey, setterm, setgraph, other,
  save_cur,
}
use linux.Console.Attr.{set_attr, set_attrs, csi_m}
use linux.Console.Escape.{
  npar_max, word, esc_char, par_at, at_least_one, minus_one, minus, plus, move, is_move, set_region,
  set_blank, csi, gotpars_char, getpars_char, square_char, setterm_char, setgraph_char, dispatch,
  con_char, con_write,
}
use linux.Console.Safe.{IsVideo, IsValid, Safe, Safe_same, Safe_trans, Safe_if}
use linux.Console.Safe.Moves.{gotoxy-Safe, restore_cur-Safe}
use linux.Console.Safe.Scrolling.{Fits-region, lf-Safe, ri-Safe}
use linux.Console.Safe.Editing.{
  csi_J-Safe, csi_K-Safe, csi_at-Safe, csi_L-Safe, csi_P-Safe, csi_M-Safe,
}
use linux.Console.Safe.Writing.{normal_char-Safe}

-- First a change of other fields, from `s` to `t`, and then an operation.
after :
    (v : Video) (s t : Screen) {u : Screen}
    → IsValid v t
    → t.mem_start ≡ s.mem_start
    → t.mem_end ≡ s.mem_end
    → t.mem ≡ s.mem
    → Safe v t u
    → Safe v s u
after v s t {u} h p q e r = Safe_trans v s t u (Safe_same v s t h p q e) r

set_attr-Safe : (v : Video) (p : ℕ) (s : Screen) → IsValid v s → Safe v s (set_attr v p s)
unfolding set_attr
set_attr-Safe v p s h = Safe_if (p == 0) (Safe_same v s _ h refl refl refl) (
    Safe_if (p == 1) (Safe_same v s _ h refl refl refl) (
      Safe_if (p == 4) (Safe_same v s _ h refl refl refl) (
        Safe_if (p == 5) (Safe_same v s _ h refl refl refl) (
          Safe_if (p == 7) (Safe_same v s _ h refl refl refl) (
            Safe_if (p == 22) (Safe_same v s _ h refl refl refl) (
              Safe_if (p == 24) (Safe_same v s _ h refl refl refl) (
                Safe_if (p == 25) (Safe_same v s _ h refl refl refl) (
                  Safe_if (p == 27) (Safe_same v s _ h refl refl refl) (
                    Safe_if (p == 39) (Safe_same v s _ h refl refl refl) (
                      Safe_if (p == 49) (Safe_same v s _ h refl refl refl) (
                        Safe_if v.can_do_colour (Safe_same v s _ h refl refl refl)
                          (Safe_same v s s h refl refl refl))))))))))))

set_attrs-Safe : (v : Video) (k i : ℕ) (s : Screen) → IsValid v s → Safe v s (set_attrs v k i s)
unfolding set_attrs
set_attrs-Safe v zero i s h = Safe_same v s s h refl refl refl
set_attrs-Safe v (suc k) i s h =
    let one = set_attr-Safe v (get_or s.par i 0) s h in
    Safe_trans v s _ _ one (set_attrs-Safe v k (i + 1) _ one.valid)

csi_m-Safe : (v : Video) (s : Screen) → IsValid v s → Safe v s (csi_m v s)
unfolding csi_m
csi_m-Safe v s h = set_attrs-Safe v (s.npar + 1) 0 s h

esc_char-Safe :
    (v : Video) (c : ℕ) (s : Screen) → IsVideo v → IsValid v s → Safe v s (esc_char v c s)
unfolding esc_char save_cur
esc_char-Safe v c s i h =
    let t : Screen = record s { state = normal } in
    let region = Fits-region v s 0 v.lines h i.some_lines (omega arith) in
    Safe_if (c == b'[') (Safe_same v s _ h refl refl refl) (
      Safe_if (c == b'E') (after v s t h refl refl refl (gotoxy-Safe v 0 ((s.y + 1) % word) t h)) (
        Safe_if (c == b'M') (after v s t h refl refl refl (ri-Safe v t i h)) (
          Safe_if (c == b'D') (after v s t h refl refl refl (lf-Safe v t i h)) (
            Safe_if (c == b'Z') (Safe_same v s _ h refl refl refl) (
              Safe_if (c == b'7') (Safe_same v s _ h refl refl refl) (
                Safe_if (c == b'8') (after v s t h refl refl refl (restore_cur-Safe v t h)) (
                  Safe_if ((c == b'(') || (c == b')')) (Safe_same v s _ h refl refl refl) (
                    Safe_if (c == b'P') (Safe_same v s _ h refl refl refl) (
                      Safe_if (c == b'#') (Safe_same v s _ h refl refl refl) (
                        Safe_if (c == b'c') (Safe_same v s _ region refl refl refl) (
                          Safe_if (c == b'>') (Safe_same v s _ h refl refl refl) (
                            Safe_if (c == b'=') (Safe_same v s _ h refl refl refl)
                              (Safe_same v s t h refl refl refl)))))))))))))

move-Safe : (v : Video) (c : ℕ) (s : Screen) → IsValid v s → Safe v s (move v c s)
unfolding move
move-Safe v c s h =
    let one : Screen = at_least_one s in
    let p = par_at 0 one in
    let less : Screen = minus_one 0 s in
    let both : Screen = minus_one 1 less in
    let go = λ (x : ℕ) (y : ℕ). after v s one h refl refl refl (gotoxy-Safe v x y one h) in
    let to = λ (x : ℕ) (y : ℕ). after v s less h refl refl refl (gotoxy-Safe v x y less h) in
    Safe_if ((c == b'G') || (c == b'`')) (to (par_at 0 less) s.y) (
      Safe_if (c == b'A') (go s.x (minus s.y p)) (
        Safe_if ((c == b'B') || (c == b'e')) (go s.x (plus s.y p)) (
          Safe_if ((c == b'C') || (c == b'a')) (go (plus s.x p) s.y) (
            Safe_if (c == b'D') (go (minus s.x p) s.y) (
              Safe_if (c == b'E') (go 0 (plus s.y p)) (
                Safe_if (c == b'F') (go 0 (minus s.y p)) (
                  Safe_if (c == b'd') (to s.x (par_at 0 less)) (
                    after v s both h refl refl refl
                      (gotoxy-Safe v (par_at 1 s - 1) (par_at 0 less) both h)))))))))

set_region-Safe : (v : Video) (s : Screen) → IsValid v s → Safe v s (set_region v s)
unfolding set_region
set_region-Safe v s h =
    let t : Screen = minus_one 0 s in
    let last : ℕ = if par_at 1 s == 0 then v.lines else par_at 1 s in
    elim (Bool-cases (ltb (par_at 0 t) last && leb last v.lines)) [
      | inl ok ↦ rw ok (
          Safe_same v s _ (Fits-region v s (par_at 0 t) last h (ground arith) (ground arith)) refl
            refl refl)
      | inr bad ↦ rw bad (Safe_same v s _ h refl refl refl)
    ]

set_blank-Safe : (v : Video) (c : ℕ) (s : Screen) → IsValid v s → Safe v s (set_blank c s)
unfolding set_blank
set_blank-Safe v c s h =
    let p = par_at 0 s in
    Safe_if (not (leb 2 s.npar && (minus (par_at 1 s) 13 == p) && (minus (par_at 2 s) 17 == p)))
      (Safe_same v s _ h refl refl refl)
      (Safe_if ((c == b'l') && leb p 60) (Safe_same v s _ h refl refl refl)
        (Safe_if (c == b'b') (Safe_same v s _ h refl refl refl) (Safe_same v s s h refl refl refl)))

csi-Safe : (v : Video) (c : ℕ) (s : Screen) → IsVideo v → IsValid v s → Safe v s (csi v c s)
unfolding csi save_cur
csi-Safe v c s i h =
    let p = par_at 0 s in
    Safe_if (is_move c) (move-Safe v c s h) (
      Safe_if (c == b'J') (csi_J-Safe v p s i h) (
        Safe_if (c == b'K') (csi_K-Safe v p s i h) (
          Safe_if (c == b'L') (csi_L-Safe v p s i h) (
            Safe_if (c == b'M') (csi_M-Safe v p s i h) (
              Safe_if (c == b'P') (csi_P-Safe v p s i h) (
                Safe_if (c == b'@') (csi_at-Safe v p s i h) (
                  Safe_if (c == b'm') (csi_m-Safe v s h) (
                    Safe_if (c == b'r') (set_region-Safe v s h) (
                      Safe_if (c == b's') (Safe_same v s _ h refl refl refl) (
                        Safe_if (c == b'u') (restore_cur-Safe v s h) (
                          Safe_if ((c == b'l') || (c == b'b')) (set_blank-Safe v c s h)
                            (Safe_same v s s h refl refl refl))))))))))))

gotpars_char-Safe :
    (v : Video) (c : ℕ) (s : Screen) → IsVideo v → IsValid v s → Safe v s (gotpars_char v c s)
unfolding gotpars_char
gotpars_char-Safe v c s i h =
    let t : Screen = record s { state = normal } in
    Safe_if s.ques (Safe_same v s _ h refl refl refl)
      (after v s t h refl refl refl (csi-Safe v c t i h))

getpars_char-Safe :
    (v : Video) (c : ℕ) (s : Screen) → IsVideo v → IsValid v s → Safe v s (getpars_char v c s)
unfolding getpars_char
getpars_char-Safe v c s i h =
    let t : Screen = record s { state = gotpars } in
    Safe_if ((c == b';') && ltb s.npar (npar_max - 1)) (Safe_same v s _ h refl refl refl) (
      Safe_if (leb b'0' c && leb c b'9') (Safe_same v s _ h refl refl refl)
        (after v s t h refl refl refl (gotpars_char-Safe v c t i h)))

square_char-Safe :
    (v : Video) (c : ℕ) (s : Screen) → IsVideo v → IsValid v s → Safe v s (square_char v c s)
unfolding square_char
square_char-Safe v c s i h =
    let t : Screen = record s { par = replicate 16 0; npar = 0; state = getpars; ques = false } in
    Safe_if (c == b'[') (Safe_same v s _ h refl refl refl) (
      Safe_if (c == b'?') (Safe_same v s _ h refl refl refl)
        (after v s t h refl refl refl (getpars_char-Safe v c t i h)))

setterm_char-Safe : (v : Video) (c : ℕ) (s : Screen) → IsValid v s → Safe v s (setterm_char c s)
unfolding setterm_char
setterm_char-Safe v c s h =
    Safe_if (c == b'S') (Safe_same v s _ h refl refl refl) (Safe_same v s _ h refl refl refl)

setgraph_char-Safe : (v : Video) (c : ℕ) (s : Screen) → IsValid v s → Safe v s (setgraph_char c s)
unfolding setgraph_char
setgraph_char-Safe v c s h =
    Safe_if (c == b'0') (Safe_same v s _ h refl refl refl)
      (Safe_if (c == b'B') (Safe_same v s _ h refl refl refl) (Safe_same v s _ h refl refl refl))

dispatch-Safe :
    (v : Video) (e : EscState) (c : ℕ) (s : Screen)
    → IsVideo v
    → IsValid v s
    → Safe v s (dispatch v e c s)
unfolding dispatch
dispatch-Safe v normal c s i h = normal_char-Safe v c s i h
dispatch-Safe v esc c s i h = esc_char-Safe v c s i h
dispatch-Safe v square c s i h = square_char-Safe v c s i h
dispatch-Safe v getpars c s i h = getpars_char-Safe v c s i h
dispatch-Safe v gotpars c s i h = gotpars_char-Safe v c s i h
dispatch-Safe v funckey c s i h = Safe_same v s _ h refl refl refl
dispatch-Safe v setterm c s i h = setterm_char-Safe v c s h
dispatch-Safe v setgraph c s i h = setgraph_char-Safe v c s h
dispatch-Safe v other c s i h = Safe_same v s _ h refl refl refl

con_char-Safe :
    (v : Video) (c : ℕ) (s : Screen) → IsVideo v → IsValid v s → Safe v s (con_char v c s)
unfolding con_char
con_char-Safe v c s i h =
    let stop = (c == 24) || (c == 26) in
    let t : Screen = if stop then record s { state = normal } else s in
    let start : Safe v s t =
      Safe_if stop (Safe_same v s _ h refl refl refl) (Safe_same v s s h refl refl refl) in
    Safe_trans v s t _ start (dispatch-Safe v t.state c t i start.valid)

-- A text screen has at least a line, at least eight columns, and two bytes for each column of a row.
-- A console on it has its cursor on the screen (or just behind the end of a line), a scrolling region
-- that is not empty and a screen that lies in its video memory. Whatever is written to the console,
-- afterwards the same holds of it, its video memory is where it was, and no word that is not wholly
-- inside that memory has changed.
pub con_write-Safe :
    (v : Video) (cs : List ℕ) (s : Screen) → IsVideo v → IsValid v s → Safe v s (con_write v cs s)
unfolding con_write
con_write-Safe v [] s i h = Safe_same v s s h refl refl refl
con_write-Safe v (c ∷ cs) s i h =
    let one = con_char-Safe v c s i h in Safe_trans v s _ _ one (con_write-Safe v cs _ i one.valid)
