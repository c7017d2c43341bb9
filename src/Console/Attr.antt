-- ===== src/Console/Attr.antt =====
-- kernel/chr_drv/console.c: `csi_m`, on an attribute of one byte.
use linux.Base.{
  ℕ, zero, suc, ◌+◌, ◌-◌, ◌*◌, ◌/◌, ◌%◌, true, ◌&&◌, List, [], ◌∷◌, get_or, leb, ◌==◌,
  if◌then◌else◌,
}
use linux.Base.Int.{ℤ, pos, negsuc}
use linux.Base.Bits.{bit_and, bit_or}
use linux.Console.{Video, Screen}

abbrev pub conv_table : List ℕ
conv_table = 0 ∷ 4 ∷ 2 ∷ 6 ∷ 1 ∷ 5 ∷ 3 ∷ 7 ∷ []

abbrev pub high : ℕ → ℕ
high attr = attr / 16 * 16

abbrev pub low : ℕ → ℕ
low attr = attr % 16

-- Underline on a colour screen: `vc_bold_attr` if there is one, and else the other foreground, but
-- not the background's colour.
abbrev pub underline : ℤ → ℕ → ℕ
underline (pos b) attr = high attr + b % 16
underline (negsuc zero) attr =
    let fore = 15 - low attr in
    if fore == attr / 16 then high attr + (low attr + 1) % 15 else high attr + fore
underline (negsuc (suc n)) attr = high attr + (15 - n % 16 + 15) % 16

-- The colours, for a screen that can show them.
abbrev pub colour : ℕ → Screen → Screen
colour p s =
    let attr : ℕ =
      if leb 30 p && leb p 37
      then high s.attr + get_or conv_table (p - 30) 0
      else if leb 40 p && leb p 47
      then low s.attr + 16 * get_or conv_table (p - 40) 0
      else s.attr in
    record s { iscolor = true; attr = attr }

-- One turn of the loop: a parameter `p` that is no colour gives a new attribute.
unfoldable pub set_attr : Video → ℕ → Screen → Screen
set_attr v p s =
    if p == 0
    then record s { attr = s.def_attr }
    else if p == 1
    then record s { attr = if s.iscolor then bit_or s.attr 8 else bit_or s.attr 15 }
    else if p == 4
    then record s { attr = if s.iscolor then underline s.bold_attr s.attr else bit_or s.attr 1 }
    else if p == 5
    then record s { attr = bit_or s.attr 128 }
    else if p == 7
    then record s { attr = s.attr * 16 % 256 + s.attr / 16 }
    else if p == 22
    then record s { attr = bit_and s.attr 0xf7 }
    else if p == 24
    then record s { attr = bit_and s.attr 0xfe }
    else if p == 25
    then record s { attr = bit_and s.attr 0x7f }
    else if p == 27
    then record s { attr = s.def_attr }
    else if p == 39
    then record s { attr = high s.attr + low s.def_attr }
    else if p == 49
    then record s { attr = low s.attr + high s.def_attr }
    else if v.can_do_colour
    then colour p s
    else s

-- The loop over the `k` parameters from the `i`-th on.
unfoldable pub set_attrs : Video → ℕ → ℕ → Screen → Screen
unfolding set_attr
set_attrs v zero i s = s
set_attrs v (suc k) i s = set_attrs v k (i + 1) (set_attr v (get_or s.par i 0) s)

unfoldable pub csi_m : Video → Screen → Screen
unfolding set_attrs
csi_m v s = set_attrs v (s.npar + 1) 0 s
