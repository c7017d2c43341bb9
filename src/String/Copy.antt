-- ===== src/String/Copy.antt =====
-- include/string.h: the functions that copy strings. A loop that ends at a zero byte runs on fuel,
-- and gives none when the fuel is spent.
pub mod Whole
pub mod Bounded
use linux.Base.{
  ℕ, zero, suc, ◌+◌, ◌-◌, ◌*◌, ◌≤◌, ◌<◌, ◌≡◌, ◌≢◌, ◌⊎◌, inl, inr, Bool, true, false, Option, none,
  some, refl, sym, ◌∙◌, ap, ltb, leb, ◌==◌, if◌then◌else◌, arith, if-cases, Bool-cases,
}
use linux.String.{Memory, store_byte, repne_scasb, rep_stosb, rep_movsb}

-- `1: lodsb; stosb; testb %%al,%%al; jne 1b`
unfoldable pub copy_string : ℕ → ℕ → ℕ → Memory → Option Memory
copy_string zero edi esi mem = none
copy_string (suc fuel) edi esi mem = elim (mem esi == 0) [
  | true ↦ some (store_byte edi (mem esi) mem)
  | false ↦ copy_string fuel (edi + 1) (esi + 1) (store_byte edi (mem esi) mem)
]

unfoldable pub strcpy : ℕ → ℕ → ℕ → Memory → Option Memory
unfolding copy_string
strcpy fuel dest src mem = copy_string fuel dest src mem

unfoldable pub strcat : ℕ → ℕ → ℕ → Memory → Option Memory
unfolding copy_string repne_scasb
strcat fuel dest src mem =
    copy_string fuel ((repne_scasb 0xffffffff 0 dest false mem).at - 1) src mem

-- The counter after `decl`; `js` leaves the loop where it is negative.
unfoldable pub strncpy : ℕ → ℕ → ℕ → Memory → Memory
unfolding rep_stosb
strncpy dest src zero mem = mem
strncpy dest src (suc count) mem =
    let al = mem src in
    let mem' : Memory = store_byte dest al mem in
    elim (leb 0x80000000 count) [
      | true ↦ mem
      | false ↦ elim (al == 0) [
        | true ↦ rep_stosb count al (dest + 1) mem'
        | false ↦ strncpy (dest + 1) (src + 1) count mem'
      ]
    ]

-- The loop of `strncat`, and the zero byte after it.
unfoldable pub append_bytes : ℕ → ℕ → ℕ → Memory → Memory
append_bytes edi esi zero mem = store_byte edi 0 mem
append_bytes edi esi (suc ecx) mem =
    let al = mem esi in
    let mem' : Memory = store_byte edi al mem in
    elim (leb 0x80000000 ecx) [
      | true ↦ store_byte edi 0 mem
      | false ↦ elim (al == 0) [
        | true ↦ store_byte (edi + 1) 0 mem'
        | false ↦ append_bytes (edi + 1) (esi + 1) ecx mem'
      ]
    ]

unfoldable pub strncat : ℕ → ℕ → ℕ → Memory → Memory
unfolding append_bytes repne_scasb
strncat dest src count mem =
    append_bytes ((repne_scasb 0xffffffff 0 dest false mem).at - 1) src count mem
