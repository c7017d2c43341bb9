-- ===== src/String/Compare.antt =====
-- include/string.h: the functions that compare. A loop that ends at a zero byte runs on fuel, and
-- gives none when the fuel is spent.
pub mod Order
pub mod Find
use linux.Base.{
  ℕ, zero, suc, ◌+◌, ◌-◌, ◌≤◌, ◌<◌, ◌≡◌, ◌≢◌, ◌⊎◌, inl, inr, Bool, true, false, not, ◌||◌, Option,
  none, some, refl, sym, ◌∙◌, ap, arith, leb, ◌==◌, if◌then◌else◌,
}
use linux.Base.Int.{ℤ, pos, negsuc}
use linux.String.{Memory, Flags, signed_ltb, repe_cmpsb, repne_scasb, strlen, found, exhausted}
use linux.String.Search.{IsString, strlen-IsString}

-- `movl $1,%%eax; jl; negl %%eax`
abbrev pub jl_sign : Bool → ℤ
jl_sign less = if less then pos 1 else negsuc 0

-- The loop reads `ct` through `esi`, and `cs` through `edi`.
unfoldable pub strcmp : ℕ → ℕ → ℕ → Memory → Option ℤ
strcmp zero cs ct mem = none
strcmp (suc fuel) cs ct mem = elim (mem ct == mem cs) [
  | true ↦ elim (mem ct == 0) [ true ↦ some (pos 0) | false ↦ strcmp fuel (cs + 1) (ct + 1) mem ]
  | false ↦ some (jl_sign (signed_ltb (mem ct) (mem cs)))
]

-- The counter after `decl`; `js` leaves the loop where it is negative.
unfoldable pub strncmp : ℕ → ℕ → ℕ → Memory → ℤ
strncmp cs ct zero mem = pos 0
strncmp cs ct (suc count) mem = elim (leb 0x80000000 count) [
  | true ↦ pos 0
  | false ↦ elim (mem ct == mem cs) [
    | true ↦ elim (mem ct == 0) [ true ↦ pos 0 | false ↦ strncmp (cs + 1) (ct + 1) count mem ]
    | false ↦ jl_sign (signed_ltb (mem ct) (mem cs))
  ]
]

unfoldable pub memcmp : ℕ → ℕ → ℕ → Memory → ℤ
unfolding repe_cmpsb
memcmp cs ct count mem =
    if count == 0 || cs == ct
    then pos 0
    else (let f : Flags = repe_cmpsb count ct cs false mem in
        if f.zf then pos 0 else jl_sign f.less)

-- The loop of `strstr`, with the length of `ct` in `edx`.
unfoldable pub find_string : ℕ → ℕ → ℕ → ℕ → Memory → Option ℕ
unfolding repe_cmpsb
find_string zero esi ct edx mem = none
find_string (suc fuel) esi ct edx mem =
    let f : Flags = repe_cmpsb edx esi ct (edx == 0) mem in
    elim f.zf [
      | true ↦ some esi
      | false ↦ elim (mem (f.at - 1) == 0) [
        | true ↦ some 0
        | false ↦ find_string fuel (esi + 1) ct edx mem
      ]
    ]

unfoldable pub strstr : ℕ → ℕ → ℕ → Memory → Option ℕ
unfolding find_string strlen
strstr fuel cs ct mem = find_string fuel cs ct (strlen ct mem) mem
