-- ===== src/String.antt =====
-- include/string.h: the string instructions that its functions are written with, on memory as a
-- function from addresses to bytes. Registers are arguments; a counter that starts at -1 starts at
-- 0xffffffff. Addresses are not wrapped around: no string reaches the end of the address space.
pub mod Move
pub mod Copy
pub mod Search
pub mod Compare
pub mod Span
pub mod Token
mod Tests
use linux.Base.{ℕ, zero, suc, ◌+◌, ◌-◌, ◌%◌, Bool, true, false, ltb, ◌==◌, if◌then◌else◌}

abbrev pub Memory : Type 0
Memory = ℕ → ℕ

-- `stosb`, and `movb`
abbrev pub store_byte : ℕ → ℕ → Memory → Memory
store_byte addr v mem a = if a == addr then v else mem a

-- `cld; rep; movsb`
unfoldable pub rep_movsb : ℕ → ℕ → ℕ → Memory → Memory
rep_movsb zero edi esi mem = mem
rep_movsb (suc ecx) edi esi mem = rep_movsb ecx (edi + 1) (esi + 1) (store_byte edi (mem esi) mem)

-- `std; rep; movsb`
unfoldable pub rep_movsb_down : ℕ → ℕ → ℕ → Memory → Memory
rep_movsb_down zero edi esi mem = mem
rep_movsb_down (suc ecx) edi esi mem =
    rep_movsb_down ecx (edi - 1) (esi - 1) (store_byte edi (mem esi) mem)

-- `rep; stosb`
unfoldable pub rep_stosb : ℕ → ℕ → ℕ → Memory → Memory
rep_stosb zero al edi mem = mem
rep_stosb (suc ecx) al edi mem = rep_stosb ecx al (edi + 1) (store_byte edi al mem)

-- What `repne; scasb` and `repe; cmpsb` leave: the zero flag, the counter, the address after the
-- last byte they read, and whether the last comparison was less, of signed bytes.
pub record Flags : Type 0 where
  pub zf : Bool
  pub ecx : ℕ
  pub at : ℕ
  pub less : Bool

abbrev pub found : ℕ → ℕ → Flags
found ecx at = record { zf = true; ecx = ecx; at = at; less = false }

abbrev pub exhausted : Bool → ℕ → Flags
exhausted zf at = record { zf = zf; ecx = 0; at = at; less = false }

-- The order of `jl`, on signed bytes.
abbrev pub signed_ltb : ℕ → ℕ → Bool
signed_ltb a b = ltb ((a + 128) % 256) ((b + 128) % 256)

-- `repne; scasb`, started with the zero flag `zf`.
unfoldable pub repne_scasb : ℕ → ℕ → ℕ → Bool → Memory → Flags
repne_scasb zero al edi zf mem = exhausted zf edi
repne_scasb (suc ecx) al edi zf mem = elim (mem edi == al) [
  | true ↦ found ecx (edi + 1)
  | false ↦ repne_scasb ecx al (edi + 1) false mem
]

-- `repe; cmpsb`, started with the zero flag `zf`.
unfoldable pub repe_cmpsb : ℕ → ℕ → ℕ → Bool → Memory → Flags
repe_cmpsb zero esi edi zf mem = exhausted zf esi
repe_cmpsb (suc ecx) esi edi zf mem = elim (mem esi == mem edi) [
  | true ↦ repe_cmpsb ecx (esi + 1) (edi + 1) true mem
  | false ↦ record { zf = false; ecx = ecx; at = esi + 1; less = signed_ltb (mem esi) (mem edi) }
]

-- `notl; decl` on a counter.
abbrev pub counted : ℕ → ℕ
counted ecx = (0xffffffff - ecx + 0xffffffff) % 0x100000000

unfoldable pub strlen : ℕ → Memory → ℕ
unfolding repne_scasb
strlen s mem = counted (repne_scasb 0xffffffff 0 s false mem).ecx
