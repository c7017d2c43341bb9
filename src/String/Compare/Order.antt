-- ===== src/String/Compare/Order.antt =====
-- include/string.h: what `strcmp`, `strncmp` and `memcmp` give.
use linux.Base.{
  ℕ, zero, suc, ◌+◌, ◌≤◌, ◌<◌, ◌≡◌, ◌≢◌, Bool, true, false, ◌||◌, some, refl, sym, ◌∙◌, ap, ap₂,
  arith, leb, ◌==◌, if◌then◌else◌,
}
use linux.Base.Int.{ℤ, pos}
use linux.String.{Memory, signed_ltb, repe_cmpsb}
use linux.String.Search.{
  IsString, Without, FirstAt-head, FirstAt-tail, FirstAt-zero, Without-head, Without-tail,
}
use linux.String.Compare.{jl_sign, strcmp, strncmp, memcmp}

-- The two strings have the same bytes at the distances below `n`.
unfoldable pub Same : ℕ → ℕ → ℕ → Memory → Type 0
Same cs ct n mem = (i : ℕ) → i < n → mem (ct + i) ≡ mem (cs + i)

pub Same-tail : (cs ct n : ℕ) (mem : Memory) → Same cs ct (suc n) mem → Same (cs + 1) (ct + 1) n mem
unfolding Same
Same-tail cs ct n mem f i h =
    ap mem (omega arith) ∙ (f (suc i) (omega arith) ∙ ap mem (omega arith))

pub Same-head : (cs ct n : ℕ) (mem : Memory) → Same cs ct (suc n) mem → (mem ct == mem cs) ≡ true
unfolding Same
Same-head cs ct n mem f =
    eq_true (ap mem (omega arith) ∙ (f zero (omega arith) ∙ ap mem (omega arith)))
  where
    eq_true : {a b : ℕ} → a ≡ b → (a == b) ≡ true
    eq_true h = ground arith

differ : (cs ct : ℕ) (mem : Memory) → mem (ct + 0) ≢ mem (cs + 0) → (mem ct == mem cs) ≡ false
differ cs ct mem h = ne_false (λ e. h (ap mem (omega arith) ∙ (e ∙ ap mem (omega arith))))
  where
    ne_false : {a b : ℕ} → a ≢ b → (a == b) ≡ false
    ne_false h = ground arith

differ_tail :
    (cs ct i : ℕ) (mem : Memory)
    → mem (ct + suc i) ≢ mem (cs + suc i)
    → mem (ct + 1 + i) ≢ mem (cs + 1 + i)
differ_tail cs ct i mem h e = h (ap mem (omega arith) ∙ (e ∙ ap mem (omega arith)))

-- The order of the bytes at a distance, as the comparisons give it.
unfoldable pub byte_order : ℕ → ℕ → ℕ → Memory → ℤ
byte_order cs ct i mem = jl_sign (signed_ltb (mem (ct + i)) (mem (cs + i)))

byte_order_zero :
    (cs ct : ℕ) (mem : Memory) → jl_sign (signed_ltb (mem ct) (mem cs)) ≡ byte_order cs ct 0 mem
unfolding byte_order
byte_order_zero cs ct mem =
    ap₂ (λ a b. jl_sign (signed_ltb (mem a) (mem b))) (omega arith) (omega arith)

byte_order_tail :
    (cs ct i : ℕ) (mem : Memory) → byte_order (cs + 1) (ct + 1) i mem ≡ byte_order cs ct (suc i) mem
unfolding byte_order
byte_order_tail cs ct i mem =
    ap₂ (λ a b. jl_sign (signed_ltb (mem a) (mem b))) (omega arith) (omega arith)

-- `strcmp` gives 0 for the same strings.
pub strcmp-Same :
    (fuel cs ct n : ℕ) (mem : Memory)
    → n < fuel
    → IsString ct n mem
    → Same cs ct (suc n) mem
    → strcmp fuel cs ct mem ≡ some (pos 0)
unfolding strcmp
strcmp-Same zero cs ct n mem h z f = elim h [ ]
strcmp-Same (suc fuel) cs ct zero mem h z f =
    rw (strcmp, Same-head cs ct 0 mem f, FirstAt-zero 0 ct mem z) refl
strcmp-Same (suc fuel) cs ct (suc n) mem h z f =
    rw (strcmp, Same-head cs ct (suc n) mem f, FirstAt-head 0 ct n mem z)
      (strcmp-Same fuel (cs + 1) (ct + 1) n mem (omega arith) (FirstAt-tail 0 ct n mem z)
        (Same-tail cs ct (suc n) mem f))

-- `strcmp` compares two strings by the bytes at the first distance where they differ, as signed
-- bytes: 1 if the one of `ct` is less, and -1 if not, where no byte before them is zero.
pub strcmp-differ :
    (fuel cs ct i : ℕ) (mem : Memory)
    → i < fuel
    → Without 0 ct i mem
    → Same cs ct i mem
    → mem (ct + i) ≢ mem (cs + i)
    → strcmp fuel cs ct mem ≡ some (byte_order cs ct i mem)
unfolding strcmp
strcmp-differ zero cs ct i mem h z f d = elim h [ ]
strcmp-differ (suc fuel) cs ct zero mem h z f d =
    rw (strcmp, differ cs ct mem d) (ap some (byte_order_zero cs ct mem))
strcmp-differ (suc fuel) cs ct (suc i) mem h z f d =
    rw (strcmp, Same-head cs ct i mem f, Without-head 0 ct i mem z)
      (strcmp-differ fuel (cs + 1) (ct + 1) i mem (omega arith) (Without-tail 0 ct i mem z)
          (Same-tail cs ct i mem f) (differ_tail cs ct i mem d)
        ∙ ap some (byte_order_tail cs ct i mem))

-- `strncmp` gives what `strcmp` gives, where that is found within its count, which is at most
-- 2 ^ 31.
pub strncmp-strcmp :
    (count cs ct : ℕ) (r : ℤ) (mem : Memory)
    → count ≤ 0x80000000
    → strcmp count cs ct mem ≡ some r
    → strncmp cs ct count mem ≡ r
unfolding strcmp strncmp
strncmp-strcmp zero cs ct r mem h e = cc
strncmp-strcmp (suc count) cs ct r mem h e =
    by_byte (λ d. strncmp-strcmp count (cs + 1) (ct + 1) r mem (omega arith) d)
      (small count (omega arith)) (mem ct == mem cs) (mem ct == 0) refl refl
  where
    small : (n : ℕ) → suc n ≤ 0x80000000 → leb 0x80000000 n ≡ false
    small n l = ground arith

    by_byte :
        (strcmp count (cs + 1) (ct + 1) mem ≡ some r → strncmp (cs + 1) (ct + 1) count mem ≡ r)
        → leb 0x80000000 count ≡ false
        → (b c : Bool) → (mem ct == mem cs) ≡ b
        → (mem ct == 0) ≡ c
        → strncmp cs ct (suc count) mem ≡ r
    by_byte ih l true true d z =
        let e' : some (pos 0) ≡ some r = rw (strcmp, d, z) at e in rw (strncmp, l, d, z) cc
    by_byte ih l true false d z =
        let e' : strcmp count (cs + 1) (ct + 1) mem ≡ some r = rw (strcmp, d, z) at e in
        rw (strncmp, l, d, z) (ih e')
    by_byte ih l false c d z =
        let e' : some (jl_sign (signed_ltb (mem ct) (mem cs))) ≡ some r = rw (strcmp, d) at e in
        rw (strncmp, l, d) cc

-- The comparison of two blocks stops after the bytes that differ.
repe_cmpsb-differ :
    (count cs ct i : ℕ) (zf : Bool) (mem : Memory)
    → i < count
    → Same cs ct i mem
    → mem (ct + i) ≢ mem (cs + i)
    → (let f = repe_cmpsb count ct cs zf mem in
        (if f.zf then pos 0 else jl_sign f.less) ≡ byte_order cs ct i mem)
unfolding repe_cmpsb
repe_cmpsb-differ zero cs ct i zf mem h f d = elim h [ ]
repe_cmpsb-differ (suc count) cs ct zero zf mem h f d =
    rw (repe_cmpsb, differ cs ct mem d) (byte_order_zero cs ct mem)
repe_cmpsb-differ (suc count) cs ct (suc i) zf mem h f d =
    rw (repe_cmpsb, Same-head cs ct i mem f)
      (repe_cmpsb-differ count (cs + 1) (ct + 1) i true mem (omega arith) (Same-tail cs ct i mem f)
          (differ_tail cs ct i mem d)
        ∙ byte_order_tail cs ct i mem)

-- `memcmp` compares two blocks by the bytes at the first distance where they differ, as signed
-- bytes: 1 if the one of `ct` is less, and -1 if not.
pub memcmp-differ :
    (cs ct count i : ℕ) (mem : Memory)
    → i < count
    → Same cs ct i mem
    → mem (ct + i) ≢ mem (cs + i)
    → memcmp cs ct count mem ≡ byte_order cs ct i mem
unfolding memcmp
memcmp-differ cs ct count i mem h f d =
    rw (memcmp, apart) (repe_cmpsb-differ count cs ct i false mem h f d)
  where
    neither : (n a b : ℕ) → 0 < n → a ≢ b → (n == 0 || a == b) ≡ false
    neither n a b l ne = ground arith

    apart : (count == 0 || cs == ct) ≡ false
    apart = neither count cs ct (omega arith) (λ e. d (ap (λ x. mem (x + i)) (sym e)))
