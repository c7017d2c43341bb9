-- ===== src/String/Token.antt =====
-- include/string.h: `strtok`, with `___strtok` as an argument and a result.
use linux.Base.{
  ℕ, ◌+◌, ◌-◌, ◌≤◌, ◌<◌, ◌≡◌, ◌≢◌, Bool, true, false, not, ◌&&◌, Option, some, refl, ◌∙◌, ap, arith,
  ◌==◌, if◌then◌else◌, ◌>>=◌,
}
use linux.String.{Memory, store_byte, strlen}
use linux.String.Search.{IsString, strlen-IsString, Without}
use linux.String.Span.{
  while_among, until_among, while_among_lem, until_among_lem, Has, among-Has, among-Without, among,
}

-- The address of the token, or NULL, what `___strtok` is then, and the memory.
pub record Token : Type 0 where
  pub res : ℕ
  pub rest : ℕ
  pub mem : Memory

abbrev pub no_token : Memory → Token
no_token mem = record { res = 0; rest = 0; mem = mem }

-- From the end of the loop at the label 3 on: `ebx` is the beginning of the token.
abbrev pub end_token : ℕ → Bool → ℕ → Memory → Token
end_token ebx matched esi mem =
    let cut = matched && not (mem (esi - 1) == 0) in
    let mem' : Memory = if cut then store_byte (esi - 1) 0 mem else mem in
    if mem' ebx == 0
    then no_token mem'
    else record { res = ebx; rest = if cut then esi else 0; mem = mem' }

-- The loop at the label 2 stops at the end of the string or at the first byte that is not in `ct`;
-- the test after it is for the first of these.
unfoldable pub strtok : ℕ → ℕ → ℕ → ℕ → Memory → Option Token
unfolding while_among until_among strlen
strtok fuel s ct strtok_rest mem =
    let esi = if s == 0 then strtok_rest else s in
    let edx = strlen ct mem in
    if esi == 0
    then some (no_token mem)
    else if edx == 0
    then some (no_token mem)
    else (while_among fuel esi ct edx mem >>= λ p.
        if mem (p - 1) == 0
        then some (no_token mem)
        else (until_among fuel (p - 1) ct edx mem >>= λ r. some (end_token (p - 1) r.0 r.1 mem)))

ne_false : {a : ℕ} → a ≢ 0 → (a == 0) ≡ false
ne_false h = ground arith

-- The two loops: `k` bytes of `ct` are passed, and then the bytes that are not, up to `e`.
strtok-end_token :
    (fuel s ct rest start k e m : ℕ) (mem : Memory) (b : Bool)
    → (if s == 0 then rest else s) ≡ start
    → start ≢ 0
    → k < fuel
    → start + k < e
    → e < start + k + fuel
    → 0 < m
    → m < 0xffffffff
    → IsString ct m mem
    → ((x : ℕ) → start ≤ x → x < start + k → (mem x ≢ 0) × Has (mem x) ct m mem)
    → ((x : ℕ) → start + k ≤ x → x < e → (mem x ≢ 0) × Without (mem x) ct m mem)
    → ((mem e == 0) ≡ not b) × (b ≡ true → among (mem e) ct m mem ≡ true)
    → strtok fuel s ct rest mem ≡ some (end_token (start + k) b (e + 1) mem)
unfolding strtok
strtok-end_token fuel s ct rest start k e m mem b st ne h h1 h2 h3 h4 i f g j =
    rw
      (
        strtok,
        st,
        ne_false ne,
        strlen-IsString ct m mem h4 i,
        ne_false pos_m,
        while_among_lem fuel start (start + k) ct m mem (omega arith) (omega arith)
            (λ x l u. (ne_false (f x l u).0, among-Has (mem x) ct m mem (f x l u).1))
            (among-Without (mem (start + k)) ct m mem (g (start + k) (omega arith) h1).1),
        back,
        ne_false (g (start + k) (omega arith) h1).0,
        until_among_lem fuel (start + k) e ct m mem b (omega arith) h2
            (λ x l u. (ne_false (g x l u).0, among-Without (mem x) ct m mem (g x l u).1)) j,
      )
      refl
  where
    pos_m : m ≢ 0
    pos_m = omega arith

    back : start + k + 1 - 1 ≡ start + k
    back = omega arith

-- `strtok` ends the token with a zero byte in place of the byte of `ct` after it, and goes on after
-- that byte the next time: where it starts at `s`, or at what the call before left if `s` is NULL,
-- and that is not NULL, `ct` is not empty and shorter than 0xffffffff bytes, `k` bytes of `ct`
-- come first, then at least one byte that is neither in `ct` nor zero, and `e` is the first byte
-- of `ct` after them.
pub strtok-cut :
    (fuel s ct rest start k e m : ℕ) (mem : Memory)
    → (if s == 0 then rest else s) ≡ start
    → start ≢ 0
    → k < fuel
    → start + k < e
    → e < start + k + fuel
    → 0 < m
    → m < 0xffffffff
    → IsString ct m mem
    → ((x : ℕ) → start ≤ x → x < start + k → (mem x ≢ 0) × Has (mem x) ct m mem)
    → ((x : ℕ) → start + k ≤ x → x < e → (mem x ≢ 0) × Without (mem x) ct m mem)
    → mem e ≢ 0
    → Has (mem e) ct m mem
    → strtok fuel s ct rest mem
      ≡ some (record { res = start + k; rest = e + 1; mem = store_byte e 0 mem })
unfolding strtok
strtok-cut fuel s ct rest start k e m mem st ne h h1 h2 h3 h4 i f g z d =
    strtok-end_token fuel s ct rest start k e m mem true st ne h h1 h2 h3 h4 i f g
      (ne_false z, λ _. among-Has (mem e) ct m mem d)
    ∙ ap some cut
  where
    back : e + 1 - 1 ≡ e
    back = omega arith

    first : store_byte e 0 mem (start + k) == 0 ≡ false
    first = ground (arith, (g (start + k) (omega arith) h1).0)

    cut :
        end_token (start + k) true (e + 1) mem
        ≡ record { res = start + k; rest = e + 1; mem = store_byte e 0 mem }
    cut = rw (back, ne_false z, first) refl

-- The last token ends with the string: `strtok` leaves memory as it is, and finds no token the
-- next time.
pub strtok-last :
    (fuel s ct rest start k e m : ℕ) (mem : Memory)
    → (if s == 0 then rest else s) ≡ start
    → start ≢ 0
    → k < fuel
    → start + k < e
    → e < start + k + fuel
    → 0 < m
    → m < 0xffffffff
    → IsString ct m mem
    → ((x : ℕ) → start ≤ x → x < start + k → (mem x ≢ 0) × Has (mem x) ct m mem)
    → ((x : ℕ) → start + k ≤ x → x < e → (mem x ≢ 0) × Without (mem x) ct m mem)
    → mem e ≡ 0
    → strtok fuel s ct rest mem ≡ some (record { res = start + k; rest = 0; mem = mem })
unfolding strtok
strtok-last fuel s ct rest start k e m mem st ne h h1 h2 h3 h4 i f g z =
    strtok-end_token fuel s ct rest start k e m mem false st ne h h1 h2 h3 h4 i f g
      (eq_true z, λ q. absurd (cc))
    ∙ ap some (rw (ne_false (g (start + k) (omega arith) h1).0) refl)
  where
    eq_true : {a : ℕ} → a ≡ 0 → (a == 0) ≡ true
    eq_true z = ground arith
