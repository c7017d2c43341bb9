-- ===== src/String/Tests.antt =====
-- include/string.h: small memories, and the functions of strings on them.
use linux.Base.{ℕ, ◌<◌, ◌≤◌, ◌≡◌, ◌≢◌, some, inr, refl, arith, ◌==◌, if◌then◌else◌}
use linux.String.{Memory, store_byte}
use linux.String.Move.{memmove, memmove_lem, moved}
use linux.String.Search.{IsString, Without}
use linux.String.Copy.{strncat}
use linux.String.Copy.Bounded.{strncat_lem, appended}
use linux.String.Compare.{strstr}
use linux.String.Compare.Order.{Same}
use linux.String.Compare.Find.{strstr_lem}
use linux.String.Span.{Has}
use linux.String.Token.{strtok, strtok-cut}

-- "," at 8, and "a,b" at 16.
abbrev text : Memory
text a =
    if a == 8
    then b','
    else if a == 16
    then b'a'
    else if a == 17
    then b','
    else if a == 18
    then b'b'
    else 0

comma : IsString 8 1 text
unfolding Without
comma = record { here = refl; before = λ i h. ground arith }

a_comma_b : IsString 16 3 text
unfolding Without
a_comma_b = record { here = refl; before = λ i h. ground arith }

memmove_lem_example : memmove 17 16 3 text 18 ≡ moved 17 16 3 text 18
memmove_lem_example = memmove_lem 17 16 3 text 18

strncat_lem_example : strncat 16 8 5 text 20 ≡ appended 19 8 1 5 text 20
strncat_lem_example =
    strncat_lem 16 8 5 3 1 text 20 (omega arith) (omega arith) a_comma_b comma (inr (omega arith))

starts_otherwise : (x : ℕ) → 16 ≤ x → x < 17 → ¬ Same x 8 1 text
unfolding Same
starts_otherwise x l h f = absurd (ground (arith, f 0 (omega arith)))

Same-comma : Same 17 8 1 text
unfolding Same
Same-comma i h = ground arith

strstr_lem_example : strstr 4 16 8 text ≡ some 17
strstr_lem_example =
    strstr_lem 4 16 8 1 1 text (omega arith) (omega arith) comma (λ x l h. ground arith)
      starts_otherwise Same-comma

not_comma : (x : ℕ) → 16 ≤ x → x < 17 → (text x ≢ 0) × Without (text x) 8 1 text
unfolding Without
not_comma x l h = (ground arith, λ i p. ground arith)

Has-comma : Has (text 17) 8 1 text
unfolding Has Without
Has-comma = (0, omega arith, record { here = refl; before = λ i h. elim h [ ] })

strtok-cut_example :
    strtok 4 16 8 0 text ≡ some (record { res = 16; rest = 18; mem = store_byte 17 0 text })
strtok-cut_example =
    strtok-cut 4 16 8 0 16 0 17 1 text refl (ground arith) (omega arith) (omega arith) (omega arith)
      (omega arith) (omega arith) comma (λ x l h. absurd (omega arith)) not_comma (ground arith)
      Has-comma
