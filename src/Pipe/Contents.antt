-- ===== src/Pipe/Contents.antt =====
-- What a pipe holds: the bytes from the tail up to the head, going round at the end of the page.
use linux.Base.{
  ℕ, zero, suc, ◌+◌, ◌%◌, ◌≤◌, ◌<◌, ◌≡◌, refl, ap, ap₂, ◌∙◌, List, [], ◌∷◌, ◌++◌, arith, get_or,
  length,
}
use linux.Pipe.{Pipe, page_size, size, slice}

-- Head and tail lie in the page.
pub record IsValid (p : Pipe) : Type 0 where
  pub page : length p.page ≡ page_size
  pub head : p.head < page_size
  pub tail : p.tail < page_size

unfoldable pub window : List ℕ → ℕ → ℕ → List ℕ
window page i zero = []
window page i (suc n) = get_or page i 0 ∷ window page ((i + 1) % page_size) n

unfoldable pub contents : Pipe → List ℕ
contents p = window p.page p.tail (size p)

pub length-window : (page : List ℕ) (i n : ℕ) → length (window page i n) ≡ n
unfolding window
length-window page i zero = refl
length-window page i (suc n) = ap suc (length-window page ((i + 1) % page_size) n)

-- A chunk that does not reach past the end of the page is read in one go.
pub slice-window : (page : List ℕ) (i n : ℕ) → i + n ≤ page_size → slice page i n ≡ window page i n
unfolding slice window
slice-window page i zero h = refl
slice-window page i (suc zero) h = refl
slice-window page i (suc (suc n)) h =
    ap (λ l. get_or page i 0 ∷ l)
      (slice-window page (i + 1) (suc n) (omega arith)
        ∙ ap (λ j. window page j (suc n)) (omega arith))

pub window-add :
    (page : List ℕ) (i m n : ℕ)
    → i < page_size
    → window page i (m + n) ≡ window page i m ++ window page ((i + m) % page_size) n
unfolding window
window-add page i zero n h =
    ap₂ (window page) (let e : i ≡ (i + 0) % page_size = omega arith in e) (omega arith)
window-add page i (suc m) n h =
    ap (window page i) (let e : suc m + n ≡ suc (m + n) = omega arith in e)
    ∙ ap (λ l. get_or page i 0 ∷ l)
        (window-add page ((i + 1) % page_size) m n (omega arith)
          ∙ ap (λ j. window page ((i + 1) % page_size) m ++ window page j n) (omega arith))
