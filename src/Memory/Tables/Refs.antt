-- ===== src/Memory/Tables/Refs.antt =====
-- mm/memory.c: how often the entries of a page table lead to each page above low memory.
use linux.Base.{
  ℕ, zero, suc, ◌+◌, ◌-◌, ◌*◌, ◌/◌, ◌%◌, ◌≤◌, ◌<◌, ◌≡◌, ◌⊎◌, inl, inr, refl, sym, ap, ap₂, ◌∙◌,
  true, ◌&&◌, arith, leb, ◌==◌, if◌then◌else◌,
}
use linux.Memory.{low_mem, page_of, is_present}
use linux.Memory.Tables.{read_only}

abbrev pub points : ℕ → ℕ → ℕ
points entry j =
    if is_present entry && (leb low_mem (page_of entry) && (page_of entry - low_mem) / 4096 == j)
    then 1
    else 0

-- Of the `n` entries from `ptr` on, those that lead to page `j`.
unfoldable pub refs : (ℕ → ℕ) → ℕ → ℕ → ℕ → ℕ
refs mem zero ptr j = 0
refs mem (suc n) ptr j = points (mem ptr) j + refs mem n (ptr + 4) j

-- None of the `n` entries from `ptr` on is swapped out.
abbrev pub AllPresent : (ℕ → ℕ) → ℕ → ℕ → Type 0
AllPresent mem n ptr =
    (i : ℕ) → i < n → (mem (ptr + 4 * i) ≡ 0) ⊎ (is_present (mem (ptr + 4 * i)) ≡ true)

-- Two blocks of `n` entries.
abbrev pub Apart : ℕ → ℕ → ℕ → Type 0
Apart n from to = (to + 4 * n ≤ from) ⊎ (from + 4 * n ≤ to)

-- An address outside a block of `n` entries.
abbrev pub Outside : ℕ → ℕ → ℕ → Type 0
Outside n ptr a = (a < ptr) ⊎ (ptr + 4 * n ≤ a)

pub refs-same :
    (n p q j : ℕ) (f g : ℕ → ℕ)
    → ((i : ℕ) → i < n → points (f (p + 4 * i)) j ≡ points (g (q + 4 * i)) j)
    → refs f n p j ≡ refs g n q j
unfolding refs
refs-same zero p q j f g h = refl
refs-same (suc n) p q j f g h =
    ap₂ ◌+◌
      (ap₂ (λ a b. points (f a) j) (at_zero p) (at_zero q)
        ∙ (h 0 (omega arith) ∙ ap (λ a. points (g a) j) (sym (at_zero q))))
      (refs-same n (p + 4) (q + 4) j f g (λ i l.
        ap (λ a. points (f a) j) (next p i)
        ∙ (h (suc i) (omega arith) ∙ ap (λ a. points (g a) j) (sym (next q i)))))
  where
    at_zero : (x : ℕ) → x ≡ x + 4 * 0
    at_zero x = omega arith

    next : (x i : ℕ) → x + 4 + 4 * i ≡ x + 4 * suc i
    next x i = omega arith

pub AllPresent-tail :
    (f g : ℕ → ℕ) (n p : ℕ)
    → ((i : ℕ) → i < n → g (p + 4 + 4 * i) ≡ f (p + 4 + 4 * i))
    → AllPresent f (suc n) p
    → AllPresent g n (p + 4)
AllPresent-tail f g n p e h i l = moved (ap f (next i)) (e i l) (h (suc i) (omega arith))
  where
    next : (i : ℕ) → p + 4 + 4 * i ≡ p + 4 * suc i
    next i = omega arith

    moved :
        {x y z : ℕ}
        → y ≡ z
        → x ≡ y
        → (z ≡ 0) ⊎ (is_present z ≡ true)
        → (x ≡ 0) ⊎ (is_present x ≡ true)
    moved a b (inl c) = inl (b ∙ (a ∙ c))
    moved a b (inr c) = inr (ap is_present (b ∙ a) ∙ c)

-- The write protection changes neither the page nor the presence.
pub points-read_only : (e j : ℕ) → points (read_only e) j ≡ points e j
points-read_only e j =
    ap₂ (λ p q. if p && (leb low_mem q && (q - low_mem) / 4096 == j) then 1 else 0) same_present
      same_page
  where
    parity : read_only e % 2 ≡ e % 2
    parity = omega arith

    same_present : is_present (read_only e) ≡ is_present e
    same_present = ap (λ k. k == 1) parity

    same_page : page_of (read_only e) ≡ page_of e
    same_page = omega arith
