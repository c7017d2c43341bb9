-- ===== src/Request/Swap.antt =====
-- Requests without a buffer, which are those of the swapper.
use linux.Base.{ℕ, ◌≡◌, refl, ap, inl, inr, true, false, List, [], ◌∷◌, ◌++◌, Bool-cases}
use linux.Request.{Request, has_bh, in_order, stops, place, add_request}

abbrev pub AllSwap : List Request → Type 0
AllSwap [] = Unit
AllSwap (n ∷ rest) = (has_bh n ≡ false) × AllSwap rest

-- The list is empty, or a request with a buffer comes first.
abbrev pub StartsWithBuffer : List Request → Type 0
StartsWithBuffer [] = Unit
StartsWithBuffer (n ∷ rest) = has_bh n ≡ true

pub record Inserted (req : Request) (l out : List Request) : Type 0 where
  pub before : List Request
  pub after : List Request
  pub split : l ≡ before ++ after
  pub joined : out ≡ before ++ req ∷ after

-- Every request keeps its place in front of or behind every other.
pub place-Inserted : (req tmp : Request) (l : List Request) → Inserted req l (place req tmp l)
unfolding place
place-Inserted req tmp [] = record { before = []; after = []; split = refl; joined = refl }
place-Inserted req tmp (n ∷ rest) = elim (Bool-cases (stops req tmp n)) [
  | inl s ↦ record { before = []; after = n ∷ rest; split = refl; joined = rw s }
  | inr go ↦
      let r = place-Inserted req n rest in
      record {
        before = n ∷ r.before;
        after = r.after;
        split = ap (λ l. n ∷ l) r.split;
        joined = rw go (ap (λ l. n ∷ l) r.joined);
      }
]

-- A request of the swapper goes behind the first request of the queue and behind the swapper's
-- requests that follow it, in the order of their arrival, and in front of the next request with a
-- buffer; the others keep their order.
pub record SwapPlaced (req : Request) (l out : List Request) : Type 0 where
  pub inserted : Inserted req l out
  pub swap_before : AllSwap inserted.before
  pub buffer_after : StartsWithBuffer inserted.after

place_swap :
    (req tmp : Request) (l : List Request) → has_bh req ≡ false → SwapPlaced req l (place req tmp l)
unfolding place stops
place_swap req tmp [] h = record {
  inserted = record { before = []; after = []; split = refl; joined = refl };
  swap_before = tt;
  buffer_after = tt;
}
place_swap req tmp (n ∷ rest) h = elim (Bool-cases (has_bh n)) [
  | inl b ↦ record {
    inserted = record { before = []; after = n ∷ rest; split = refl; joined = rw (h, b) };
    swap_before = tt;
    buffer_after = b;
  }
  | inr s ↦
      let r = place_swap req n rest h in
      record {
        inserted = record {
          before = n ∷ r.inserted.before;
          after = r.inserted.after;
          split = ap (λ l. n ∷ l) r.inserted.split;
          joined = rw (h, s) (ap (λ l. n ∷ l) r.inserted.joined);
        };
        swap_before = (s, r.swap_before);
        buffer_after = r.buffer_after;
      }
]

-- On a busy device `add_request` keeps the first request first, and puts the swapper's request
-- behind it and behind the swapper's requests that follow, and in front of the next request with a
-- buffer; no other two requests change places.
pub add_request_swap :
    (req first : Request) (rest : List Request) (starts : ℕ)
    → has_bh req ≡ false
    → (out : List Request) × (add_request req (record { queue = first ∷ rest; starts = starts })
        ≡ record { queue = first ∷ out; starts = starts })
      × SwapPlaced req rest out
unfolding add_request
add_request_swap req first rest starts h = (place req first rest, refl, place_swap req first rest h)

-- A new request with a buffer that comes between the first request and a waiting request of the
-- swapper in the order of the elevator is put in front of that of the swapper.
pub buffer_overtakes_swap :
    (req first swap : Request) (rest : List Request) (starts : ℕ)
    → has_bh req ≡ true
    → has_bh swap ≡ false
    → in_order first req ≡ true
    → in_order req swap ≡ true
    → add_request req (record { queue = first ∷ swap ∷ rest; starts = starts })
      ≡ record { queue = first ∷ req ∷ swap ∷ rest; starts = starts }
unfolding add_request place stops
buffer_overtakes_swap req first swap rest starts b s h k = rw (b, h, k)
