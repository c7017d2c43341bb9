-- ===== src/Request/Elevator.antt =====
-- The order in which the queue of a device serves buffers: at most two ascending sweeps.
use linux.Base.{ℕ, ◌≡◌, ◌⊎◌, inl, inr, true, false, List, [], ◌∷◌, arith}
use linux.Request.{Request, has_bh, in_order, stops, place, Device, add_request, end_request}

abbrev pub Before : Request → Request → Type 0
Before a b = in_order a b ≡ true

in_order_asym : (a b : Request) → Before a b → in_order b a ≡ false
unfolding in_order
in_order_asym a b h = ground arith

in_order_trans : (a b c : Request) → Before a b → Before b c → Before a c
unfolding in_order
in_order_trans a b c h k = ground arith

-- The requests behind `tmp` ascend.
abbrev pub Ascends : Request → List Request → Type 0
Ascends tmp [] = Unit
Ascends tmp (n ∷ rest) = Before tmp n × Ascends n rest

-- They ascend, but for at most one step back, where a second sweep begins.
abbrev pub TwoSweeps : Request → List Request → Type 0
TwoSweeps tmp [] = Unit
TwoSweeps tmp (n ∷ rest) = (Before tmp n × TwoSweeps n rest) ⊎ (Before n tmp × Ascends n rest)

-- `req` asks for another place than each request of the list.
abbrev pub Apart : Request → List Request → Type 0
Apart req [] = Unit
Apart req (n ∷ rest) = (Before req n ⊎ Before n req) × Apart req rest

module _ (req : Request) (buffer : has_bh req ≡ true) where
  stop_between : (tmp n : Request) → Before tmp req → Before req n → stops req tmp n ≡ true
  unfolding stops
  stop_between tmp n h k = rw (buffer, h, k)

  pass_below : (tmp n : Request) → Before n req → stops req tmp n ≡ false
  unfolding stops
  pass_below tmp n h = ground (arith, buffer, in_order_asym n req h)

  pass_behind : (tmp n : Request) → Before req tmp → Before tmp n → stops req tmp n ≡ false
  unfolding stops
  pass_behind tmp n h k = ground (arith, buffer, in_order_asym req tmp h)

  stop_at_turn : (tmp n : Request) → Before n tmp → Before req n → stops req tmp n ≡ true
  unfolding stops
  stop_at_turn tmp n h k = ground (arith, buffer, in_order_asym n tmp h)

  place-Ascends :
      (tmp : Request) (l : List Request)
      → Ascends tmp l
      → Apart req l
      → Before tmp req
      → Ascends tmp (place req tmp l)
  unfolding place
  place-Ascends tmp [] a p h = (h, tt)
  place-Ascends tmp (n ∷ rest) a (inl below, p) h =
      rw (stop_between tmp n h below) (h, (below, a.1))
  place-Ascends tmp (n ∷ rest) a (inr above, p) h =
      rw (pass_below tmp n above) (a.0, place-Ascends n rest a.1 p above)

  place-ahead :
      (tmp : Request) (l : List Request)
      → TwoSweeps tmp l
      → Apart req l
      → Before tmp req
      → TwoSweeps tmp (place req tmp l)
  unfolding place
  place-ahead tmp [] s p h = inl (h, tt)
  place-ahead tmp (n ∷ rest) (inl (up, s)) (inl below, p) h =
      rw (stop_between tmp n h below) (inl (h, inl (below, s)))
  place-ahead tmp (n ∷ rest) (inl (up, s)) (inr above, p) h =
      rw (pass_below tmp n above) (inl (up, place-ahead n rest s p above))
  place-ahead tmp (n ∷ rest) (inr (down, a)) (d, p) h =
      let above : Before n req = in_order_trans n tmp req down h in
      rw (pass_below tmp n above) (inr (down, place-Ascends n rest a p above))

  place-behind :
      (tmp : Request) (l : List Request)
      → TwoSweeps tmp l
      → Apart req l
      → Before req tmp
      → TwoSweeps tmp (place req tmp l)
  unfolding place
  place-behind tmp [] s p h = inr (h, tt)
  place-behind tmp (n ∷ rest) (inl (up, s)) (d, p) h =
      rw (pass_behind tmp n h up)
        (inl (up, place-behind n rest s p (in_order_trans req tmp n h up)))
  place-behind tmp (n ∷ rest) (inr (down, a)) (inl below, p) h =
      rw (stop_at_turn tmp n down below) (inr (h, (below, a)))
  place-behind tmp (n ∷ rest) (inr (down, a)) (inr above, p) h =
      rw (pass_below tmp n above) (inr (down, place-Ascends n rest a p above))

-- A device serves its queue in at most two sweeps.
abbrev pub IsElevator : List Request → Type 0
IsElevator [] = Unit
IsElevator (first ∷ rest) = TwoSweeps first rest

add-IsElevator :
    (req : Request) (queue : List Request) (starts : ℕ)
    → has_bh req ≡ true
    → IsElevator queue
    → Apart req queue
    → IsElevator (add_request req (record { queue = queue; starts = starts })).queue
unfolding add_request
add-IsElevator req [] starts b e p = tt
add-IsElevator req (first ∷ rest) starts b e (inl below, p) =
    place-behind req b first rest e p below
add-IsElevator req (first ∷ rest) starts b e (inr above, p) = place-ahead req b first rest e p above

-- `add_request` keeps the queue of a device in at most two ascending sweeps by command, device and
-- sector, for a request with a buffer that asks for another place than each request in the queue.
pub add_request-IsElevator :
    (req : Request) (d : Device)
    → has_bh req ≡ true
    → IsElevator d.queue
    → Apart req d.queue
    → IsElevator (add_request req d).queue
add_request-IsElevator req d = add-IsElevator req d.queue d.starts

Ascends-TwoSweeps : (n : Request) (l : List Request) → Ascends n l → TwoSweeps n l
Ascends-TwoSweeps n [] a = tt
Ascends-TwoSweeps n (m ∷ l) (h, a) = inl (h, Ascends-TwoSweeps m l a)

end-IsElevator :
    (queue : List Request) (starts : ℕ)
    → IsElevator queue
    → IsElevator (end_request (record { queue = queue; starts = starts })).queue
unfolding end_request
end-IsElevator [] starts e = tt
end-IsElevator (first ∷ []) starts e = tt
end-IsElevator (first ∷ n ∷ rest) starts (inl (up, s)) = s
end-IsElevator (first ∷ n ∷ rest) starts (inr (down, a)) = Ascends-TwoSweeps n rest a

-- The end of a request keeps the queue of a device in at most two ascending sweeps.
pub end_request-IsElevator : (d : Device) → IsElevator d.queue → IsElevator (end_request d).queue
end_request-IsElevator d = end-IsElevator d.queue d.starts
