-- ===== src/Request/Tests.antt =====
-- Tests of the request queue of kernel/blk_drv/ll_rw_blk.c.
use linux.Base.{ℕ, refl, Option, none, some, [], ◌∷◌, false, inl, inr}
use linux.Request.{Request, Buffer, Device, add_request, make_request, in_order, read}
use linux.Request.Elevator.{IsElevator, add_request-IsElevator}
use linux.Request.Slots.{Correct, make_request-Correct}

-- A request to read two sectors from `sector` on, with a buffer or without.
abbrev read_at : ℕ → Option ℕ → Request
read_at sector bh = record { dev = 0x301; cmd = 0; sector = sector; nr_sectors = 2; bh = bh }

abbrev device : Device
device = record { queue = read_at 10 (some 1) ∷ read_at 30 (some 2) ∷ []; starts = 1 }

add_request-IsElevator_example : IsElevator (add_request (read_at 20 (some 3)) device).queue
unfolding in_order
add_request-IsElevator_example =
    add_request-IsElevator (read_at 20 (some 3)) device refl (inl (refl, tt))
      (inr refl, (inl refl, tt))

abbrev stale : Buffer
stale = record { dev = 0x301; blocknr = 5; dirty = false; uptodate = false; locked = false }

make_request-Correct_example :
    Correct read 4 stale (none ∷ none ∷ []) (make_request read 4 stale (none ∷ none ∷ []))
make_request-Correct_example = make_request-Correct read 4 stale (none ∷ none ∷ [])
