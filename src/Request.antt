-- ===== src/Request.antt =====
-- kernel/blk_drv/ll_rw_blk.c and blk.h: the request table and the queue of a block device.
-- The queue that starts at `current_request` is a list; `request[NR_REQUEST]` is a list of slots,
-- `none` for one whose `dev` is -1. A buffer head is a number, its state a record.
pub mod Elevator
pub mod Swap
pub mod Slots
mod Tests
use linux.Base.{
  ℕ, zero, suc, ◌+◌, ◌*◌, ◌/◌, ◌^◌, ◌%◌, Bool, true, false, not, ◌&&◌, ◌||◌, Option, none, some,
  List, [], ◌∷◌, ltb, ◌==◌, if◌then◌else◌, get_or, set,
}

-- READ 0, WRITE 1, READA 2, WRITEA 3 of include/linux/fs.h; any other number is a bad command.
abbrev pub read : ℕ
read = 0

abbrev pub write : ℕ
write = 1

abbrev pub reada : ℕ
reada = 2

abbrev pub writea : ℕ
writea = 3

abbrev pub nr_request : ℕ
nr_request = 32

-- `bh` is the buffer head, `none` for a request of the swapper.
pub record Request : Type 0 where
  pub dev : ℕ
  pub cmd : ℕ
  pub sector : ℕ
  pub nr_sectors : ℕ
  pub bh : Option ℕ

abbrev pub has_bh : Request → Bool
has_bh r = elim r.bh [ none ↦ false | some b ↦ true ]

-- IN_ORDER of blk.h.
unfoldable pub in_order : Request → Request → Bool
in_order s t =
    ltb s.cmd t.cmd
    || (s.cmd == t.cmd && (ltb s.dev t.dev || (s.dev == t.dev && ltb s.sector t.sector)))

-- The test in the loop of `add_request`, at `tmp` and `tmp->next`.
unfoldable pub stops : Request → Request → Request → Bool
stops req tmp next =
    if not (has_bh req)
    then has_bh next
    else (in_order tmp req || not (in_order tmp next)) && in_order req next

-- The loop: `req` goes behind `tmp`, which stands in front of the list.
unfoldable pub place : Request → Request → List Request → List Request
place req tmp [] = req ∷ []
place req tmp (next ∷ rest) =
    let further = next ∷ place req next rest in
    if stops req tmp next then req ∷ next ∷ rest else further

-- The state of a buffer head that the requests read and write.
pub record Buffer : Type 0 where
  pub dev : ℕ
  pub blocknr : ℕ
  pub dirty : Bool
  pub uptodate : Bool
  pub locked : Bool

-- A device: its queue, and how often its `request_fn` has been called to start it.
pub record Device : Type 0 where
  pub queue : List Request
  pub starts : ℕ

unfoldable pub add_request : Request → Device → Device
unfolding place
add_request req d = elim d.queue [
  | [] ↦ record { queue = req ∷ []; starts = d.starts + 1 }
  | first ∷ rest ↦ record d { queue = first ∷ place req first rest }
]

-- `if (req->bh) req->bh->b_dirt = 0;`, at the buffer of the request.
abbrev pub cleaned : Buffer → Buffer
cleaned b = record b { dirty = false }

-- `end_request` on the queue: the head is done and leaves it.
unfoldable pub end_request : Device → Device
end_request d = elim d.queue [ [] ↦ d | first ∷ rest ↦ record d { queue = rest } ]

-- `while (--req >= request) if (req->dev < 0)`: the highest free slot below `limit`.
unfoldable pub find_empty : ℕ → List (Option Request) → Option ℕ
find_empty zero slots = none
find_empty (suc k) slots =
    let lower = find_empty k slots in elim (get_or slots k none) [ none ↦ some k | some r ↦ lower ]

-- What `make_request` comes to. `wait_buffer` and `wait_slot` are the calls of `sleep_on`, after
-- which it goes on as if called anew; `dropped` is a read-ahead that is forgotten.
pub data Made : Type 0 where
  dropped : Buffer → Made
  bad_command : Made
  nothing_to_do : Buffer → Made
  wait_buffer : Made
  wait_slot : Buffer → Made
  queued : ℕ → Request → Buffer → Made

abbrev pub is_ahead : ℕ → Bool
is_ahead rw = (rw == reada) || (rw == writea)

-- The command without its read-ahead mark.
abbrev pub plain : ℕ → ℕ
plain rw = if rw == reada then read else if rw == writea then write else rw

abbrev pub slot_limit : ℕ → ℕ
slot_limit rw = if rw == read then nr_request else nr_request * 2 / 3

abbrev pub fill : ℕ → ℕ → Buffer → Request
fill rw bh b = record {
  dev = b.dev;
  cmd = rw;
  sector = b.blocknr * 2 % 2 ^ 32;
  nr_sectors = 2;
  bh = some bh;
}

-- With the buffer locked for the request: find a slot.
take_slot : Bool → ℕ → ℕ → Buffer → List (Option Request) → Made
take_slot ahead rw bh b slots = elim (find_empty (slot_limit rw) slots) [
  | some k ↦ queued k (fill rw bh b) (cleaned b)
  | none ↦ if ahead then dropped (record b { locked = false }) else wait_slot b
]

unfoldable pub make_request : ℕ → ℕ → Buffer → List (Option Request) → Made
unfolding take_slot
make_request rw bh b slots =
    if is_ahead rw && b.locked
    then dropped b
    else if not (plain rw == read) && not (plain rw == write)
    then bad_command
    else if b.locked
    then wait_buffer
    else if (plain rw == write && not b.dirty) || (plain rw == read && b.uptodate)
    then nothing_to_do (record b { locked = false })
    else take_slot (is_ahead rw) (plain rw) bh (record b { locked = true }) slots
