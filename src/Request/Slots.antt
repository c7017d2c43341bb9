-- ===== src/Request/Slots.antt =====
-- Which slot of the request table `make_request` takes, and when it waits.
use mathlib.Core.Path.{subst}
use native.Mathlib.Decide.{ℕ_discrete}
use linux.Base.{
  ℕ, zero, suc, ◌≤◌, ◌<◌, ◌≡◌, ◌≢◌, refl, sym, ◌⊎◌, inl, inr, true, false, ◌||◌, ◌&&◌, Bool, not,
  Option, ◌*◌, ◌%◌, ◌^◌, ap, none, some, List, arith, Bool-cases, Option-cases, if◌then◌else◌,
  get_or, ◌==◌,
}
use linux.Request.{
  Request, Buffer, find_empty, slot_limit, read, write, plain, is_ahead, fill, cleaned, Made,
  queued, wait_slot, make_request, take_slot, dropped, bad_command, wait_buffer, nothing_to_do,
}

abbrev pub Slots : Type 0
Slots = List (Option Request)

-- The slots from `lo` up to `hi` are in use.
abbrev pub Used : Slots → ℕ → ℕ → Type 0
Used slots lo hi = (i : ℕ) → lo ≤ i → i < hi → get_or slots i none ≢ none

-- What `find_empty` says of the slots below the limit.
abbrev pub Found : ℕ → Slots → Option ℕ → Type 0
Found limit slots none = Used slots 0 limit
Found limit slots (some k) = (k < limit) × (get_or slots k none ≡ none) × Used slots (suc k) limit

Found-suc :
    (k : ℕ) (slots : Slots) (o : Option ℕ)
    → get_or slots k none ≢ none
    → Found k slots o
    → Found (suc k) slots o
Found-suc k slots none u f =
    λ i lo hi. elim (ℕ_discrete i k) [ yes p ↦ rw p u | no p ↦ f i lo (omega arith) ]
Found-suc k slots (some j) u f = (
  omega arith,
  f.1,
  λ i lo hi. elim (ℕ_discrete i k) [ yes p ↦ rw p u | no p ↦ f.2 i lo (omega arith) ],
)

abbrev Step : ℕ → Slots → Option Request → Type 0
Step k slots slot = Found (suc k) slots (elim slot [ none ↦ some k | some r ↦ find_empty k slots ])

pub find_empty-Found : (limit : ℕ) (slots : Slots) → Found limit slots (find_empty limit slots)
unfolding find_empty
find_empty-Found zero slots = λ i lo hi. absurd (omega arith)
find_empty-Found (suc k) slots = elim (Option-cases (get_or slots k none)) [
  | inl e ↦ subst (Step k slots) (sym e) (omega arith, e, λ i lo hi. absurd (omega arith))
  | inr (r, e) ↦
      subst (Step k slots) (sym e)
        (Found-suc k slots (find_empty k slots) (λ n. cc) (find_empty-Found k slots))
]

-- READ is 0, WRITE 1, READA 2 and WRITEA 3.
abbrev pub reads : ℕ → Bool
reads rw = (rw == 0) || (rw == 2)

-- A read may use all 32 slots, a write the lower 21.
abbrev pub slots_for : ℕ → ℕ
slots_for rw = if reads rw then 32 else 21

-- A read is needed if the buffer is not up to date, a write if it is dirty.
abbrev pub is_needed : ℕ → Buffer → Bool
is_needed rw b = if reads rw then not b.uptodate else b.dirty

-- What each result of `make_request` means.
abbrev pub Correct : ℕ → ℕ → Buffer → Slots → Made → Type 0
Correct rw bh b slots (queued k req b') =
    (rw < 4)
    × (b.locked ≡ false)
    × (is_needed rw b ≡ true)
    × (k < slots_for rw)
    × (get_or slots k none ≡ none)
    × Used slots (suc k) (slots_for rw)
    × (req ≡ record {
      dev = b.dev;
      cmd = if reads rw then 0 else 1;
      sector = b.blocknr * 2 % 2 ^ 32;
      nr_sectors = 2;
      bh = some bh;
    })
    × (b' ≡ record b { dirty = false; locked = true })
Correct rw bh b slots (wait_slot b') =
    (rw < 2)
    × (b.locked ≡ false)
    × (is_needed rw b ≡ true)
    × Used slots 0 (slots_for rw)
    × (b' ≡ record b { locked = true })
Correct rw bh b slots (dropped b') =
    (2 ≤ rw)
    × (rw < 4)
    × ((b.locked ≡ true) × (b' ≡ b)
        ⊎ (is_needed rw b ≡ true)
          × Used slots 0 (slots_for rw)
          × (b' ≡ record b { locked = false }))
Correct rw bh b slots bad_command = 4 ≤ rw
Correct rw bh b slots wait_buffer = (rw < 2) × (b.locked ≡ true)
Correct rw bh b slots (nothing_to_do b') =
    (rw < 4) × (b.locked ≡ false) × (is_needed rw b ≡ false) × (b' ≡ record b { locked = false })

-- A command that is none of the four is refused before this.
command_limit :
    (rw : ℕ)
    → rw < 4
    → (slot_limit (plain rw) ≡ slots_for rw) × (plain rw ≡ (if reads rw then 0 else 1))
command_limit rw h = ground arith

abbrev Taken : ℕ → ℕ → Buffer → Slots → Option ℕ → Type 0
Taken rw bh b slots slot = Correct rw bh b slots (elim slot [
  | some k ↦
      queued k (fill (plain rw) bh (record b { locked = true }))
        (cleaned (record b { locked = true }))
  | none ↦
      if is_ahead rw
      then dropped (record (record b { locked = true }) { locked = false })
      else wait_slot (record b { locked = true })
])

take_slot-Correct :
    (rw bh : ℕ) (b : Buffer) (slots : Slots)
    → rw < 4
    → b.locked ≡ false
    → is_needed rw b ≡ true
    → Correct rw bh b slots
        (take_slot (is_ahead rw) (plain rw) bh (record b { locked = true }) slots)
unfolding take_slot
take_slot-Correct r bh b slots small free need = go (find_empty (slot_limit (plain r)) slots) (
    subst (λ n. Found n slots (find_empty (slot_limit (plain r)) slots)) (command_limit r small).0
      (find_empty-Found (slot_limit (plain r)) slots))
  where
    go : (o : Option ℕ) → Found (slots_for r) slots o → Taken r bh b slots o
    go (some k) f = (
      small,
      free,
      need,
      f.0,
      f.1,
      f.2,
      ap (λ c. fill c bh (record b { locked = true })) (command_limit r small).1,
      refl,
    )
    go none f = elim (Bool-cases (is_ahead r)) [
      | inl y ↦ rw y (ground arith, small, inr (need, f, refl))
      | inr n ↦ rw n (ground arith, free, need, f, refl)
    ]

-- `make_request` refuses a command that is none of the four. It drops a read-ahead or write-ahead for a
-- locked buffer, and waits for a locked buffer otherwise. It has nothing to do for a read of a buffer
-- that is up to date and a write of one that is not dirty. Otherwise it queues the request for the two
-- sectors of the block, in the highest free slot, of all 32 for a read and of the lower 21 for a write,
-- with the buffer locked and clean; or, if all these slots are in use, it drops a read-ahead or
-- write-ahead, with the buffer unlocked, and waits for a slot for the others.
pub make_request-Correct :
    (rw bh : ℕ) (b : Buffer) (slots : Slots) → Correct rw bh b slots (make_request rw bh b slots)
unfolding make_request
make_request-Correct r bh b slots = elim (Bool-cases (is_ahead r && b.locked)) [
  | inl p ↦ rw p (ground arith, ground arith, inl (ground arith, refl))
  | inr p ↦ elim (Bool-cases (not (plain r == read) && not (plain r == write))) [
    | inl q ↦ rw (p, q) (ground arith)
    | inr q ↦ elim (Bool-cases b.locked) [
      | inl l ↦ rw (p, q, l) (ground arith, refl)
      | inr l ↦
          let small : r < 4 = ground (arith, q) in
          elim (Bool-cases ((plain r == write && not b.dirty) || (plain r == read && b.uptodate))) [
            | inl n ↦ rw (p, q, l, n) (small, refl, ground arith, refl)
            | inr n ↦
                rw (p, q, l, n)
                  (take_slot-Correct r bh (record b { locked = false }) slots small refl
                    (ground arith))
          ]
    ]
  ]
]
