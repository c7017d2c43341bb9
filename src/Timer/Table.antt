-- ===== src/Timer/Table.antt =====
-- The loop of `do_timer` over `timer_table`: which entries it switches off, and which it runs.
use linux.Base.{
  ℕ, ◌≡◌, ◌≢◌, Bool, false, List, [], ◌∷◌, if◌then◌else◌, ◌==◌, leb, get_or, ◌&&◌, ◌||◌,
}
use linux.Base.Bits.{bit, bit_and, bit_not, one_shl}
use linux.Timer.{TimerTable}

unfoldable pub contains : List ℕ → ℕ → Bool
contains [] j = false
contains (i ∷ is) j = (i == j) || contains is j

-- Entry `j` is active and its time has come.
abbrev pub is_due : ℕ → TimerTable → ℕ → Bool
is_due jiffies st j = (bit st.active j == 1) && leb (get_or st.expires j 0) jiffies

-- The functions of other entries do not touch the entry `j`, and its own leaves it active or not.
pub record OwnEntry (call : ℕ → TimerTable → TimerTable) (j rearmed : ℕ) : Type 0 where
  pub others :
      (i : ℕ) (st : TimerTable)
      → i ≢ j
      → (bit (call i st).active j ≡ bit st.active j)
        × (get_or (call i st).expires j 0 ≡ get_or st.expires j 0)
  pub own : (st : TimerTable) → bit (call j st).active j ≡ rearmed

module _ (call : ℕ → TimerTable → TimerTable) (j rearmed : ℕ) (own : OwnEntry call j rearmed) where
  abbrev Outcome : ℕ → ℕ → TimerTable → TimerTable × List ℕ → Type 0
  Outcome i jiffies st (out, fired) =
      (bit out.active j ≡ (if leb i j && is_due jiffies st j then rearmed else bit st.active j))
      × (contains fired j ≡ (leb i j && is_due jiffies st j))

  -- The table that the loop goes on with after entry `i`.
  after : ℕ → TimerTable → TimerTable
  after i st = call i (record st { active = bit_and st.active (bit_not 32 (one_shl i)) })
