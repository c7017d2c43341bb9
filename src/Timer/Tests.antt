-- ===== src/Timer/Tests.antt =====
-- Tests of the timers of kernel/sched.c.
use linux.Base.{ℕ, ◌==◌, if◌then◌else◌, set, ◌≡◌, List, [], ◌∷◌, arith}
use linux.Base.Int.{pos}
use linux.Base.Bits.{bit_or, one_shl}
use linux.Timer.{Timer, TimerTable, add_timer, queued}
use linux.Timer.Add.{add_timer_lem, Scheduled}

-- One timer after 10 ticks, and one after 20 more.
abbrev chain : List Timer
chain = record { delta = pos 10; fn = 1 } ∷ record { delta = pos 20; fn = 2 } ∷ []

add_timer_lem_example :
    (out : List Timer) × (add_timer (pos 15) 3 chain ≡ queued out) × Scheduled (pos 15) 3 chain out
add_timer_lem_example = add_timer_lem (pos 15) 3 chain (omega arith) (omega arith) (omega arith)

-- Entries 0 and 2 are active; entry 2 is due at tick 5.
abbrev table : TimerTable
table = record { active = 5; expires = 9 ∷ 0 ∷ 5 ∷ [] }

-- The function of entry 2 switches it on again for ten ticks later.
abbrev again : ℕ → TimerTable → TimerTable
again i st =
    if i == 2
    then record { active = bit_or st.active (one_shl 2); expires = set st.expires 2 17 }
    else st
