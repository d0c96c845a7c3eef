-- ===== src/Loop/Tests.antt =====
-- Rounds of the main loop of loop.c.
use streamers.Common.{ℕ, ◌+◌, ◌/◌, ◌≡◌, List, [], ◌∷◌, arith}
use streamers.Timer.{Timeval, tv2int}
use streamers.Measures.Register.{chunk}
use streamers.Loop.{Wakeup, message, acknowledged, timeout, receive_error, loop}
use streamers.Loop.Schedule.{offers, updates, loop-OnTime}

abbrev at : ℕ → Timeval
at t = record { tv_sec = t; tv_usec = 250000 }

abbrev wakeups : List Wakeup
wakeups = timeout ∷ message chunk ∷ acknowledged 50000 ∷ receive_error ∷ timeout ∷ []

loop-OnTime_example :
    let s = loop 40000 (at 5) wakeups in
    (s.cnt ≡ 2)
    × (tv2int s.tnext ≡ tv2int (at 5) + (40000 + 50000))
    × (offers s.calls ≡ 2)
    × (updates s.calls ≡ 1 + (2 + 9) / 10)
loop-OnTime_example = loop-OnTime 40000 (at 5) wakeups (omega arith)
