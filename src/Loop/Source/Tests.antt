-- ===== src/Loop/Source/Tests.antt =====
-- Rounds of the loop of the source.
use streamers.Common.{ℕ, true, false, List, [], ◌∷◌}
use streamers.Timer.{Timeval}
use streamers.Measures.Register.{signalling}
use streamers.Loop.Source.{SourceWakeup, message, acknowledged, input, Source}

abbrev at : ℕ → Timeval
at t = record { tv_sec = t; tv_usec = 0 }

-- A chunk at once, a message, an acknowledgement, and nothing new two seconds later, when an offer is due.
abbrev wakeups : List SourceWakeup
wakeups =
    input true 1500000 (at 4)
    ∷ message signalling
    ∷ acknowledged 60000
    ∷ input false 1500000 (at 7)
    ∷ []
