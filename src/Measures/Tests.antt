-- ===== src/Measures/Tests.antt =====
-- Runs of measures.c.
use streamers.Common.{ℕ, ◌≡◌, refl, any, ◌==◌, true, false, List, [], ◌∷◌, arith}
use streamers.Timer.{Timeval, tv2int, timeradd, timersub, timer_lt, timerisset}
use streamers.Measures.{
  fresh_measures, Clock, Measure, print_every, start_up, set_next, print_due, print_measures,
  print_averages, print_rates, print_samples, print_offers,
}
use streamers.Measures.Register.{
  Event, chunk_playout, chunk_send, message_send, offer_accept_out, chunk, register_all, register,
  registered, count,
}
use streamers.Measures.Publish.{starting}
use streamers.Measures.Counting.{IsConsistent, register_all-IsConsistent}

abbrev at : ℕ → Timeval
at s = record { tv_sec = s; tv_usec = 0 }

-- The second reading is five microseconds behind the first.
abbrev clock : ℕ → Clock
clock s = record { tnow = at s; later = record { tv_sec = s; tv_usec = 5 } }

-- One event sets the times, three are counted, and with the last the hour is published.
abbrev events : List (Clock × Event)
events =
    (clock 1000, chunk_send)
    ∷ (clock 1060, chunk_playout (at 1060) true 1059000000)
    ∷ (clock 1070, message_send 100 chunk)
    ∷ (clock 1080, offer_accept_out false)
    ∷ (clock 4660, chunk_send)
    ∷ []

-- With `--measure_every 0`, an event that is counted at the time at which measuring begins divides by 0.
abbrev same : Clock
same = record { tnow = at 1060; later = at 1060 }

abbrev dens : List Measure → List ℕ
dens [] = []
dens (x ∷ l) = x.den ∷ dens l

zero_run :
    any
      (λ d. d == 0)
      (dens
        (register_all
          ((clock 1000, chunk_send) ∷ (same, chunk_send) ∷ [])
          (starting (at 0) (at 60))).published)
    ≡ true
unfolding register_all register registered print_every start_up set_next print_due print_measures
    count print_averages print_rates print_samples print_offers timeradd timersub timer_lt
    timerisset tv2int
zero_run = refl

register_all-IsConsistent_example : IsConsistent (register_all events fresh_measures).m
register_all-IsConsistent_example = register_all-IsConsistent events fresh_measures (omega arith)
