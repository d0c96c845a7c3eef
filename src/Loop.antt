-- ===== src/Loop.antt =====
-- loop.c: the main loop of a receiving peer, `loop`, round by round, and the time-out before each round.
-- The calls that a round makes are recorded, newest first. `recv_from_peer` and `wait4data` are
-- arguments: what comes of them is a `Wakeup`.
pub mod Schedule
pub mod Source
mod Tests
use streamers.Common.{ℕ, ◌+◌, ◌/◌, ◌%◌, Bool, true, false, List, [], ◌∷◌, ◌++◌, if◌then◌else◌, ◌==◌}
use streamers.Timer.{Timeval, timeradd, timersub, timer_lt, int2tv}
use streamers.Measures.Register.{MessageType, chunk, signalling, topology, tman, other}

pub tout_init : (tnow tnext : Timeval) → Timeval
tout_init tnow tnext =
    if timer_lt tnow tnext then timersub tnext tnow else record { tv_sec = 0; tv_usec = 0 }

-- The handlers that `loop` calls; `update_own` is `update_peers(NULL, NULL, 0)`.
pub data Call : Type 0 where
  update_peers received_chunk sig_parse_data : Call
  send_offer update_own : Call

-- What `wait4data` and `recv_from_peer` bring: a message of a type, an error, or the time-out. The
-- type `MSG_TYPE_STREAMER_TOPOLOGY` is handled as `MSG_TYPE_TOPOLOGY` is. `acknowledged p` is a signalling message
-- in whose handling rate control calls `set_period(p)`, as for acknowledgements; the others leave the period.
pub data Wakeup : Type 0 where
  message : MessageType → Wakeup
  acknowledged : ℕ → Wakeup
  receive_error : Wakeup
  timeout : Wakeup

-- `period` is the global variable.
pub record Loop : Type 0 where
  pub cnt : ℕ
  pub period : Timeval
  pub tnext : Timeval
  pub calls : List Call

-- The `switch` on the type of a message.
pub dispatch : MessageType → List Call
dispatch tman = update_peers ∷ []
dispatch topology = update_peers ∷ []
dispatch chunk = received_chunk ∷ []
dispatch signalling = sig_parse_data ∷ []
dispatch other = []

-- The branch of the time-out.
pub tick : Loop → Loop
tick s = record s {
  cnt = s.cnt + 1;
  tnext = timeradd s.tnext s.period;
  calls = (if s.cnt % 10 == 0 then update_own ∷ send_offer ∷ [] else send_offer ∷ []) ++ s.calls;
}

pub round : Wakeup → Loop → Loop
unfolding dispatch tick
round (message type) s = record s { calls = dispatch type ++ s.calls }
round (acknowledged p) s = record s { calls = dispatch signalling ++ s.calls; period = int2tv p }
round receive_error s = s
round timeout s = tick s

-- The state before the loop: `period` is `csize` microseconds, and `update_peers` is called once.
pub period_of : ℕ → Timeval
period_of csize = record { tv_sec = csize / 1000000; tv_usec = csize % 1000000 }

pub start : (csize : ℕ) → Timeval → Loop
unfolding period_of
start csize tnext = record {
  cnt = 0;
  period = period_of csize;
  tnext = tnext;
  calls = update_own ∷ [];
}

-- The rounds in order.
pub run : List Wakeup → Loop → Loop
unfolding round
run [] s = s
run (w ∷ ws) s = run ws (round w s)

pub loop : (csize : ℕ) (tnow : Timeval) → List Wakeup → Loop
unfolding start run
loop csize tnow ws = run ws (start csize tnow)
