-- ===== src/Loop/Source.antt =====
-- loop.c: the loop of the source, `source_loop`, round by round. The calls that a round makes are recorded, newest
-- first. What `wait4data`, `recv_from_peer` and the input bring is an argument: a `SourceWakeup`.
pub mod Pace
pub mod Awake
mod Tests
use streamers.Common.{
  ℕ, zero, suc, ◌+◌, ◌/◌, ◌%◌, Bool, true, false, Option, none, some, List, [], ◌∷◌, ◌++◌,
  if◌then◌else◌, ◌==◌, replicate,
}
use streamers.Timer.{Timeval, timeradd, timer_lt, int2tv}
use streamers.Measures.Register.{MessageType, chunk, signalling, topology, tman, other}
use streamers.Loop.{period_of}

-- The calls; `update_own` is `update_peers(NULL, NULL, 0)`, and `set_period p` what rate control calls while an
-- acknowledgement is handled.
pub data SourceCall : Type 0 where
  set_period : ℕ → SourceCall
  update_peers sig_parse_data : SourceCall
  add_chunk send_chunk send_offer update_own : SourceCall

-- A message of a type, in whose handling the period stays; one in whose handling rate control calls
-- `set_period(p)`, as for acknowledgements; an error in receiving it; the time-out, or data from the input: then `generated_chunk`
-- returns a chunk or none with the microseconds to wait, and `tnow` is the time that is read behind that; or it
-- exits.
pub data SourceWakeup : Type 0 where
  message : MessageType → SourceWakeup
  acknowledged : (p : ℕ) → SourceWakeup
  receive_error : SourceWakeup
  input : (has_chunk : Bool) (delta : ℕ) (tnow : Timeval) → SourceWakeup
  input_error : SourceWakeup

-- `period` is the global variable.
pub record Source : Type 0 where
  pub cnt : ℕ
  pub period : Timeval
  pub tnext : Timeval
  pub tnextp : Timeval
  pub calls : List SourceCall

-- The `switch`: a chunk that a peer pushed is only reported.
pub source_dispatch : MessageType → List SourceCall
source_dispatch tman = update_peers ∷ []
source_dispatch topology = update_peers ∷ []
source_dispatch chunk = []
source_dispatch signalling = sig_parse_data ∷ []
source_dispatch other = []

-- `if (cnt++ % 10 == 0) update_peers(NULL, NULL, 0)`
pub count_update : Source → Source
count_update s = record s {
  cnt = s.cnt + 1;
  calls = if s.cnt % 10 == 0 then update_own ∷ s.calls else s.calls;
}

-- A chunk goes into the buffer, and `send_chunk` is called `chunks` times.
pub push_chunk : ℕ → Source → Source
unfolding count_update
push_chunk chunks s =
    count_update (record s { calls = replicate chunks send_chunk ++ add_chunk ∷ s.calls })

-- `if (timercmp(&tnow, &tnextp, >=))`
pub check_offer : Timeval → Source → Source
unfolding count_update
check_offer tnow s = elim (timer_lt tnow s.tnextp) [
  | true ↦ s
  | false ↦
      let s' = count_update (record s { calls = send_offer ∷ s.calls }) in
      record s' { tnextp = timeradd s.tnextp s.period }
]

-- The next round is when the input asks for it, but not behind the next offer.
pub next_timeout : Timeval → Timeval → Source → Source
next_timeout d tnow s =
    let tnext = timeradd tnow d in
    record s { tnext = if timer_lt s.tnextp tnext then s.tnextp else tnext }

-- `none` is the exit.
pub source_round : (chunks : ℕ) → SourceWakeup → Source → Option Source
unfolding source_dispatch push_chunk check_offer next_timeout
source_round chunks (message type) s = some (record s { calls = source_dispatch type ++ s.calls })
source_round chunks (acknowledged p) s =
    some
      (record s { calls = set_period p ∷ source_dispatch signalling ++ s.calls; period = int2tv p })
source_round chunks receive_error s = some s
source_round chunks input_error s = none
source_round chunks (input has_chunk delta tnow) s =
    let d : Timeval = record { tv_sec = delta / 1000000; tv_usec = delta % 1000000 } in
    let s' = if has_chunk then push_chunk chunks s else s in
    some (next_timeout d tnow (check_offer tnow s'))

pub source_start : (csize : ℕ) (tnext tnextp : Timeval) → Source
source_start csize tnext tnextp = record {
  cnt = 0;
  period = period_of csize;
  tnext = tnext;
  tnextp = tnextp;
  calls = [];
}

pub source_run : ℕ → List SourceWakeup → Source → Option Source
unfolding source_round
source_run chunks [] s = some s
source_run chunks (w ∷ ws) s = elim (source_round chunks w s) [
  | none ↦ none
  | some s' ↦ source_run chunks ws s'
]

-- `source_loop`, once `source_init` succeeded; `tnext` and `tnextp` are two readings of the clock.
pub source_loop : (csize chunks : ℕ) (tnext tnextp : Timeval) → List SourceWakeup → Option Source
unfolding source_start source_run
source_loop csize chunks tnext tnextp ws = source_run chunks ws (source_start csize tnext tnextp)
