-- ===== src/Measures.antt =====
-- measures.c: the counters that the other parts register events with, and their publication
-- every `print_tdiff`. The counters do not wrap; of the sums that can go below zero the 64 bits are
-- kept, or the 32 of `sum_hopcount`. The doubles of queue delays and periods are whole numbers of a
-- unit, and what is published is a ratio of two whole numbers, times in microseconds.
pub mod Publish
pub mod Register
pub mod Counting
mod Tests
use streamers.Common.{
  ℕ, ◌+◌, ◌-◌, ◌*◌, ◌%◌, ◌^◌, Bool, true, false, not, List, [], ◌∷◌, ◌++◌, if◌then◌else◌, ◌==◌,
}
use streamers.Timer.{Timeval, timeradd, timersub, timer_lt, timerisset, tv2int}

-- `struct measures`
pub record Counters : Type 0 where
  pub duplicates : ℕ
  pub chunks : ℕ
  pub played : ℕ
  pub sum_reorder_delay : ℕ
  pub chunks_received_dup : ℕ
  pub chunks_received_nodup : ℕ
  pub chunks_received_old : ℕ
  pub sum_hopcount : ℕ
  pub sum_receive_delay : ℕ
  pub chunks_sent : ℕ
  pub sum_neighsize : ℕ
  pub samples_neighsize : ℕ
  pub bytes_sent : ℕ
  pub bytes_sent_chunk : ℕ
  pub bytes_sent_sign : ℕ
  pub bytes_sent_topo : ℕ
  pub msgs_sent : ℕ
  pub msgs_sent_chunk : ℕ
  pub msgs_sent_sign : ℕ
  pub msgs_sent_topo : ℕ
  pub bytes_recvd : ℕ
  pub bytes_recvd_chunk : ℕ
  pub bytes_recvd_sign : ℕ
  pub bytes_recvd_topo : ℕ
  pub msgs_recvd : ℕ
  pub msgs_recvd_chunk : ℕ
  pub msgs_recvd_sign : ℕ
  pub msgs_recvd_topo : ℕ
  pub sum_offers_in_flight : ℕ
  pub samples_offers_in_flight : ℕ
  pub sum_queue_delay : ℕ
  pub samples_queue_delay : ℕ
  pub sum_period : ℕ
  pub samples_period : ℕ
  pub offers_out : ℕ
  pub accepts_out : ℕ
  pub offers_in : ℕ
  pub accepts_in : ℕ

-- `memset(&m, 0, sizeof(m))`
abbrev pub clean : Counters
clean = record {
  duplicates = 0;
  chunks = 0;
  played = 0;
  sum_reorder_delay = 0;
  chunks_received_dup = 0;
  chunks_received_nodup = 0;
  chunks_received_old = 0;
  sum_hopcount = 0;
  sum_receive_delay = 0;
  chunks_sent = 0;
  sum_neighsize = 0;
  samples_neighsize = 0;
  bytes_sent = 0;
  bytes_sent_chunk = 0;
  bytes_sent_sign = 0;
  bytes_sent_topo = 0;
  msgs_sent = 0;
  msgs_sent_chunk = 0;
  msgs_sent_sign = 0;
  msgs_sent_topo = 0;
  bytes_recvd = 0;
  bytes_recvd_chunk = 0;
  bytes_recvd_sign = 0;
  bytes_recvd_topo = 0;
  msgs_recvd = 0;
  msgs_recvd_chunk = 0;
  msgs_recvd_sign = 0;
  msgs_recvd_topo = 0;
  sum_offers_in_flight = 0;
  samples_offers_in_flight = 0;
  sum_queue_delay = 0;
  samples_queue_delay = 0;
  sum_period = 0;
  samples_period = 0;
  offers_out = 0;
  accepts_out = 0;
  offers_in = 0;
  accepts_in = 0;
}

-- The names under which `print_measures` publishes.
pub data Name : Type 0 where
  playout_ratio reorder_delay neigh_size overlay_distance receive_delay : Name
  chunk_rate chunk_receive_all chunk_receive_old chunk_receive_nodup chunk_receive_dup : Name
  chunk_send_rate : Name
  send_msgs_all send_msgs_chunk send_msgs_sign send_msgs_topo send_msgs_other : Name
  send_bytes_all send_bytes_chunk send_bytes_sign send_bytes_topo send_bytes_other : Name
  recv_msgs_all recv_msgs_chunk recv_msgs_sign recv_msgs_topo recv_msgs_other : Name
  recv_bytes_all recv_bytes_chunk recv_bytes_sign recv_bytes_topo recv_bytes_other : Name
  receive_ratio offers_in_flight queue_delay period : Name
  offer_out_rate accept_out_rate offer_accept_out_ratio : Name
  offer_in_rate accept_in_rate offer_accept_in_ratio : Name

-- `print_measure(name, num / den)`
pub record Measure : Type 0 where
  pub name : Name
  pub num : ℕ
  pub den : ℕ

-- The global and static variables, of which the first two are set by `--measure_every` and `--measure_start`;
-- `published` is what was printed, `startup` that of `print_every`.
pub record Measures : Type 0 where
  pub print_tdiff : Timeval
  pub tstartdiff : Timeval
  pub m : Counters
  pub startup : Bool
  pub tstart : Timeval
  pub print_tstart : Timeval
  pub tnext : Timeval
  pub published : List Measure

-- The two readings of the clock, by `print_every` and by `print_measures`.
pub record Clock : Type 0 where
  pub tnow : Timeval
  pub later : Timeval

abbrev pub never : Timeval
never = record { tv_sec = 0; tv_usec = 0 }

abbrev pub fresh_measures : Measures
fresh_measures = record {
  print_tdiff = record { tv_sec = 3600; tv_usec = 0 };
  tstartdiff = record { tv_sec = 60; tv_usec = 0 };
  m = clean;
  startup = true;
  tstart = never;
  print_tstart = never;
  tnext = never;
  published = [];
}

abbrev pub ratio : Name → ℕ → ℕ → Measure
ratio name num den = record { name = name; num = num; den = den }

-- `if (b) …`
abbrev pub when : Bool → List Measure → List Measure
when true l = l
when false l = []

-- The rates of a kind of messages, given what is in `all`, `chunk`, `sign` and `topo`.
abbrev rates : Name → Name → Name → Name → Name → (all chunk sign topo timespan : ℕ) → List Measure
rates na nc ns nt nx all chunk sign topo timespan =
    ratio na (1000000 * all) timespan
    ∷ ratio nc (1000000 * chunk) timespan
    ∷ ratio ns (1000000 * sign) timespan
    ∷ ratio nt (1000000 * topo) timespan
    ∷ ratio nx (1000000 * (all - chunk - sign - topo)) timespan
    ∷ []

abbrev pub received_all : Counters → ℕ
received_all m = m.chunks_received_old + m.chunks_received_nodup + m.chunks_received_dup

-- The first lines of `print_measures`, which do not look at the time.
pub print_averages : Counters → List Measure
print_averages m =
    when (not (m.chunks == 0)) (ratio playout_ratio m.played m.chunks ∷ [])
    ++ when (not (m.chunks == 0))
        (ratio reorder_delay m.sum_reorder_delay (1000000 * m.chunks) ∷ [])
    ++ when (not (m.samples_neighsize == 0))
        (ratio neigh_size m.sum_neighsize m.samples_neighsize ∷ [])
    ++ when (not (m.chunks_received_nodup == 0))
        (ratio overlay_distance m.sum_hopcount m.chunks_received_nodup ∷ [])
    ++ when (not (m.chunks_received_nodup == 0))
        (ratio receive_delay m.sum_receive_delay (1000000 * m.chunks_received_nodup) ∷ [])

-- What it prints per second, `timespan` in microseconds.
pub print_rates : Counters → ℕ → List Measure
print_rates m timespan =
    (ratio chunk_rate (1000000 * m.chunks) timespan
      ∷ ratio chunk_receive_all (1000000 * received_all m) timespan
      ∷ ratio chunk_receive_old (1000000 * m.chunks_received_old) timespan
      ∷ ratio chunk_receive_nodup (1000000 * m.chunks_received_nodup) timespan
      ∷ ratio chunk_receive_dup (1000000 * m.chunks_received_dup) timespan
      ∷ ratio chunk_send_rate (1000000 * m.chunks_sent) timespan
      ∷ [])
    ++ rates send_msgs_all send_msgs_chunk send_msgs_sign send_msgs_topo send_msgs_other m.msgs_sent
        m.msgs_sent_chunk m.msgs_sent_sign m.msgs_sent_topo timespan
    ++ rates send_bytes_all send_bytes_chunk send_bytes_sign send_bytes_topo send_bytes_other
        m.bytes_sent m.bytes_sent_chunk m.bytes_sent_sign m.bytes_sent_topo timespan
    ++ rates recv_msgs_all recv_msgs_chunk recv_msgs_sign recv_msgs_topo recv_msgs_other
        m.msgs_recvd m.msgs_recvd_chunk m.msgs_recvd_sign m.msgs_recvd_topo timespan
    ++ rates recv_bytes_all recv_bytes_chunk recv_bytes_sign recv_bytes_topo recv_bytes_other
        m.bytes_recvd m.bytes_recvd_chunk m.bytes_recvd_sign m.bytes_recvd_topo timespan

pub print_samples : Counters → List Measure
print_samples m =
    when (not (received_all m == 0))
      (ratio receive_ratio m.chunks_received_nodup (received_all m) ∷ [])
    ++ when (not (m.samples_offers_in_flight == 0))
        (ratio offers_in_flight m.sum_offers_in_flight m.samples_offers_in_flight ∷ [])
    ++ when (not (m.samples_queue_delay == 0))
        (ratio queue_delay m.sum_queue_delay m.samples_queue_delay ∷ [])
    ++ when (not (m.samples_period == 0)) (ratio period m.sum_period m.samples_period ∷ [])

pub print_offers : Counters → Bool → ℕ → List Measure
print_offers m set timespan =
    when set (
      ratio offer_out_rate (1000000 * m.offers_out) timespan
      ∷ ratio accept_out_rate (1000000 * m.accepts_out) timespan
      ∷ [])
    ++ when (not (m.offers_out == 0)) (ratio offer_accept_out_ratio m.accepts_out m.offers_out ∷ [])
    ++ when set (
        ratio offer_in_rate (1000000 * m.offers_in) timespan
        ∷ ratio accept_in_rate (1000000 * m.accepts_in) timespan
        ∷ [])
    ++ when (not (m.offers_in == 0)) (ratio offer_accept_in_ratio m.accepts_in m.offers_in ∷ [])

-- `print_measures` at a time that is not before `print_tstart`.
pub print_measures : Timeval → Measures → Measures
unfolding print_averages print_rates print_samples print_offers
print_measures now s =
    let set = timerisset s.print_tstart in
    let timespan = tv2int (timersub now s.print_tstart) in
    record s {
      published =
          s.published
          ++ (print_averages s.m
              ++ when set (print_rates s.m timespan)
              ++ print_samples s.m
              ++ print_offers s.m set timespan);
    }

-- The first part of `print_every`: whether measuring goes on, and the times it sets.
pub start_up : Timeval → Measures → Bool × Measures
start_up now s =
    let start = timeradd now s.tstartdiff in
    let s' : Measures =
      if timerisset s.tstart then s else record s { tstart = start; print_tstart = start } in
    if s.startup
    then (if timer_lt now s'.tstart then (false, s') else (true, record s' { startup = false }))
    else (true, s)

-- `tnext` is set when it is first needed.
pub set_next : Measures → Measures
set_next s = if timerisset s.tnext then s else record s { tnext = timeradd s.tstart s.print_tdiff }

-- `clean_measures` is the `clean` of `m`.
pub print_due : Clock → Measures → Measures
unfolding print_measures
print_due clock s = elim (timer_lt clock.tnow s.tnext) [
  | true ↦ s
  | false ↦ record (print_measures clock.later s) {
    m = clean;
    print_tstart = s.tnext;
    tnext = timeradd s.tnext s.print_tdiff;
  }
]

pub print_every : Clock → Measures → Bool × Measures
unfolding start_up set_next print_due
print_every clock s =
    let (counting, s') = start_up clock.tnow s in
    elim counting [ false ↦ (false, s') | true ↦ (true, print_due clock (set_next s')) ]
