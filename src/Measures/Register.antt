-- ===== src/Measures/Register.antt =====
-- The registration functions of measures.c. `clock` has the readings of `print_every`, `later` is that of the function
-- itself.
use streamers.Common.{
  ℕ, suc, ◌+◌, ◌-◌, ◌*◌, ◌%◌, ◌^◌, Bool, true, false, List, [], ◌∷◌, if◌then◌else◌,
}
use streamers.Timer.{Timeval}
use streamers.Measures.{Counters, Measures, Clock, print_every}

-- GRAPES's `MSG_TYPE_…`, as far as messages are counted apart.
pub data MessageType : Type 0 where
  chunk signalling topology tman other : MessageType

-- `if (!print_every()) return;`, and then the counting.
unfoldable pub registered : Clock → (Counters → Counters) → Measures → Measures
registered clock count s =
    let (counting, s') = print_every clock s in
    elim counting [ false ↦ s' | true ↦ record s' { m = count s'.m } ]

-- `sum + (tv_usec + tv_sec * 1000000ULL) - timestamp` on 64 bits.
abbrev pub add_delay : Timeval → ℕ → ℕ → ℕ
add_delay later timestamp sum =
    (sum + (later.tv_usec + later.tv_sec * 1000000) + (2 ^ 64 - timestamp % 2 ^ 64)) % 2 ^ 64

abbrev pub one_if : Bool → ℕ
one_if b = if b then 1 else 0

unfoldable pub count_playout : Timeval → Bool → ℕ → Counters → Counters
count_playout later b timestamp m = record m {
  played = m.played + one_if b;
  chunks = suc m.chunks;
  sum_reorder_delay = add_delay later timestamp m.sum_reorder_delay;
}

-- `hopcount` has the 32 bits of the int.
unfoldable pub count_receive : Timeval → ℕ → ℕ → (old dup : Bool) → Counters → Counters
count_receive later timestamp hopcount true dup m = record m {
  chunks_received_old = suc m.chunks_received_old;
}
count_receive later timestamp hopcount false true m = record m {
  chunks_received_dup = suc m.chunks_received_dup;
}
count_receive later timestamp hopcount false false m = record m {
  chunks_received_nodup = suc m.chunks_received_nodup;
  sum_hopcount = (m.sum_hopcount + hopcount) % 2 ^ 32;
  sum_receive_delay = add_delay later timestamp m.sum_receive_delay;
}

unfoldable pub count_offer_out : Bool → Counters → Counters
count_offer_out b m = record m {
  offers_out = suc m.offers_out;
  accepts_out = m.accepts_out + one_if b;
}

unfoldable pub count_offer_in : Bool → Counters → Counters
count_offer_in b m = record m { offers_in = suc m.offers_in; accepts_in = m.accepts_in + one_if b }

-- The `switch` of `reg_message_send`.
unfoldable pub count_sent : ℕ → MessageType → Counters → Counters
count_sent size chunk m = record m {
  bytes_sent_chunk = m.bytes_sent_chunk + size;
  msgs_sent_chunk = suc m.msgs_sent_chunk;
}
count_sent size signalling m = record m {
  bytes_sent_sign = m.bytes_sent_sign + size;
  msgs_sent_sign = suc m.msgs_sent_sign;
}
count_sent size topology m = record m {
  bytes_sent_topo = m.bytes_sent_topo + size;
  msgs_sent_topo = suc m.msgs_sent_topo;
}
count_sent size tman m = record m {
  bytes_sent_topo = m.bytes_sent_topo + size;
  msgs_sent_topo = suc m.msgs_sent_topo;
}
count_sent size other m = m

-- The `switch` of `reg_message_recv`.
unfoldable pub count_recvd : ℕ → MessageType → Counters → Counters
count_recvd size chunk m = record m {
  bytes_recvd_chunk = m.bytes_recvd_chunk + size;
  msgs_recvd_chunk = suc m.msgs_recvd_chunk;
}
count_recvd size signalling m = record m {
  bytes_recvd_sign = m.bytes_recvd_sign + size;
  msgs_recvd_sign = suc m.msgs_recvd_sign;
}
count_recvd size topology m = record m {
  bytes_recvd_topo = m.bytes_recvd_topo + size;
  msgs_recvd_topo = suc m.msgs_recvd_topo;
}
count_recvd size tman m = record m {
  bytes_recvd_topo = m.bytes_recvd_topo + size;
  msgs_recvd_topo = suc m.msgs_recvd_topo;
}
count_recvd size other m = m

-- A call of a registration function.
pub data Event : Type 0 where
  chunk_duplicate : Event
  chunk_playout : (later : Timeval) (b : Bool) (timestamp : ℕ) → Event
  neigh_size : ℕ → Event
  chunk_receive : (later : Timeval) (timestamp hopcount : ℕ) (old dup : Bool) → Event
  chunk_send : Event
  offer_accept_out : Bool → Event
  offer_accept_in : Bool → Event
  message_send : ℕ → MessageType → Event
  message_recv : ℕ → MessageType → Event
  offers_in_flight : ℕ → Event
  queue_delay : ℕ → Event
  period : ℕ → Event

-- What each of them counts.
unfoldable pub count : Event → Counters → Counters
unfolding count_playout count_receive count_offer_out count_offer_in count_sent count_recvd
count chunk_duplicate m = record m { duplicates = suc m.duplicates }
count (chunk_playout later b timestamp) m = count_playout later b timestamp m
count (neigh_size s) m = record m {
  sum_neighsize = m.sum_neighsize + s;
  samples_neighsize = suc m.samples_neighsize;
}
count (chunk_receive later timestamp hopcount old dup) m =
    count_receive later timestamp hopcount old dup m
count chunk_send m = record m { chunks_sent = suc m.chunks_sent }
count (offer_accept_out b) m = count_offer_out b m
count (offer_accept_in b) m = count_offer_in b m
count (message_send size type) m =
    count_sent size type
      (record m { bytes_sent = m.bytes_sent + size; msgs_sent = suc m.msgs_sent })
count (message_recv size type) m =
    count_recvd size type
      (record m { bytes_recvd = m.bytes_recvd + size; msgs_recvd = suc m.msgs_recvd })
count (offers_in_flight n) m = record m {
  sum_offers_in_flight = m.sum_offers_in_flight + n;
  samples_offers_in_flight = suc m.samples_offers_in_flight;
}
count (queue_delay d) m = record m {
  sum_queue_delay = m.sum_queue_delay + d;
  samples_queue_delay = suc m.samples_queue_delay;
}
count (period p) m = record m {
  sum_period = m.sum_period + p;
  samples_period = suc m.samples_period;
}

unfoldable pub register : Clock → Event → Measures → Measures
unfolding registered
register clock e s = registered clock (count e) s

-- Events with the clocks at which they are registered, in order.
unfoldable pub register_all : List (Clock × Event) → Measures → Measures
register_all [] s = s
register_all ((clock, e) ∷ es) s = register_all es (register clock e s)
