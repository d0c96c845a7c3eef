-- ===== src/Measures/Counting.antt =====
-- What the counters of measures.c have to do with each other.
use streamers.Common.{◌+◌, ◌≤◌, ◌≡◌, inl, inr, List, [], ◌∷◌, arith, Bool-cases}
use streamers.Timer.{Timeval}
use streamers.Measures.{Counters, Measures, Clock, print_every, print_due, set_next, start_up}
use streamers.Measures.Register.{
  Event, chunk_duplicate, chunk_playout, neigh_size, chunk_receive, chunk_send, offer_accept_out,
  offer_accept_in, message_send, message_recv, offers_in_flight, queue_delay, period, count,
  count_playout, count_receive, count_offer_out, count_offer_in, count_sent, count_recvd,
  registered, register, register_all,
}

-- No more was played than was due, no more accepted than offered, and the messages and bytes of a
-- kind are part of all messages and bytes.
pub record IsConsistent (m : Counters) : Type 0 where
  pub playout : m.played ≤ m.chunks
  pub accepted_out : m.accepts_out ≤ m.offers_out
  pub accepted_in : m.accepts_in ≤ m.offers_in
  pub msgs_sent : m.msgs_sent_chunk + m.msgs_sent_sign + m.msgs_sent_topo ≤ m.msgs_sent
  pub bytes_sent : m.bytes_sent_chunk + m.bytes_sent_sign + m.bytes_sent_topo ≤ m.bytes_sent
  pub msgs_recvd : m.msgs_recvd_chunk + m.msgs_recvd_sign + m.msgs_recvd_topo ≤ m.msgs_recvd
  pub bytes_recvd : m.bytes_recvd_chunk + m.bytes_recvd_sign + m.bytes_recvd_topo ≤ m.bytes_recvd

count-IsConsistent : (e : Event) (m : Counters) → IsConsistent m → IsConsistent (count e m)
unfolding count count_playout count_receive count_offer_out count_offer_in count_sent count_recvd
count-IsConsistent chunk_duplicate m c = ground arith
count-IsConsistent (chunk_playout later b timestamp) m c = ground arith
count-IsConsistent (neigh_size s) m c = ground arith
count-IsConsistent (chunk_receive later timestamp hopcount old dup) m c = ground arith
count-IsConsistent chunk_send m c = ground arith
count-IsConsistent (offer_accept_out b) m c = ground arith
count-IsConsistent (offer_accept_in b) m c = ground arith
count-IsConsistent (message_send size type) m c = ground arith
count-IsConsistent (message_recv size type) m c = ground arith
count-IsConsistent (offers_in_flight n) m c = ground arith
count-IsConsistent (queue_delay d) m c = ground arith
count-IsConsistent (period p) m c = ground arith

start_up-m : (now : Timeval) (s : Measures) → (start_up now s).1.m ≡ s.m
unfolding start_up
start_up-m now s = ground arith

set_next-m : (s : Measures) → (set_next s).m ≡ s.m
unfolding set_next
set_next-m s = ground arith

print_due-IsConsistent :
    (clock : Clock) (s : Measures) → IsConsistent s.m → IsConsistent (print_due clock s).m
unfolding print_due
print_due-IsConsistent clock s c = ground arith

print_every-IsConsistent :
    (clock : Clock) (s : Measures) → IsConsistent s.m → IsConsistent (print_every clock s).1.m
unfolding print_every
print_every-IsConsistent clock s c =
    let s' = (start_up clock.tnow s).1 in
    let e = start_up-m clock.tnow s in
    let e' = set_next-m s' in
    elim (Bool-cases (start_up clock.tnow s).0) [
      | inr no_count ↦ rw (no_count, print_every, start_up-m clock.tnow s) c
      | inl counting ↦
          rw (counting, print_every)
            (print_due-IsConsistent clock (set_next s')
              (rw (set_next-m s', start_up-m clock.tnow s) c))
    ]

register-IsConsistent :
    (clock : Clock) (e : Event) (s : Measures)
    → IsConsistent s.m
    → IsConsistent (register clock e s).m
unfolding register registered
register-IsConsistent clock e s c =
    let c' = print_every-IsConsistent clock s c in
    elim (Bool-cases (print_every clock s).0) [
      | inr no_count ↦ rw (no_count, register, registered) c'
      | inl counting ↦
          rw (counting, register, registered) (count-IsConsistent e (print_every clock s).1.m c')
    ]

-- Whatever events are registered, at whatever times: the counters that stand for parts of each other
-- stay in that order, if they were.
pub register_all-IsConsistent :
    (es : List (Clock × Event)) (s : Measures)
    → IsConsistent s.m
    → IsConsistent (register_all es s).m
unfolding register_all
register_all-IsConsistent [] s c = c
register_all-IsConsistent ((clock, e) ∷ es) s c =
    register_all-IsConsistent es (register clock e s) (register-IsConsistent clock e s c)
