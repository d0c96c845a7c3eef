-- ===== src/Streaming/Tests.antt =====
-- Runs of streaming.c, on sets of chunk ids and a chunk buffer that are lists.
use streamers.Common.{
  ◌+◌, any, take, ℕ, ◌*◌, ◌≡◌, refl, inl, true, false, some, List, [], ◌∷◌, arith, none,
}
use streamers.Chunk.{Chunk, absent}
use streamers.Timer.{Timeval, tv2int, timeradd, timer_lt}
use streamers.Chunklock.{
  Locks, chunk_lock_timed_out, chunk_islocked, chunk_locks_cleanup, cleanup_loop, chunk_lock,
  locks_init, find_chunk,
}
use streamers.Grapes.{ChunkIdSets}
use streamers.Grapes.Lists.{list_sets, list_buffers}
use streamers.Streaming.Needs.{
  Peer, too_old, get_chunk_timestamp, set_needs, cb_size_time_unlimited,
}
use streamers.Streaming.Accept.{cb_to_bmap, wanted, accept_loop, get_chunks_to_accept}
use streamers.Transaction.Heap.{Store, Run, write, null}
use streamers.Transaction.Chain.{IsList, element}
use streamers.Transaction.Create.{mark, new_service}
use streamers.Streaming.Send.{Sent, send_accepted_chunks}
use streamers.Output.{OutputConfig}
use streamers.Output.Session.{session}
use streamers.Streaming.Attributes.{chunk_attributes_update_received}
use streamers.Streaming.Receive.{StreamConfig, Streamer, done, received_chunk}
use streamers.Streaming.Receive.Settled.{Whatever, Settles, received_chunk-Settles}
use streamers.Streaming.Offer.{compose_offer_cset}
use streamers.Streaming.Offer.Recent.{later_than, reach, compose_offer_cset-Recent}
use streamers.Streaming.Send.Once.{Ends, send_accepted_chunks-Ends}
use streamers.Streaming.Accept.Requests.{LockOn, accepted-LockOn}

abbrev chunk_of : ℕ → Chunk
chunk_of id = record { id = id; timestamp = 100 * id; payload = id ∷ []; attributes = absent }

abbrev no_offers : Store
no_offers = record { heap = λ p. none; stl = 0; trans_id = 0 }

abbrev stock : List Chunk
stock = chunk_of 5 ∷ chunk_of 6 ∷ []

abbrev noon : Timeval
noon = record { tv_sec = 10; tv_usec = 0 }

-- A peer that is known to have chunk 5.
abbrev neighbour : Peer list_sets
neighbour = record { id = 1; bmap = some (5 ∷ []); cb_size = 50; bmap_timestamp = noon }

abbrev offered : List ℕ
offered = 6 ∷ 7 ∷ 8 ∷ []

-- Chunk 7 was asked for before.
abbrev seven_locked : Locks
seven_locked = record {
  lsize = 10;
  locks = record { chunkid = 7; peer = some 1; timestamp = noon } ∷ [];
}

accept_run :
    (get_chunks_to_accept list_sets list_buffers cb_size_time_unlimited 50 2 stock
      (some 3)
      (λ k. noon)
      offered
      seven_locked).cset_acc
    ≡ 8 ∷ []
unfolding get_chunks_to_accept accept_loop wanted set_needs too_old get_chunk_timestamp cb_to_bmap
    chunk_islocked chunk_locks_cleanup cleanup_loop chunk_lock_timed_out timer_lt timeradd
    find_chunk chunk_lock locks_init tv2int
accept_run = refl

accept_8 :
    ChunkIdSets.check list_sets
      (get_chunks_to_accept list_sets list_buffers cb_size_time_unlimited 50 2 stock
        (some 3)
        (λ k. noon)
        offered
        seven_locked).cset_acc
      8
    ≡ true
accept_8 = rw accept_run refl

seven_is_locked : LockOn (λ k. noon) 7 seven_locked.locks
unfolding chunk_lock_timed_out timer_lt timeradd
seven_is_locked = inl (refl, λ k. refl)

accepted-LockOn_example :
    LockOn
      (λ k. noon)
      8
      (get_chunks_to_accept list_sets list_buffers cb_size_time_unlimited 50 2 stock
        (some 3)
        (λ k. noon)
        offered
        seven_locked).locks.locks
accepted-LockOn_example =
    accepted-LockOn list_sets list_buffers cb_size_time_unlimited 50 2 stock (some 3) (λ k. noon)
      offered (λ k. omega arith) (λ j k. omega arith) seven_locked 8 (omega arith) accept_8

abbrev one_offer : Store
one_offer = record {
  heap = write (λ p. none) 1 (some (element (new_service 7 5000000 1) null null));
  stl = 1;
  trans_id = 7;
}

one-IsList : IsList one_offer ((1, new_service 7 5000000 1) ∷ [])
unfolding write
one-IsList = record { starts = refl; chain = (omega arith, refl, refl, tt) }

send_accepted_chunks-Ends_example :
    (sent : Sent list_sets) × (store' : Store) × (send_accepted_chunks list_sets list_buffers
        cb_size_time_unlimited 3
        (λ k. 0)
        (λ i. true)
        (6 ∷ 6 ∷ 5 ∷ [])
        5100000
        2
        7
        (record { cb = stock; to = some neighbour; sent = []; reports = [] })
        one_offer
      ≡ Run.done sent store')
    × Ends list_sets list_buffers (6 ∷ 6 ∷ 5 ∷ []) 3 sent
    × IsList store' (mark 7 5100000 ((1, new_service 7 5000000 1) ∷ []))
    × (store'.trans_id ≡ 7)
send_accepted_chunks-Ends_example =
    send_accepted_chunks-Ends list_sets list_buffers (6 ∷ 6 ∷ 5 ∷ []) cb_size_time_unlimited 3
      (λ k. 0) (λ i. true) 5100000 2 7 one_offer ((1, new_service 7 5000000 1) ∷ []) stock neighbour
      (5 ∷ []) one-IsList (omega arith) refl

abbrev out : OutputConfig
out = record { buff_size = 4; reorder = true; start_id = none; end_id = none }

abbrev stream : StreamConfig
stream = record {
  cb_size = 50;
  bcast_after_receive_every = 0;
  is_source = false;
  neighbours = 1 ∷ 2 ∷ [];
}

-- A streamer whose output has played chunk 5, and that waits for chunk 7.
abbrev waiting_for_7 : Streamer list_sets
waiting_for_7 = record {
  cb = stock;
  locks = seven_locked;
  output = (session out Whatever (chunk_of 5) [] (omega arith) (tt, tt)).0;
  from = some neighbour;
  messages = [];
  reports = [];
}

received_chunk-Settles_example :
    (s' : Streamer list_sets) × (received_chunk list_sets list_buffers stream out noon noon false 1
        (some (chunk_of 7, 3))
        waiting_for_7
      ≡ done s')
    × Settles list_sets list_buffers stream out 5 waiting_for_7
        (chunk_attributes_update_received (chunk_of 7))
        s'
received_chunk-Settles_example =
    received_chunk-Settles list_sets list_buffers stream out 5 noon noon false 1 3 (chunk_of 7)
      waiting_for_7 neighbour (5 ∷ [])
      (session out Whatever (chunk_of 5) [] (omega arith) (tt, tt)).2 refl refl

compose_offer_cset-Recent_example :
    (offer : List ℕ) × (compose_offer_cset list_sets (some 50) true (chunk_of 5 ∷ chunk_of 6 ∷ [])
      ≡ some offer)
    × ((id : ℕ)
        → ChunkIdSets.check list_sets offer id ≡ true
        → any (later_than (500 + 50) id) (take (reach true 1) (chunk_of 5 ∷ chunk_of 6 ∷ []))
          ≡ true)
compose_offer_cset-Recent_example =
    compose_offer_cset-Recent list_sets (some 50) true (chunk_of 5) (chunk_of 6 ∷ [])
