-- ===== src/Signaling/Tests.antt =====
-- Messages of chunk_signaling.c, on sets of chunk ids and a chunk buffer that are lists.
use streamers.Common.{
  ℕ, ◌<◌, ◌≤◌, ◌≡◌, refl, true, false, none, some, List, [], ◌∷◌, arith, ◌==◌, ◌||◌,
}
use streamers.Timer.{Timeval, tv2int}
use streamers.Chunk.{Chunk, absent}
use streamers.Chunklock.{no_locks}
use streamers.Grapes.{ChunkIdSets}
use streamers.Grapes.Lists.{list_sets, list_buffers}
use streamers.Transaction.Heap.{Store, ServiceTime, write}
use streamers.Transaction.Chain.{Cells, IsList, element}
use streamers.Transaction.Remove.{erase, lookup, outcome}
use streamers.Streaming.Needs.{Peer, needs, set_needs, cb_size_time_unlimited}
use streamers.Streaming.Accept.{cb_to_bmap}
use streamers.Signaling.{
  Surroundings, Signaling, handled, offer, ack, send_buffermap, sig_parse_data,
}
use streamers.Signaling.Offers.{Mirrors, offer_answered, ack_settled, bmap_respected}

abbrev noon : Timeval
noon = record { tv_sec = 10; tv_usec = 0 }

abbrev surroundings : Surroundings
surroundings = record {
  stamp = noon;
  accept_clock = λ k. noon;
  send_clock = λ k. 0;
  send_chunk = λ i. true;
  reg_now = 0;
  fuel = 2;
  cb_size_time = cb_size_time_unlimited;
  cb_size = 50;
}

abbrev neighbour : Peer list_sets
neighbour = record { id = 1; bmap = some (5 ∷ []); cb_size = 50; bmap_timestamp = noon }

abbrev offer_2 : ServiceTime
offer_2 = record {
  trans_id = 2;
  offer_sent_time = 5000000;
  accept_received_time = some 6000000;
  id = 1;
}

-- The one transaction, at address 1.
abbrev cells : Cells
cells = (1, offer_2) ∷ []

abbrev one_offer : Store
one_offer = record {
  heap = write (λ p. none) 1 (some (element offer_2 0 0));
  stl = 1;
  trans_id = 2;
}

abbrev start : Signaling list_sets
start = record {
  cb = record { id = 5; timestamp = 500; payload = []; attributes = absent } ∷ [];
  locks = no_locks;
  from = some neighbour;
  transactions = one_offer;
  accepts = [];
  sent = [];
  rate_accepts = [];
  rate_acks = [];
  reports = [];
}

one_offer-IsList : IsList one_offer cells
unfolding write
one_offer-IsList = record { starts = refl; chain = (omega arith, refl, refl, tt) }

abbrev ids_6_7 : List ℕ
ids_6_7 = 6 ∷ 7 ∷ []

offer_answered_example :
    (s' : Signaling list_sets) × (acc : List ℕ) × (sig_parse_data list_sets list_buffers
        surroundings
        (some (record { sig_type = offer; c_set = ids_6_7; max_deliver = 1; trans_id = 9 }))
        start
      ≡ handled true s')
    × Mirrors list_sets list_buffers surroundings s'.from ids_6_7
    × (s'.accepts ≡ (acc, 9) ∷ [])
    × (ChunkIdSets.size list_sets acc ≤ 1)
    × ((id : ℕ)
        → ChunkIdSets.check list_sets acc id ≡ true
        → (j : ℕ) × (j < 2)
          × (ChunkIdSets.get_chunk list_sets ids_6_7 j ≡ id)
          × (set_needs list_sets list_buffers cb_size_time_unlimited
                (tv2int noon)
                start.cb
                (cb_to_bmap list_sets list_buffers start.cb)
                50
                id
              ≡ true))
offer_answered_example =
    offer_answered list_sets list_buffers surroundings ids_6_7 1 9 start neighbour (5 ∷ []) refl
      refl

ack_settled_example :
    (s' : Signaling list_sets) × (sig_parse_data list_sets list_buffers surroundings
        (some (record { sig_type = ack; c_set = ids_6_7; max_deliver = 0; trans_id = 2 }))
        start
      ≡ handled true s')
    × Mirrors list_sets list_buffers surroundings s'.from ids_6_7
    × IsList s'.transactions (erase 2 cells)
    × (s'.rate_acks ≡ outcome (lookup 2 cells) ∷ [])
ack_settled_example =
    ack_settled list_sets list_buffers surroundings ids_6_7 0 2 start neighbour (5 ∷ []) cells refl
      refl one_offer-IsList (omega arith)

bmap_respected_example :
    (s' : Signaling list_sets) × (p' : Peer list_sets) × (sig_parse_data list_sets list_buffers
        surroundings
        (some
          (record { sig_type = send_buffermap; c_set = ids_6_7; max_deliver = 40; trans_id = 0 }))
        start
      ≡ handled true s')
    × (s'.from ≡ some p')
    × ((t now now' : ℕ) (cb : List Chunk) (id : ℕ)
        → (ChunkIdSets.check list_sets ids_6_7 id || 40 == 0) ≡ true
        → needs list_sets list_buffers t now now' cb p' id ≡ false)
bmap_respected_example =
    bmap_respected list_sets list_buffers surroundings ids_6_7 40 0 start neighbour (5 ∷ []) refl
      refl
