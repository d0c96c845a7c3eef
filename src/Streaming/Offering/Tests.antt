-- ===== src/Streaming/Offering/Tests.antt =====
-- Runs of `send_offer` of streaming.c.
use streamers.Common.{ℕ, ◌*◌, ◌≤◌, ◌≡◌, refl, true, false, some, none, List, [], ◌∷◌, arith}
use streamers.Chunk.{Chunk, absent}
use streamers.Grapes.First.{first_scheduler}
use streamers.Grapes.Lists.{list_sets, list_buffers}
use streamers.Streaming.Needs.{
  Peer, cb_size_time_unlimited, needs, set_needs, too_old, get_chunk_timestamp,
}
use streamers.Transaction.Heap.{Store, done}
use streamers.Transaction.Chain.{IsList}
use streamers.Streaming.Offering.{Offered, OfferConfig, System, selected_peers, send_offer}
use streamers.Streaming.Offering.Sent.{after, AreOffers, send_offer-AreOffers}

abbrev chunk_of : ℕ → Chunk
chunk_of id = record { id = id; timestamp = 1000000 * id; payload = id ∷ []; attributes = absent }

abbrev peer_of : ℕ → List ℕ → Peer list_sets
peer_of id bmap = record {
  id = id;
  bmap = some bmap;
  cb_size = 50;
  bmap_timestamp = record { tv_sec = 10; tv_usec = 0 };
}

abbrev cfg : OfferConfig
cfg = record {
  heuristics_distance_maxdeliver = true;
  offer_per_tick = 2;
  is_source = false;
  hops = λ p. some 1;
  rtt = λ p. none;
}

abbrev sys : System
sys = record { now = λ i. 100; sent = λ i. 101; fresh = λ i. 7 }

abbrev no_offers : Store
no_offers = record { heap = λ p. none; stl = 0; trans_id = 0 }

-- Peer 8, the second one, needs a chunk.
send_offer-AreOffers_example :
    (offers : List (Offered list_sets)) × (s' : Store) × (send_offer list_sets cfg sys 9
        list_buffers first_scheduler cb_size_time_unlimited false 0
        (peer_of 4 (5 ∷ 6 ∷ []) ∷ peer_of 8 [] ∷ [])
        (chunk_of 5 ∷ chunk_of 6 ∷ [])
        no_offers
      ≡ done offers s')
    × IsList s' (after sys 0 0 (8 ∷ []) [])
    × AreOffers list_sets cfg sys 9 (chunk_of 5 ∷ chunk_of 6 ∷ []) (8 ∷ []) [] offers
    × (1 ≤ 2)
unfolding selected_peers needs set_needs too_old get_chunk_timestamp
send_offer-AreOffers_example =
    send_offer-AreOffers list_sets cfg sys 9 list_buffers first_scheduler cb_size_time_unlimited 0
      (peer_of 4 (5 ∷ 6 ∷ [])) (peer_of 8 [] ∷ []) (chunk_of 5) (chunk_of 6 ∷ []) no_offers []
      (record { starts = refl; chain = tt }) (omega arith) (omega arith, refl, tt)
