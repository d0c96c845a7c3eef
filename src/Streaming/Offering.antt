-- ===== src/Streaming/Offering.antt =====
-- `send_offer` of streaming.c: offers to the peers that GRAPES's scheduler selects, each under a transaction.
pub mod Sent
mod Tests
use streamers.Common.{ℕ, zero, suc, Bool, true, false, Option, none, some, List, [], ◌∷◌, get_elem?}
use streamers.Chunk.{Chunk}
use streamers.Grapes.{ChunkIdSets, ChunkBuffers, Schedulers}
use streamers.Transaction.Heap.{Ptr, Store, Run, done, fault, spent, Cmd, pure, ◌>>=◌}
use streamers.Transaction.{transaction_create}
use streamers.Streaming.Needs.{Peer, needs}
use streamers.Streaming.Offer.{compose_offer_cset}
use streamers.Streaming.Push.{latest_first}

-- `offerChunks` with its arguments.
pub record Offered (ids : ChunkIdSets) : Type 0 where
  pub to : ℕ
  pub offer_cset : ChunkIdSets.ChunkIdSet ids
  pub max_deliver : ℕ
  pub transid : ℕ

-- `hops` is `get_hopcount` of MONL, and `none` where MONL is not built in.
pub offer_max_deliver : (heuristics_distance_maxdeliver : Bool) (hops : Option ℕ) → ℕ
offer_max_deliver false hops = 1
offer_max_deliver true none = 1
offer_max_deliver true (some zero) = 5
offer_max_deliver true (some (suc zero)) = 2
offer_max_deliver true (some (suc (suc n))) = 1

-- The settings: `heuristics_distance_maxdeliver`, `offer_per_tick`, whether this is the source; and what MONL
-- knows of a peer, its distance and its round trip time in microseconds.
pub record OfferConfig : Type 0 where
  pub heuristics_distance_maxdeliver : Bool
  pub offer_per_tick : ℕ
  pub is_source : Bool
  pub hops : ℕ → Option ℕ
  pub rtt : ℕ → Option ℕ

-- What `transaction_create` is handed by the system in round `i`: its two readings of the clock, and the address
-- that `malloc` returns.
pub record System : Type 0 where
  pub now : ℕ → ℕ
  pub sent : ℕ → ℕ
  pub fresh : ℕ → Ptr

abbrev stop : {A : Type 0} → Cmd A
stop s = fault

module _ (ids : ChunkIdSets) (cfg : OfferConfig) (sys : System) (fuel : ℕ) where
  -- The loop over the selected peers; the offers newest first. A read of the first chunk of an empty buffer, or
  -- of a peer that is not there, is a fault.
  pub offer_each :
      List (Peer ids) → List Chunk → ℕ → List ℕ → List (Offered ids) → Cmd (List (Offered ids))
  unfolding offer_max_deliver
  offer_each neighbours buff i [] offers = pure offers
  offer_each neighbours buff i (k ∷ ks) offers = elim (get_elem? neighbours k) [
    | none ↦ stop
    | some p ↦ do
      transid ← transaction_create (sys.now i) (sys.sent i) fuel (sys.fresh i) p.id
      elim (compose_offer_cset ids (cfg.rtt p.id) cfg.is_source buff) [
        | none ↦ stop
        | some cset ↦
            let o : Offered ids = record {
              to = p.id;
              offer_cset = cset;
              max_deliver = offer_max_deliver cfg.heuristics_distance_maxdeliver (cfg.hops p.id);
              transid = transid;
            } in
            offer_each neighbours buff (suc i) ks (o ∷ offers)
      ]
  ]

  module _ (buffers : ChunkBuffers) (schedulers : Schedulers (Peer ids)) (cb_size_time : ℕ) where
    -- `schedSelectPeersForChunks(…, SCHED_NEEDS, …)`, at the time `now`
    pub selected_peers : (now : ℕ) → List (Peer ids) → List Chunk → List ℕ
    selected_peers now neighbours buff =
        schedulers.select_peers neighbours (latest_first buff) cfg.offer_per_tick
          (needs ids buffers cb_size_time now now buff)

    -- `skipped` is whether the random number falls below ten times the average loss rate.
    pub send_offer :
        (skipped : Bool) (now : ℕ) → List (Peer ids) → List Chunk → Cmd (List (Offered ids))
    unfolding offer_each selected_peers
    send_offer skipped now [] buff = pure []
    send_offer skipped now (p ∷ ps) [] = pure []
    send_offer true now (p ∷ ps) (c ∷ cs) = pure []
    send_offer false now (p ∷ ps) (c ∷ cs) =
        offer_each (p ∷ ps) (c ∷ cs) 0 (selected_peers now (p ∷ ps) (c ∷ cs)) []
