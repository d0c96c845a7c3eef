-- ===== src/Signaling.antt =====
-- chunk_signaling.c: the messages with buffer maps, offers, accepts and acknowledgements.
--
-- `neigh_on_sign_recv` is false, so `nodeid_to_peer` is a look-up: `from` is what it finds for the
-- sender, and also for the owner of a buffer map, which is looked up under the sender's id in both
-- branches of `bmap_received`.
pub mod Offers
mod Tests
use streamers.Common.{
  ℕ, ◌<◌, Bool, true, false, not, Option, none, some, List, [], ◌∷◌, if◌then◌else◌, ◌==◌,
}
use streamers.Timer.{Timeval}
use streamers.Chunk.{Chunk}
use streamers.Chunklock.{Locks}
use streamers.Grapes.{ChunkIdSets, ChunkBuffers}
use streamers.Measures.Register.{Event, offer_accept_in}
use streamers.Transaction.{RemoveResult, transaction_remove}
use streamers.Transaction.Heap.{Store, Run}
use streamers.Streaming.Needs.{Peer}
use streamers.Streaming.Accept.{get_chunks_to_accept}
use streamers.Streaming.Send.{Sending, Sent, send_accepted_chunks}

-- GRAPES's `enum signaling_type`.
pub data SignalingType : Type 0 where
  send_buffermap offer accept ack other : SignalingType

-- What GRAPES's `parseSignaling` takes out of a message.
pub record Signal (ids : ChunkIdSets) : Type 0 where
  pub sig_type : SignalingType
  pub c_set : ChunkIdSets.ChunkIdSet ids
  pub max_deliver : ℕ
  pub trans_id : ℕ

-- The state: the chunk buffer, the locks, the sender as a peer, the transactions, the accepts that
-- are answered (`acceptChunks`), the chunks that are sent, the sizes handed to `rc_reg_accept` and
-- the results that `rc_reg_ack` takes from `transaction_remove`, and the calls of measures.c; each
-- newest first.
pub record Signaling (ids : ChunkIdSets) : Type 0 where
  pub cb : List Chunk
  pub locks : Locks
  pub from : Option (Peer ids)
  pub transactions : Store
  pub accepts : List (ChunkIdSets.ChunkIdSet ids × ℕ)
  pub sent : List Chunk
  pub rate_accepts : List ℕ
  pub rate_acks : List RemoveResult
  pub reports : List Event

-- `fault` is a set that is NULL or a fault in the list of transactions; `spent` is too little fuel for
-- the walk of that list.
pub data Result (ids : ChunkIdSets) : Type 0 where
  handled : Bool → Signaling ids → Result ids
  fault : Result ids
  spent : Result ids

-- The clocks, the outcomes of `sendChunk`, the fuel of the walks, and the settings.
pub record Surroundings : Type 0 where
  pub stamp : Timeval
  pub accept_clock : ℕ → Timeval
  pub send_clock : ℕ → ℕ
  pub send_chunk : ℕ → Bool
  pub reg_now : ℕ
  pub fuel : ℕ
  pub cb_size_time : ℕ
  pub cb_size : ℕ

module _ (ids : ChunkIdSets) (buffers : ChunkBuffers) (env : Surroundings) where
  open ids use {ChunkIdSet, clear, union, size}
  open env use {stamp, accept_clock, send_clock, send_chunk, reg_now, fuel, cb_size_time, cb_size}

  -- `chunkID_set_clear(p->bmap, 0); chunkID_set_union(p->bmap, c_set)`, and the time is noted.
  pub replace_bmap : ChunkIdSet → Peer ids → Option (Peer ids)
  replace_bmap c_set p = elim p.bmap [
    | none ↦ none
    | some bmap ↦ some (record p { bmap = some (union (clear bmap) c_set); bmap_timestamp = stamp })
  ]

  -- `if (from) …`, and what follows.
  pub if_from :
      (Peer ids → Option (Peer ids)) → Signaling ids → (Signaling ids → Result ids) → Result ids
  if_from f s next = elim s.from [
    | none ↦ next s
    | some p ↦ elim (f p) [ none ↦ fault | some p' ↦ next (record s { from = some p' }) ]
  ]

  -- `rc_reg_ack`, as far as it changes the transactions.
  pub rc_reg_ack : ℕ → Signaling ids → Result ids
  rc_reg_ack trans_id s = elim (transaction_remove fuel trans_id s.transactions) [
    | Run.done r store ↦
        handled true (record s { transactions = store; rate_acks = r ∷ s.rate_acks })
    | Run.fault ↦ fault
    | Run.spent ↦ spent
  ]

  pub ack_received : ChunkIdSet → ℕ → Signaling ids → Result ids
  unfolding replace_bmap if_from rc_reg_ack
  ack_received cset trans_id s = if_from (replace_bmap cset) s (rc_reg_ack trans_id)

  pub bmap_received : ChunkIdSet → ℕ → Signaling ids → Result ids
  unfolding replace_bmap if_from
  bmap_received c_set size s =
      if_from
        (λ p. elim (replace_bmap c_set p) [
          | none ↦ none
          | some p' ↦ some (record p' { cb_size = size })
        ])
        s (handled true)

  abbrev peer_id : Option (Peer ids) → Option ℕ
  peer_id none = none
  peer_id (some p) = some p.id

  -- `get_chunks_to_accept` and `acceptChunks`.
  pub answer_offer : ChunkIdSet → ℕ → ℕ → Signaling ids → Result ids
  answer_offer cset max_deliver trans_id s =
      let r =
        get_chunks_to_accept ids buffers cb_size_time cb_size max_deliver s.cb (peer_id s.from)
          accept_clock cset s.locks in
      handled true (record s {
        locks = r.locks;
        accepts = (r.cset_acc, trans_id) ∷ s.accepts;
        reports = offer_accept_in (not (size r.cset_acc == 0)) ∷ s.reports;
      })

  pub offer_received : ChunkIdSet → ℕ → ℕ → Signaling ids → Result ids
  unfolding replace_bmap if_from answer_offer
  offer_received cset max_deliver trans_id s =
      if_from (replace_bmap cset) s (answer_offer cset max_deliver trans_id)

  -- `send_accepted_chunks`, which starts with `transaction_reg_accept`.
  pub answer_accept : ChunkIdSet → ℕ → ℕ → Signaling ids → Result ids
  answer_accept cset max_deliver trans_id s =
      let sending : Sending ids = record {
        cb = s.cb;
        to = s.from;
        sent = s.sent;
        reports = s.reports;
      } in
      let r =
        send_accepted_chunks ids buffers cb_size_time max_deliver send_clock send_chunk cset reg_now
          fuel trans_id sending s.transactions in
      elim r [
        | Run.fault ↦ fault
        | Run.spent ↦ spent
        | Run.done sent store ↦ elim sent [
          | Sent.fault ↦ fault
          | Sent.finished f ↦ handled true (record s {
            transactions = store;
            cb = f.cb;
            from = f.to;
            sent = f.sent;
            reports = f.reports;
          })
        ]
      ]

  pub accept_received : ChunkIdSet → ℕ → ℕ → Signaling ids → Result ids
  unfolding if_from answer_accept
  accept_received cset max_deliver trans_id s =
      if_from (λ p. some (record p { bmap_timestamp = stamp })) s
        λ s'.
          answer_accept cset max_deliver trans_id
            (record s' { rate_accepts = size cset ∷ s'.rate_accepts })

  -- The result is `false` for -1. `parsed` is `none` where `parseSignaling` returns a negative number.
  pub sig_parse_data : Option (Signal ids) → Signaling ids → Result ids
  unfolding bmap_received offer_received accept_received ack_received
  sig_parse_data none s = handled false s
  sig_parse_data (some sig) s = elim sig.sig_type [
    | send_buffermap ↦ bmap_received sig.c_set sig.max_deliver s
    | offer ↦ offer_received sig.c_set sig.max_deliver sig.trans_id s
    | accept ↦ accept_received sig.c_set (size sig.c_set) sig.trans_id s
    | ack ↦ ack_received sig.c_set sig.trans_id s
    | other ↦ handled false s
  ]
