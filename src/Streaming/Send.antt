-- ===== src/Streaming/Send.antt =====
-- `send_accepted_chunks` of streaming.c: the chunks that a peer accepted are sent to it.
pub mod Once
use streamers.Common.{
  ℕ, zero, suc, ◌+◌, ◌*◌, Bool, true, false, not, Option, none, some, List, [], ◌∷◌, if◌then◌else◌,
  ltb, ◌==◌,
}
use streamers.Chunk.{Chunk}
use streamers.Grapes.{ChunkIdSets, ChunkBuffers}
use streamers.Measures.Register.{Event, chunk_send, offer_accept_out}
use streamers.Transaction.{transaction_reg_accept}
use streamers.Transaction.Heap.{Cmd, pure, ◌>>=◌, ◌>>◌}
use streamers.Streaming.Needs.{Peer, needs}
use streamers.Streaming.Attributes.{chunk_attributes_update_sending, update_chunk}

-- What `send_accepted_chunks` changes: the buffer's chunks, what is known of the peer, the chunks that
-- went out, newest first, and the calls of measures.c, newest first.
pub record Sending (ids : ChunkIdSets) : Type 0 where
  pub cb : List Chunk
  pub to : Option (Peer ids)
  pub sent : List Chunk
  pub reports : List Event

-- `fault` is a `chunkID_set_add_chunk` that is handed NULL for the set.
pub data Sent (ids : ChunkIdSets) : Type 0 where
  finished : Sending ids → Sent ids
  fault : Sent ids

module _ (ids : ChunkIdSets) (buffers : ChunkBuffers) where
  open ids use {ChunkIdSet, add_chunk, size, get_chunk}

  -- A chunk that went out: `chunkID_set_add_chunk(to->bmap, c->id)`, and `reg_chunk_send`.
  pub note_sent : Chunk → Sending ids → Sent ids
  note_sent c s =
      let s' : Sending ids = record s { sent = c ∷ s.sent; reports = chunk_send ∷ s.reports } in
      elim s.to [
        | none ↦ finished s'
        | some p ↦ elim p.bmap [
          | none ↦ fault
          | some bmap ↦
              finished (record s' { to = some (record p { bmap = some (add_chunk bmap c.id) }) })
        ]
      ]

  module _ (cb_size_time max_deliver : ℕ) (clock : ℕ → ℕ) (send_chunk : ℕ → Bool)
      (cset_acc : ChunkIdSet) where
    -- `!to || needs(to, chunkid)`; the clock is read twice at most in a round.
    pub is_due : ℕ → ℕ → Sending ids → Bool
    is_due i chunkid s = elim s.to [
      | none ↦ true
      | some p ↦ needs ids buffers cb_size_time (clock (2 * i)) (clock (2 * i + 1)) s.cb p chunkid
    ]

    -- The loop, by the rounds left; `send_chunk i` is whether `sendChunk` returns no error in round
    -- `i`.
    pub send_loop : ℕ → ℕ → ℕ → Sending ids → Sent ids
    unfolding is_due note_sent
    send_loop zero i d s = finished s
    send_loop (suc rounds) i d s = elim (ltb d max_deliver) [
      | false ↦ finished s
      | true ↦
          let chunkid = get_chunk cset_acc i in
          elim (buffers.get_chunk s.cb chunkid) [
            | none ↦ send_loop rounds (suc i) d s
            | some c ↦ elim (is_due i chunkid s) [
              | false ↦ send_loop rounds (suc i) d s
              | true ↦
                  let s' : Sending ids = record s {
                    cb = update_chunk chunk_attributes_update_sending c.id s.cb;
                  } in
                  elim (send_chunk i) [
                    | false ↦ send_loop rounds (suc i) d s'
                    | true ↦ elim (note_sent (chunk_attributes_update_sending c) s') [
                      | fault ↦ fault
                      | finished s'' ↦ send_loop rounds (suc i) (suc d) s''
                    ]
                  ]
            ]
          ]
    ]

    -- `transaction_reg_accept`, behind which the chunks are sent, if it does not fault; `now` and `fuel` are for it.
    pub send_accepted_chunks : (now fuel trans_id : ℕ) → Sending ids → Cmd (Sent ids)
    unfolding send_loop
    send_accepted_chunks now fuel trans_id s = do
      transaction_reg_accept now fuel trans_id
      pure (
          send_loop (size cset_acc) 0 0
            (record s { reports = offer_accept_out (not (size cset_acc == 0)) ∷ s.reports }))
