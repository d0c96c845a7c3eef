-- ===== src/Streaming/Receive.antt =====
-- `received_chunk` of streaming.c, with `ack_chunk`, `send_ack`, `bcast_bmap` and `send_bmap`.
pub mod Settled
use streamers.Common.{
  ℕ, zero, suc, ◌-◌, ◌^◌, Bool, true, false, Option, none, some, List, [], ◌∷◌, map, if◌then◌else◌,
  ◌==◌, get_or,
}
use mathlib.Core.Option
use streamers.Timer.{Timeval}
use streamers.Chunk.{Chunk}
use streamers.Chunklock.{Locks, chunk_unlock}
use streamers.Output.{OutputConfig, Output, output_deliver, delivered, crash}
use streamers.Grapes.{ChunkIdSets, ChunkBuffers, AddResult, added, old, duplicate}
use streamers.Measures.Register.{Event, chunk_receive}
use streamers.Streaming.Needs.{Peer}
use streamers.Streaming.Accept.{cb_to_bmap}
use streamers.Streaming.Attributes.{chunk_attributes_update_received, chunk_get_hopcount}

-- The messages of a streamer: `sendAck` with its transaction, and `sendBufferMap` with its receiver
-- and the size of the buffer.
pub data Message (ids : ChunkIdSets) : Type 0 where
  ack : (toid trans_id : ℕ) (bmap : ChunkIdSets.ChunkIdSet ids) → Message ids
  buffer_map : (toid : ℕ) (bmap : ChunkIdSets.ChunkIdSet ids) (cb_size : ℕ) → Message ids

-- The state that `received_chunk` works on: the chunk buffer, the locks, the output, what is known of
-- the sender, the messages that go out and the calls of measures.c, newest first.
pub record Streamer (ids : ChunkIdSets) : Type 0 where
  pub cb : List Chunk
  pub locks : Locks
  pub output : Output
  pub from : Option (Peer ids)
  pub messages : List (Message ids)
  pub reports : List Event

-- `crash` of the output is `exited`; `fault` is a `chunkID_set_add_chunk` that is handed NULL.
pub data Received (ids : ChunkIdSets) : Type 0 where
  done : Streamer ids → Received ids
  exited : Received ids
  fault : Received ids

-- What is the same for all calls: `cb_size`, `bcast_after_receive_every`, whether this is the source,
-- and the ids of the neighbours.
pub record StreamConfig : Type 0 where
  pub cb_size : ℕ
  pub bcast_after_receive_every : ℕ
  pub is_source : Bool
  pub neighbours : List ℕ

abbrev pub hopcount_int : Option ℕ → ℕ
hopcount_int none = 2 ^ 32 - 1
hopcount_int (some n) = n

abbrev pub is_old : AddResult → Bool
is_old added = false
is_old old = true
is_old duplicate = false

abbrev pub is_duplicate : AddResult → Bool
is_duplicate added = false
is_duplicate old = false
is_duplicate duplicate = true

module _ (ids : ChunkIdSets) (buffers : ChunkBuffers) (cfg : StreamConfig) where
  open ids use {ChunkIdSet, add_chunk}
  open cfg use {cb_size, bcast_after_receive_every, is_source, neighbours}

  -- `input ? 0 : cb_size`
  abbrev pub declared_size : ℕ
  declared_size = if is_source then 0 else cb_size

  -- What `send_bmap` sends to `toid`.
  abbrev pub bmap_message : ℕ → List Chunk → Message ids
  bmap_message toid cb = buffer_map toid (cb_to_bmap ids buffers cb) declared_size

  pub send_bmap : ℕ → Streamer ids → Streamer ids
  send_bmap toid s = record s { messages = bmap_message toid s.cb ∷ s.messages }

  -- To each of the neighbours in turn.
  bcast_loop : List ℕ → ChunkIdSet → List (Message ids) → List (Message ids)
  bcast_loop [] my_bmap messages = messages
  bcast_loop (id ∷ rest) my_bmap messages =
      bcast_loop rest my_bmap (buffer_map id my_bmap declared_size ∷ messages)

  pub bcast_bmap : Streamer ids → Streamer ids
  unfolding bcast_loop
  bcast_bmap s = record s {
    messages = bcast_loop neighbours (cb_to_bmap ids buffers s.cb) s.messages;
  }

  pub send_ack : (toid trans_id : ℕ) → Streamer ids → Streamer ids
  send_ack toid trans_id s = record s {
    messages = ack toid trans_id (cb_to_bmap ids buffers s.cb) ∷ s.messages;
  }

  -- `skipped` is whether `rand()` falls below the average loss rate.
  pub ack_chunk : Bool → (from trans_id : ℕ) → Streamer ids → Streamer ids
  unfolding send_ack
  ack_chunk skipped from trans_id s = if skipped then s else send_ack from trans_id s

  -- `if (bcast_after_receive_every && bcast_cnt % bcast_after_receive_every == 0)`; `bcast_cnt` is 0.
  pub bcast_after : Streamer ids → Streamer ids
  unfolding bcast_bmap
  bcast_after s = if bcast_after_receive_every == 0 then s else bcast_bmap s

  -- `if (p)`: the chunk goes into the sender's buffer map, and the time is noted.
  pub note_received : Timeval → ℕ → Streamer ids → Received ids
  note_received stamp id s = elim s.from [
    | none ↦ done s
    | some p ↦ elim p.bmap [
      | none ↦ fault
      | some bmap ↦ done (record s {
        from = some (record p { bmap = some (add_chunk bmap id); bmap_timestamp = stamp });
      })
    ]
  ]

  -- `cb_add_chunk` and `reg_chunk_receive`.
  pub keep_chunk : Timeval → Chunk → Streamer ids → Streamer ids
  keep_chunk later c s =
      let r = buffers.add_chunk s.cb c in
      record s {
        cb = r.1;
        reports =
            chunk_receive later c.timestamp (hopcount_int (chunk_get_hopcount c)) (is_old r.0)
              (is_duplicate r.0)
            ∷ s.reports;
      }

  -- What comes behind the note: the acknowledgement, and the buffer map to all.
  pub answer : Bool → (from trans_id : ℕ) → Received ids → Received ids
  unfolding ack_chunk bcast_after
  answer skipped from trans_id (done s) = done (bcast_after (ack_chunk skipped from trans_id s))
  answer skipped from trans_id exited = exited
  answer skipped from trans_id fault = fault

  -- `parsed` is what GRAPES's `parseChunkMsg` makes of the message: a chunk and a transaction id, or
  -- an error; `later` and `stamp` are readings of the clock. `s.from` is what `nodeid_to_peer` returns for the sender.
  pub received_chunk :
      (out : OutputConfig) (later stamp : Timeval) (skipped : Bool) (from : ℕ)
      → Option (Chunk × ℕ)
      → Streamer ids
      → Received ids
  unfolding note_received keep_chunk answer
  received_chunk out later stamp skipped from none s = done s
  received_chunk out later stamp skipped from (some (c0, transid)) s =
      let c = chunk_attributes_update_received c0 in
      elim (output_deliver out c s.output) [
        | crash ↦ exited
        | delivered output ↦
            let s' : Streamer ids = record s {
              locks = chunk_unlock c.id s.locks;
              output = output;
            } in
            answer skipped from transid (note_received stamp c.id (keep_chunk later c s'))
      ]
