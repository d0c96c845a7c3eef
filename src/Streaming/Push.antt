-- ===== src/Streaming/Push.antt =====
-- `send_chunk` of streaming.c, which pushes the latest chunk to a neighbour that GRAPES's scheduler selects;
-- `generated_chunk` and `add_chunk`, which bring the source's chunks into the buffer.
mod Latest
pub mod Noted
pub mod Once
mod Tests
use streamers.Common.{
  ℕ, zero, suc, Bool, true, false, Option, none, some, List, [], ◌∷◌, ◌++◌, if◌then◌else◌,
  get_elem?, set, take,
}
use streamers.Chunk.{Chunk}
use streamers.Grapes.{ChunkIdSets, ChunkBuffers, Schedulers, AddResult, added, old, duplicate}
use streamers.Measures.Register.{Event, chunk_send}
use streamers.Streaming.Needs.{Peer, needs}
use streamers.Streaming.Attributes.{
  chunk_attributes_fill, chunk_attributes_update_sending, update_chunk,
}
use streamers.Streaming.Receive.{Message, StreamConfig, bmap_message}

-- What `send_chunk` changes: the neighbours of the peer set, the chunk buffer, the chunks that went out with
-- the places of their receivers among the neighbours, the buffer maps that went out, and the calls of
-- measures.c, each newest first.
pub record Pushing (ids : ChunkIdSets) : Type 0 where
  pub neighbours : List (Peer ids)
  pub cb : List Chunk
  pub sent : List (ℕ × Chunk)
  pub messages : List (Message ids)
  pub reports : List Event

-- `fault` is a read through NULL: of a chunk that is not in the buffer, or of a buffer map that is not there.
pub data Pushed (ids : ChunkIdSets) : Type 0 where
  finished : Pushing ids → Pushed ids
  fault : Pushed ids

-- `for (i = 0; i < size; i++) chunkids[size - 1 - i] = (buff + i)->id`
abbrev pub latest_first : List Chunk → List ℕ
latest_first [] = []
latest_first (c ∷ cs) = latest_first cs ++ c.id ∷ []

module _ (ids : ChunkIdSets) (buffers : ChunkBuffers) (cfg : StreamConfig) where
  open ids use {add_chunk}

  -- `chunkID_set_add_chunk(p->bmap, c->id)` and `reg_chunk_send`, when `sendChunk` returned no error.
  pub note_pushed : ℕ → Peer ids → Chunk → Pushing ids → Pushed ids
  note_pushed i p c s = elim p.bmap [
    | none ↦ fault
    | some bmap ↦ finished (record s {
      neighbours = set s.neighbours i (record p { bmap = some (add_chunk bmap c.id) });
      sent = (i, c) ∷ s.sent;
      reports = chunk_send ∷ s.reports;
    })
  ]

  -- One pair of a peer and a chunk id; `sent_ok` is whether `sendChunk` returns no error.
  pub push_one : (send_bmap_before_push sent_ok : Bool) → ℕ × ℕ → Pushing ids → Pushed ids
  unfolding note_pushed
  push_one send_bmap_before_push sent_ok (i, cid) s = elim (get_elem? s.neighbours i) [
    | none ↦ fault
    | some p ↦ elim (buffers.get_chunk s.cb cid) [
      | none ↦ fault
      | some c ↦
          let messages =
            if send_bmap_before_push
            then bmap_message ids buffers cfg p.id s.cb ∷ s.messages
            else s.messages in
          let s' : Pushing ids = record s {
            cb = update_chunk chunk_attributes_update_sending c.id s.cb;
            messages = messages;
          } in
          if sent_ok then note_pushed i p (chunk_attributes_update_sending c) s' else finished s'
    ]
  ]

  pub push_loop :
      (send_bmap_before_push : Bool) → (ℕ → Bool) → ℕ → List (ℕ × ℕ) → Pushing ids → Pushed ids
  unfolding push_one
  push_loop before ok i [] s = finished s
  push_loop before ok i (pair ∷ pairs) s = elim (push_one before (ok i) pair s) [
    | fault ↦ fault
    | finished s' ↦ push_loop before ok (suc i) pairs s'
  ]

  module _ (schedulers : Schedulers (Peer ids)) (cb_size_time : ℕ) where
    -- `SCHED_TYPE(SCHED_WEIGHTING, nodeids, n, chunkids, 1, selectedpairs, &selectedpairs_len, SCHED_NEEDS,
    -- …)`: of the chunk ids it is handed the first, and it selects one pair at most. `now` is the time
    -- meanwhile.
    pub selected_pairs : (now : ℕ) → Pushing ids → List (ℕ × ℕ)
    selected_pairs now s =
        schedulers.select_pairs s.neighbours (take 1 (latest_first s.cb)) 1
          (needs ids buffers cb_size_time now now s.cb)

    pub send_chunk : (before : Bool) → (ℕ → Bool) → (now : ℕ) → Pushing ids → Pushed ids
    unfolding push_loop selected_pairs
    send_chunk before ok now s = elim s.neighbours [
      | [] ↦ finished s
      | p ∷ ps ↦ elim s.cb [
        | [] ↦ finished s
        | c ∷ cs ↦ push_loop before ok 0 (selected_pairs now s) s
      ]
    ]

    -- The calls in a row of `source_loop` (loop.c), by the calls left; `now` and `ok` by the call.
    pub send_chunks : (before : Bool) → (ℕ → ℕ → Bool) → (ℕ → ℕ) → ℕ → Pushing ids → Pushed ids
    unfolding send_chunk
    send_chunks before ok now zero s = finished s
    send_chunks before ok now (suc n) s = elim (send_chunk before (ok n) (now n) s) [
      | fault ↦ fault
      | finished s' ↦ send_chunks before ok now n s'
    ]

-- What `input_get` brings: a negative number, or a time to wait with a chunk or with none.
pub data Input : Type 0 where
  failed : Input
  got : (delta : ℕ) → Option Chunk → Input

-- The exit of the program, the failed `assert` of `chunk_attributes_fill`, or what is returned, with `delta`.
pub data Generated : Type 0 where
  exited asserted : Generated
  generated : (delta : ℕ) → Option Chunk → Generated

pub generated_chunk : Input → Generated
generated_chunk failed = exited
generated_chunk (got delta none) = generated delta none
generated_chunk (got delta (some c)) = elim (chunk_attributes_fill c) [
  | none ↦ asserted
  | some c' ↦ generated delta (some c')
]

-- Whether the buffer took the chunk, and the buffer.
pub add_chunk : ChunkBuffers → List Chunk → Chunk → Bool × List Chunk
add_chunk buffers cb c =
    let (res, cb') = buffers.add_chunk cb c in
    (elim res [ added ↦ true | old ↦ false | duplicate ↦ false ], cb')
