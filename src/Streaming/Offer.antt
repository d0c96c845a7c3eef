-- ===== src/Streaming/Offer.antt =====
-- `compose_offer_cset` of streaming.c: which chunks are offered; and `get_chunk_deadline`.
pub mod Recent
use streamers.Common.{
  ℕ, zero, suc, ◌+◌, ◌-◌, ◌*◌, ◌/◌, Bool, Option, none, some, List, [], ◌∷◌, length, get_elem?,
  if◌then◌else◌, ltb,
}
use streamers.Chunk.{Chunk, absent, block, chunker, strange}
use streamers.Grapes.{ChunkIdSets, ChunkBuffers}

-- `DEFAULT_RTT_ESTIMATE` in microseconds, which stands in where no round trip time is known.
abbrev pub default_rtt_estimate : ℕ
default_rtt_estimate = 500000

unfoldable pub get_chunk_deadline : ChunkBuffers → List Chunk → ℕ → ℕ
get_chunk_deadline buffers cb cid = elim (buffers.get_chunk cb cid) [
  | none ↦ 0
  | some c ↦ elim c.attributes [
    | block ca ↦ ca.deadline
    | absent ↦ 0
    | chunker priority ↦ 0
    | strange size ↦ 0
  ]
]

module _ (ids : ChunkIdSets) where
  open ids use {ChunkIdSet, init, add_chunk}

  -- The loop, by the chunks left to look at, from the latest to the earliest; `dt` is the round trip time
  -- in whole microseconds.
  unfoldable pub offer_loop : (dt smallest_ts : ℕ) → List Chunk → ℕ → ChunkIdSet → ChunkIdSet
  offer_loop dt smallest_ts chunks zero my_bmap = my_bmap
  offer_loop dt smallest_ts chunks (suc j) my_bmap = elim (get_elem? chunks j) [
    | none ↦ my_bmap
    | some c ↦
        offer_loop dt smallest_ts chunks j
          (if ltb (smallest_ts + dt) c.timestamp then add_chunk my_bmap c.id else my_bmap)
  ]

  -- `none` is the read of the first chunk of an empty buffer, which `send_offer` rules out. The source
  -- leaves out the latest quarter.
  unfoldable pub compose_offer_cset :
      (rtt : Option ℕ) (am_i_source : Bool) → List Chunk → Option ChunkIdSet
  unfolding offer_loop
  compose_offer_cset rtt am_i_source [] = none
  compose_offer_cset rtt am_i_source (c ∷ cs) =
      let chunks = c ∷ cs in
      let dt : ℕ = elim rtt [ none ↦ default_rtt_estimate | some t ↦ t ] in
      let last = length chunks - 1 in
      let j = if am_i_source then last * 3 / 4 else last in
      some (offer_loop dt c.timestamp chunks (suc j) init)
