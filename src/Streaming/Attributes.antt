-- ===== src/Streaming/Attributes.antt =====
-- The attribute block of a chunk, as streaming.c fills and updates it.
use streamers.Common.{
  ℕ, ◌+◌, ◌*◌, ◌%◌, ◌^◌, ◌≡◌, refl, Option, none, some, List, map, if◌then◌else◌, ◌==◌,
}
use streamers.Chunk.{absent, block, chunker, strange, Chunk}

-- `none` is the failed `assert`; a chunkiser's block gives the priority.
unfoldable pub chunk_attributes_fill : Chunk → Option Chunk
chunk_attributes_fill c =
    let fill : ℕ → Option Chunk = λ priority. some (record c {
      attributes =
          block
            (record { deadline = c.id; deadline_increment = priority * 2 % 2 ^ 16; hopcount = 0 });
    }) in
    elim c.attributes [
      | absent ↦ fill 1
      | chunker priority ↦ fill priority
      | block ca ↦ none
      | strange size ↦ none
    ]

-- `none` is the -1 for a strange block.
unfoldable pub chunk_get_hopcount : Chunk → Option ℕ
chunk_get_hopcount c = elim c.attributes [
  | block ca ↦ some ca.hopcount
  | absent ↦ none
  | chunker priority ↦ none
  | strange size ↦ none
]

unfoldable pub chunk_attributes_update_received : Chunk → Chunk
chunk_attributes_update_received c = elim c.attributes [
  | block ca ↦ record c { attributes = block (record ca { hopcount = (ca.hopcount + 1) % 2 ^ 16 }) }
  | absent ↦ c
  | chunker priority ↦ c
  | strange size ↦ c
]

unfoldable pub chunk_attributes_update_sending : Chunk → Chunk
chunk_attributes_update_sending c = elim c.attributes [
  | block ca ↦ record c {
    attributes = block (record ca { deadline = (ca.deadline + ca.deadline_increment) % 2 ^ 64 });
  }
  | absent ↦ c
  | chunker priority ↦ c
  | strange size ↦ c
]

pub received-id : (c : Chunk) → (chunk_attributes_update_received c).id ≡ c.id
unfolding chunk_attributes_update_received
received-id c =
    elim c.attributes
      as (λ a. (chunk_attributes_update_received (record c { attributes = a })).id ≡ c.id) [
        | block ca ↦ refl
        | absent ↦ refl
        | chunker priority ↦ refl
        | strange size ↦ refl
      ]

pub sending-id : (c : Chunk) → (chunk_attributes_update_sending c).id ≡ c.id
unfolding chunk_attributes_update_sending
sending-id c =
    elim c.attributes
      as (λ a. (chunk_attributes_update_sending (record c { attributes = a })).id ≡ c.id) [
        | block ca ↦ refl
        | absent ↦ refl
        | chunker priority ↦ refl
        | strange size ↦ refl
      ]

-- The chunk of the id, of which a buffer has one at most, through the pointer that `cb_get_chunk`
-- returns.
unfoldable pub update_chunk : (Chunk → Chunk) → ℕ → List Chunk → List Chunk
update_chunk f id cb = map (λ (c : Chunk). if c.id == id then f c else c) cb
