-- ===== src/Chunk.antt =====
-- The chunks that the program passes on: GRAPES's `struct chunk` as the sources use it, with
-- the attribute block of streaming.c.
use streamers.Common.{ℕ, List}

-- `struct chunk_attributes` (streaming.c), the block that the streamer itself writes.
pub record ChunkAttributes : Type 0 where
  pub deadline : ℕ
  pub deadline_increment : ℕ
  pub hopcount : ℕ

-- What `c->attributes` and `c->attributes_size` hold: nothing, the streamer's block, the
-- chunkiser's block with its priority, or a block of another size.
pub data Attributes : Type 0 where
  absent : Attributes
  block : ChunkAttributes → Attributes
  chunker : ℕ → Attributes
  strange : ℕ → Attributes

pub record Chunk : Type 0 where
  pub id : ℕ
  pub timestamp : ℕ
  pub payload : List ℕ
  pub attributes : Attributes
