-- ===== src/Streaming/Needs.antt =====
-- `needs` and `_needs` of streaming.c: whether a peer needs a chunk.
use streamers.Common.{
  ℕ, ◌+◌, ◌-◌, ◌%◌, ◌^◌, Bool, true, false, not, Option, none, some, List, if◌then◌else◌, ltb, leb,
  ◌==◌, ◌&&◌,
}
use streamers.Timer.{Timeval}
use streamers.Chunk.{Chunk}
use streamers.Grapes.{ChunkIdSets, ChunkBuffers}

-- `CB_SIZE_TIME_UNLIMITED`, in place of the double 1e12.
abbrev pub cb_size_time_unlimited : ℕ
cb_size_time_unlimited = 1000000000000

-- What the streamer knows of a peer: GRAPES's `struct peer`, as far as streaming.c uses it.
pub record Peer (ids : ChunkIdSets) : Type 0 where
  pub id : ℕ
  pub bmap : Option (ChunkIdSets.ChunkIdSet ids)
  pub cb_size : ℕ
  pub bmap_timestamp : Timeval

module _ (ids : ChunkIdSets) (buffers : ChunkBuffers) where
  open ids use {ChunkIdSet, check, size, get_earliest}

  unfoldable pub get_chunk_timestamp : List Chunk → ℕ → ℕ
  get_chunk_timestamp cb cid = elim (buffers.get_chunk cb cid) [ none ↦ 0 | some c ↦ c.timestamp ]

  -- `now` is `gettimeofday_in_us()`, and the subtraction is on `uint64_t`.
  unfoldable pub too_old : ℕ → ℕ → List Chunk → ℕ → Bool
  unfolding get_chunk_timestamp
  too_old cb_size_time now cb cid =
      let ts = get_chunk_timestamp cb cid in
      ltb cb_size_time cb_size_time_unlimited
      && (not (ts == 0) && ltb ts ((now + 2 ^ 64 - cb_size_time) % 2 ^ 64))

  -- `_needs`
  unfoldable pub set_needs : ℕ → ℕ → List Chunk → ChunkIdSet → ℕ → ℕ → Bool
  set_needs cb_size_time now cb cset cb_size cid =
      if cb_size == 0
      then false
      else if too_old cb_size_time now cb cid
      then false
      else if check cset cid
      then false
      else if size cset == 0
      then true
      else leb (get_earliest cset) (cid + (cb_size - size cset))

  -- `now` for its own clock, `now'` for that of `_needs`.
  unfoldable pub needs : ℕ → ℕ → ℕ → List Chunk → Peer ids → ℕ → Bool
  unfolding set_needs
  needs cb_size_time now now' cb p cid =
      if too_old cb_size_time now cb cid then false else elim p.bmap [
        | none ↦ true
        | some bmap ↦ set_needs cb_size_time now' cb bmap p.cb_size cid
      ]
