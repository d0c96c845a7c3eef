-- ===== src/Streaming/Accept.antt =====
-- `cb_to_bmap` and `get_chunks_to_accept` of streaming.c: which of the chunks offered are accepted.
pub mod Requests
use streamers.Common.{
  ℕ, zero, suc, ◌+◌, ◌*◌, ◌-◌, ◌<◌, ◌≤◌, ◌≡◌, Bool, true, false, not, Option, none, some, List, [],
  ◌∷◌, arith, if◌then◌else◌, ltb, leb, ◌==◌, ◌&&◌,
}
use streamers.Timer.{Timeval, tv2int}
use streamers.Chunklock.{Locks, chunk_islocked, chunk_lock}
use streamers.Chunk.{Chunk}
use streamers.Grapes.{ChunkIdSets, ChunkBuffers}
use streamers.Streaming.Needs.{set_needs}

-- What `get_chunks_to_accept` returns, and what it leaves of the locks.
pub record Accepted (ids : ChunkIdSets) : Type 0 where
  pub cset_acc : ChunkIdSets.ChunkIdSet ids
  pub locks : Locks

module _ (ids : ChunkIdSets) (buffers : ChunkBuffers) where
  open ids use {ChunkIdSet, init, add_chunk, size, get_chunk}

  -- `for (i = num_chunks - 1; i >= 0; i--)`: the last chunk goes in first.
  unfoldable pub cb_to_bmap : List Chunk → ChunkIdSet
  cb_to_bmap [] = init
  cb_to_bmap (c ∷ chunks) = add_chunk (cb_to_bmap chunks) c.id

  module _ (cb_size_time cb_size max_deliver : ℕ) (cb : List Chunk) (from : Option ℕ)
      (clock : ℕ → Timeval) (cset_off : ChunkIdSet) where
    -- `!chunk_islocked(chunkid) && _needs(my_bmap, cb_size, chunkid)`, given the first part's result.
    -- The `k`-th reading of the clock is `clock k`: three in a round.
    unfoldable pub wanted : ℕ → ℕ → Bool → Bool
    wanted i chunkid locked =
        not locked
        && set_needs ids buffers cb_size_time (tv2int (clock (3 * i + 1))) cb (cb_to_bmap cb)
            cb_size chunkid

    -- The loop, by the rounds left.
    unfoldable pub accept_loop : ℕ → ℕ → ℕ → Accepted ids → Accepted ids
    accept_loop zero i d s = s
    accept_loop (suc rounds) i d s = elim (ltb d max_deliver) [
      | false ↦ s
      | true ↦
          let chunkid = get_chunk cset_off i in
          let (locked, locks) = chunk_islocked (clock (3 * i)) chunkid s.locks in
          elim (wanted i chunkid locked) [
            | true ↦ accept_loop rounds (suc i) (suc d) (record {
              cset_acc = add_chunk s.cset_acc chunkid;
              locks = chunk_lock (clock (3 * i + 2)) chunkid from locks;
            })
            | false ↦ accept_loop rounds (suc i) d (record s { locks = locks })
          ]
    ]

    -- `get_chunks_to_accept`.
    unfoldable pub get_chunks_to_accept : Locks → Accepted ids
    get_chunks_to_accept locks =
        accept_loop (size cset_off) 0 0 (record { cset_acc = init; locks = locks })
