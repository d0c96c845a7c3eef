-- ===== src/Grapes.antt =====
-- What the sources use of GRAPES, the library of chunks, sets of chunk ids and chunk buffers, with the
-- behaviour that its documentation states and the sources rely on.
pub mod Lists
pub mod First
use streamers.Common.{
  ℕ, suc, ◌+◌, ◌≤◌, ◌≡◌, Bool, true, false, Option, none, some, List, ◌==◌, ◌||◌, any, length, All,
  get_elem?,
}
use streamers.Chunk.{Chunk}

-- chunkidset.h: `chunkID_set_init`, `_add_chunk`, `_check` (a non-negative result is `true`), `_size`,
-- `_get_chunk`, `_get_earliest`, `_clear` and `_union`.
pub record ChunkIdSets : Type 1 where
  pub ChunkIdSet : Type 0
  pub init : ChunkIdSet
  pub add_chunk : ChunkIdSet → ℕ → ChunkIdSet
  pub check : ChunkIdSet → ℕ → Bool
  pub size : ChunkIdSet → ℕ
  pub get_chunk : ChunkIdSet → ℕ → ℕ
  pub get_earliest : ChunkIdSet → ℕ
  pub clear : ChunkIdSet → ChunkIdSet
  pub union : ChunkIdSet → ChunkIdSet → ChunkIdSet
  pub check-init : (c : ℕ) → check init c ≡ false
  pub check-add_chunk :
      (s : ChunkIdSet) (c d : ℕ) → check (add_chunk s c) d ≡ ((d == c) || check s d)
  pub check-clear : (s : ChunkIdSet) (c : ℕ) → check (clear s) c ≡ false
  pub check-union : (s t : ChunkIdSet) (c : ℕ) → check (union s t) c ≡ (check s c || check t c)
  pub size-init : size init ≡ 0
  pub size-add_chunk : (s : ChunkIdSet) (c : ℕ) → size (add_chunk s c) ≤ suc (size s)

-- The results of `chbAddChunk`: 0, `E_CB_OLD` and `E_CB_DUPLICATE`, both negative.
pub data AddResult : Type 0 where
  added old duplicate : AddResult

-- chunkbuffer.h: the chunks that a buffer holds are what `chbGetChunks` returns. `chbAddChunk` says
-- what it did, and a chunk that it took is held; `chbGetChunk` finds a chunk of the id asked for, if one
-- is held.
pub record ChunkBuffers : Type 0 where
  pub add_chunk : List Chunk → Chunk → AddResult × List Chunk
  pub get_chunk : List Chunk → ℕ → Option Chunk
  pub add_chunk-added :
      (cb : List Chunk) (c : Chunk) {cb' : List Chunk}
      → add_chunk cb c ≡ (added, cb')
      → any (λ (d : Chunk). d.id == c.id) cb' ≡ true
  pub get_chunk-held :
      (cb : List Chunk) (id : ℕ)
      → any (λ (d : Chunk). d.id == id) cb ≡ true
      → (c : Chunk) × (get_chunk cb id ≡ some c)
  pub get_chunk-id : (cb : List Chunk) (id : ℕ) {c : Chunk} → get_chunk cb id ≡ some c → c.id ≡ id

-- scheduler_la.h: `schedSelectPeerFirst`, which selects pairs of a peer and a chunk, and
-- `schedSelectPeersForChunks`, which selects peers, both by their places in the list that is given. They
-- are handed the peers, the chunk ids, how many to select at most, and the filter. What is selected comes of
-- what was given, and passes the filter.
pub record Schedulers (P : Type 0) : Type 0 where
  pub select_pairs : List P → List ℕ → ℕ → (P → ℕ → Bool) → List (ℕ × ℕ)
  pub select_peers : List P → List ℕ → ℕ → (P → ℕ → Bool) → List ℕ
  pub pairs_sound :
      (ps : List P) (cs : List ℕ) (n : ℕ) (filter : P → ℕ → Bool)
      → All
          (λ (r : ℕ × ℕ).
            (p : P) × (get_elem? ps r.0 ≡ some p)
            × (filter p r.1 ≡ true)
            × (any (λ c. c == r.1) cs ≡ true))
          (select_pairs ps cs n filter)
  pub pairs_bounded :
      (ps : List P) (cs : List ℕ) (n : ℕ) (filter : P → ℕ → Bool)
      → length (select_pairs ps cs n filter) ≤ n
  pub peers_sound :
      (ps : List P) (cs : List ℕ) (n : ℕ) (filter : P → ℕ → Bool)
      → All
          (λ i. (p : P) × (get_elem? ps i ≡ some p) × (any (filter p) cs ≡ true))
          (select_peers ps cs n filter)
  pub peers_bounded :
      (ps : List P) (cs : List ℕ) (n : ℕ) (filter : P → ℕ → Bool)
      → length (select_peers ps cs n filter) ≤ n
