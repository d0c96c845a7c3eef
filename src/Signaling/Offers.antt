-- ===== src/Signaling/Offers.antt =====
-- What the handlers of chunk_signaling.c do with a message of a peer whose buffer map is known.
use streamers.Common.{
  ℕ, ◌+◌, ◌*◌, ◌<◌, ◌≤◌, ◌≡◌, refl, ◌∙◌, true, false, Option, none, some, List, ◌∷◌, arith, ◌==◌,
  ◌||◌, length,
}
use streamers.Timer.{tv2int}
use streamers.Chunk.{Chunk}
use streamers.Grapes.{ChunkIdSets, ChunkBuffers}
use streamers.Transaction.Chain.{Cells, IsList}
use streamers.Transaction.Remove.{erase, lookup, outcome, transaction_remove-erase}
use streamers.Streaming.Needs.{Peer, needs, set_needs}
use streamers.Streaming.Accept.{cb_to_bmap}
use streamers.Streaming.Accept.Requests.{accepted_offered, accepted_bounded}
use streamers.Signaling.{
  Surroundings, Signaling, Result, handled, send_buffermap, offer, ack, sig_parse_data,
  bmap_received, offer_received, ack_received, replace_bmap, if_from, answer_offer, rc_reg_ack,
}

module _ (ids : ChunkIdSets) (buffers : ChunkBuffers) (env : Surroundings) where
  open ids use {ChunkIdSet, check, size, get_chunk, union, clear, check-union, check-clear}

  -- The peer's buffer map has the chunks of the set, and no others.
  abbrev pub Mirrors : Option (Peer ids) → ChunkIdSet → Type 0
  Mirrors none c_set = ⊥
  Mirrors (some p) c_set =
      (bmap : ChunkIdSet) × (p.bmap ≡ some bmap) × ((id : ℕ) → check bmap id ≡ check c_set id)

  check-replaced :
      (b c_set : ChunkIdSet) (id : ℕ) → check (union (clear b) c_set) id ≡ check c_set id
  check-replaced b c_set id = ground (arith, check-union (clear b) c_set id, check-clear b id)

  abbrev replaced : Peer ids → ChunkIdSet → ChunkIdSet → Peer ids
  replaced p bmap c_set = record p {
    bmap = some (union (clear bmap) c_set);
    bmap_timestamp = env.stamp;
  }

  if_from_lem :
      (c_set bmap : ChunkIdSet) (p : Peer ids) (s : Signaling ids)
      (next : Signaling ids → Result ids)
      → s.from ≡ some p
      → p.bmap ≡ some bmap
      → if_from ids buffers env (replace_bmap ids buffers env c_set) s next
        ≡ next (record s { from = some (replaced p bmap c_set) })
  unfolding if_from replace_bmap
  if_from_lem c_set bmap p s next e f = rw (e, if_from, f) refl

  -- An offer from a peer whose buffer map is known is handled: the peer is taken to have what it offers and
  -- no more, and it is sent one set of chunks under the offer's transaction id: at most as many as the
  -- offer allows, and each an offered one that `_needs` said yes to.
  pub offer_answered :
      (c_set : ChunkIdSet) (max_deliver trans_id : ℕ) (s : Signaling ids) (p : Peer ids)
      (bmap : ChunkIdSet)
      → s.from ≡ some p
      → p.bmap ≡ some bmap
      → (s' : Signaling ids) × (acc : ChunkIdSet) × (sig_parse_data ids buffers env
            (some (record {
              sig_type = offer;
              c_set = c_set;
              max_deliver = max_deliver;
              trans_id = trans_id;
            }))
            s
          ≡ handled true s')
        × Mirrors s'.from c_set
        × (s'.accepts ≡ (acc, trans_id) ∷ s.accepts)
        × (size acc ≤ max_deliver)
        × ((id : ℕ)
            → check acc id ≡ true
            → (j : ℕ) × (j < size c_set)
              × (get_chunk c_set j ≡ id)
              × (set_needs ids buffers env.cb_size_time
                    (tv2int (env.accept_clock (3 * j + 1)))
                    s.cb
                    (cb_to_bmap ids buffers s.cb)
                    env.cb_size
                    id
                  ≡ true))
  unfolding sig_parse_data offer_received answer_offer
  offer_answered c_set max_deliver trans_id s p bmap e f =
      let known = record s { from = some (replaced p bmap c_set) } in
      (
        _,
        _,
        if_from_lem c_set bmap p s (answer_offer ids buffers env c_set max_deliver trans_id) e f,
        (union (clear bmap) c_set, refl, check-replaced bmap c_set),
        refl,
        accepted_bounded ids buffers env.cb_size_time env.cb_size max_deliver s.cb (some p.id)
            env.accept_clock c_set s.locks,
        accepted_offered ids buffers env.cb_size_time env.cb_size max_deliver s.cb (some p.id)
            env.accept_clock c_set s.locks,
      )

  -- An acknowledgement from a peer whose buffer map is known, with fuel for the list of transactions, is
  -- handled: the peer is taken to have the chunks of the set and no others, the first transaction of
  -- the id is out of the list, which is well formed again, and rate control is told what it was.
  pub ack_settled :
      (c_set : ChunkIdSet) (n trans_id : ℕ) (s : Signaling ids) (p : Peer ids) (bmap : ChunkIdSet)
      (xs : Cells)
      → s.from ≡ some p
      → p.bmap ≡ some bmap
      → IsList s.transactions xs
      → length xs < env.fuel
      → (s' : Signaling ids) × (sig_parse_data ids buffers env
            (some (record { sig_type = ack; c_set = c_set; max_deliver = n; trans_id = trans_id }))
            s
          ≡ handled true s')
        × Mirrors s'.from c_set
        × IsList s'.transactions (erase trans_id xs)
        × (s'.rate_acks ≡ outcome (lookup trans_id xs) ∷ s.rate_acks)
  unfolding sig_parse_data ack_received rc_reg_ack
  ack_settled c_set n trans_id s p bmap xs e f is enough =
      let (store, d, is', same, kept, freed) =
        transaction_remove-erase trans_id env.fuel s.transactions xs is enough in
      (
        record s {
          from = some (replaced p bmap c_set);
          transactions = store;
          rate_acks = outcome (lookup trans_id xs) ∷ s.rate_acks;
        },
        if_from_lem c_set bmap p s (rc_reg_ack ids buffers env trans_id) e f
            ∙ rw (d, rc_reg_ack) refl,
        (union (clear bmap) c_set, refl, check-replaced bmap c_set),
        is',
        refl,
      )

  needs_mirrored :
      (t now now' : ℕ) (cb : List Chunk) (p : Peer ids) (bmap : ChunkIdSet) (id : ℕ)
      → p.bmap ≡ some bmap
      → (check bmap id || p.cb_size == 0) ≡ true
      → needs ids buffers t now now' cb p id ≡ false
  unfolding needs set_needs
  needs_mirrored t now now' cb p bmap id e h = rw (e, needs) (ground arith)

  -- Once the buffer map of a peer whose buffer map was known is received, `needs` says no to each chunk
  -- in it, and to every chunk if the peer declared a buffer of size 0.
  pub bmap_respected :
      (c_set : ChunkIdSet) (cb_size trans_id : ℕ) (s : Signaling ids) (p : Peer ids)
      (bmap : ChunkIdSet)
      → s.from ≡ some p
      → p.bmap ≡ some bmap
      → (s' : Signaling ids) × (p' : Peer ids) × (sig_parse_data ids buffers env
            (some (record {
              sig_type = send_buffermap;
              c_set = c_set;
              max_deliver = cb_size;
              trans_id = trans_id;
            }))
            s
          ≡ handled true s')
        × (s'.from ≡ some p')
        × ((t now now' : ℕ) (cb : List Chunk) (id : ℕ)
            → (check c_set id || cb_size == 0) ≡ true
            → needs ids buffers t now now' cb p' id ≡ false)
  unfolding sig_parse_data bmap_received if_from replace_bmap
  bmap_respected c_set cb_size trans_id s p bmap e f =
      let p' : Peer ids = record (replaced p bmap c_set) { cb_size = cb_size } in
      (
        record s { from = some p' },
        p',
        rw (e, if_from, f) refl,
        refl,
        λ t now now' cb id h.
            needs_mirrored t now now' cb p' (union (clear bmap) c_set) id refl
              (ground (arith, check-replaced bmap c_set id)),
      )
