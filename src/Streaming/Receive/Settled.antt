-- ===== src/Streaming/Receive/Settled.antt =====
-- What holds once `received_chunk` of streaming.c has dealt with a chunk.
use streamers.Common.{
  ℕ, ◌*◌, ◌+◌, ◌≡◌, refl, ap, ◌∙◌, inl, inr, Bool, true, false, Option, some, List, [], ◌∷◌, arith,
  ◌==◌, any, Bool-cases,
}
use streamers.Timer.{Timeval, tv2int}
use streamers.Chunk.{Chunk}
use streamers.Chunklock.{Locks, chunk_unlock}
use streamers.Chunklock.Laws.{drop_first, chunk_unlock-drop_first}
use streamers.Output.{OutputConfig, Output}
use streamers.Output.Session.{Running, deliver_running}
use streamers.Grapes.{ChunkIdSets, ChunkBuffers, AddResult, added}
use streamers.Streaming.Needs.{Peer, needs, set_needs}
use streamers.Streaming.Accept.{cb_to_bmap, get_chunks_to_accept}
use streamers.Streaming.Accept.Requests.{accepted_offered}
use streamers.Streaming.Attributes.{chunk_attributes_update_received}
use streamers.Streaming.Receive.{
  StreamConfig, Message, Streamer, done, received_chunk, note_received, keep_chunk, answer,
  ack_chunk, bcast_after, send_ack, bcast_bmap,
}

-- Any chunk may be delivered.
abbrev pub Whatever : Chunk → Type 0
Whatever c = Unit

-- The buffer holds a chunk of the id.
abbrev pub held : ℕ → List Chunk → Bool
held id cb = any (λ (d : Chunk). d.id == id) cb

pair_lem : (r : AddResult × List Chunk) → r.0 ≡ added → r ≡ (added, r.1)
pair_lem (a, cb) e = ap (λ (x : AddResult). (x, cb)) e

module _ (ids : ChunkIdSets) (buffers : ChunkBuffers) where
  open ids use {ChunkIdSet, add_chunk, check, init, check-init, check-add_chunk}

  check-cb_to_bmap : (cb : List Chunk) (id : ℕ) → check (cb_to_bmap ids buffers cb) id ≡ held id cb
  unfolding cb_to_bmap
  check-cb_to_bmap [] id = check-init id
  check-cb_to_bmap (c ∷ cb) id =
      ground (arith, check-add_chunk (cb_to_bmap ids buffers cb) c.id id, check-cb_to_bmap cb id)

  set_needs_held :
      (t now : ℕ) (cb : List Chunk) (bmap : ChunkIdSet) (cb_size id : ℕ)
      → check bmap id ≡ true
      → set_needs ids buffers t now cb bmap cb_size id ≡ false
  unfolding set_needs
  set_needs_held t now cb bmap cb_size id h = ground arith

  needs_held :
      (t now now' : ℕ) (cb : List Chunk) (p : Peer ids) (bmap : ChunkIdSet) (id : ℕ)
      → p.bmap ≡ some bmap
      → check bmap id ≡ true
      → needs ids buffers t now now' cb p id ≡ false
  unfolding needs
  needs_held t now now' cb p bmap id e h =
      rw (e, needs) (ground (arith, set_needs_held t now' cb bmap p.cb_size id h))

  -- A chunk that the buffer holds is not accepted, whoever offers it.
  pub held_refused :
      (t cb_size max_deliver : ℕ) (cb : List Chunk) (from : Option ℕ) (clock : ℕ → Timeval)
      (cset_off : ChunkIdSet) (locks : Locks) (id : ℕ)
      → held id cb ≡ true
      → check
          (get_chunks_to_accept ids buffers t cb_size max_deliver cb from clock cset_off
            locks).cset_acc
          id
        ≡ false
  held_refused t cb_size max_deliver cb from clock cset_off locks id h =
      let acc =
        (get_chunks_to_accept ids buffers t cb_size max_deliver cb from clock cset_off
          locks).cset_acc in
      elim (Bool-cases (check acc id)) [
        | inr refused ↦ refused
        | inl accepted ↦
            let (j, lt, e, needed) =
              accepted_offered ids buffers t cb_size max_deliver cb from clock cset_off locks id
                accepted in
            let mine = check-cb_to_bmap cb id ∙ h in
            let idle =
              set_needs_held t (tv2int (clock (3 * j + 1))) cb (cb_to_bmap ids buffers cb) cb_size
                id mine in
            absurd (ground (arith, idle, needed))
      ]

  module _ (cfg : StreamConfig) (out : OutputConfig) (first : ℕ) where
    -- The state that `received_chunk` leaves, from `s`, of a chunk `c` as it is kept: the output is
    -- sound, the first lock of the chunk is gone, the sender is taken to have the chunk, and a chunk that
    -- the buffer took is in the buffer.
    pub record Settles (s : Streamer ids) (c : Chunk) (s' : Streamer ids) : Type 0 where
      pub sound : Running out Whatever first s'.output
      pub unlocked : s'.locks ≡ record s.locks { locks = drop_first c.id s.locks.locks }
      pub sender : Peer ids
      pub known : s'.from ≡ some sender
      pub served :
          (t now now' : ℕ) (cb : List Chunk) → needs ids buffers t now now' cb sender c.id ≡ false
      pub taken : (buffers.add_chunk s.cb c).0 ≡ added → held c.id s'.cb ≡ true

    messages-Settles :
        (s0 : Streamer ids) (c : Chunk) (s : Streamer ids) (l : List (Message ids))
        → Settles s0 c s
        → Settles s0 c (record s { messages = l })
    messages-Settles s0 c s l w = record {
      sound = w.sound;
      unlocked = w.unlocked;
      sender = w.sender;
      known = w.known;
      served = w.served;
      taken = w.taken;
    }

    ack_chunk-Settles :
        (s0 : Streamer ids) (c : Chunk) (skipped : Bool) (from trans_id : ℕ) (s : Streamer ids)
        → Settles s0 c s
        → Settles s0 c (ack_chunk ids buffers cfg skipped from trans_id s)
    unfolding ack_chunk send_ack
    ack_chunk-Settles s0 c true from trans_id s w = w
    ack_chunk-Settles s0 c false from trans_id s w = messages-Settles s0 c s _ w

    bcast_after-Settles :
        (s0 : Streamer ids) (c : Chunk) (s : Streamer ids)
        → Settles s0 c s
        → Settles s0 c (bcast_after ids buffers cfg s)
    unfolding bcast_after bcast_bmap
    bcast_after-Settles s0 c s w = elim (Bool-cases (cfg.bcast_after_receive_every == 0)) [
      | inl off ↦ rw (off, bcast_after) w
      | inr on ↦ rw (on, bcast_after) (messages-Settles s0 c s _ w)
    ]

    -- The state before the messages are sent, when the output has taken the chunk.
    abbrev stored : Timeval → Chunk → Output → Streamer ids → Streamer ids
    stored later c output s =
        keep_chunk ids buffers cfg later c
          (record s { locks = chunk_unlock c.id s.locks; output = output })

    abbrev noted : Timeval → Peer ids → ChunkIdSet → ℕ → Streamer ids → Streamer ids
    noted stamp p bmap id s = record s {
      from = some (record p { bmap = some (add_chunk bmap id); bmap_timestamp = stamp });
    }

    noted-Settles :
        (later stamp : Timeval) (c : Chunk) (output : Output) (s : Streamer ids) (p : Peer ids)
        (bmap : ChunkIdSet)
        → Running out Whatever first output
        → Settles s c (noted stamp p bmap c.id (stored later c output s))
    unfolding keep_chunk
    noted-Settles later stamp c output s p bmap r = record {
      sound = r;
      unlocked = chunk_unlock-drop_first c.id s.locks;
      sender = record p { bmap = some (add_chunk bmap c.id); bmap_timestamp = stamp };
      known = refl;
      served = λ t now now' cb.
          needs_held t now now' cb _ (add_chunk bmap c.id) c.id refl
            (ground (arith, check-add_chunk bmap c.id c.id));
      taken = λ e. buffers.add_chunk-added s.cb c (pair_lem (buffers.add_chunk s.cb c) e);
    }

    stored-from :
        (later : Timeval) (c : Chunk) (output : Output) (s : Streamer ids)
        → (stored later c output s).from ≡ s.from
    unfolding keep_chunk
    stored-from later c output s = refl

    noted_lem :
        (stamp : Timeval) (id : ℕ) (s : Streamer ids) (p : Peer ids) (bmap : ChunkIdSet)
        → s.from ≡ some p
        → p.bmap ≡ some bmap
        → note_received ids buffers cfg stamp id s ≡ done (noted stamp p bmap id s)
    unfolding note_received
    noted_lem stamp id s p bmap e f = rw (e, note_received, f) refl

    -- A chunk from a peer whose buffer map is known, while the output is sound, is dealt with: the program
    -- neither exits nor touches a set that is not there; and the output is sound again, the first lock of
    -- the chunk is gone, the sender does not need the chunk any more by the rule of `needs`, and the chunk,
    -- if the buffer took it, is held.
    pub received_chunk-Settles :
        (later stamp : Timeval) (skipped : Bool) (from transid : ℕ) (c0 : Chunk) (s : Streamer ids)
        (p : Peer ids) (bmap : ChunkIdSet)
        → Running out Whatever first s.output
        → s.from ≡ some p
        → p.bmap ≡ some bmap
        → (s' : Streamer ids) × (received_chunk ids buffers cfg out later stamp skipped from
              (some (c0, transid))
              s
            ≡ done s')
          × Settles s (chunk_attributes_update_received c0) s'
    unfolding received_chunk answer
    received_chunk-Settles later stamp skipped from transid c0 s p bmap r e f =
        let c = chunk_attributes_update_received c0 in
        let (output, m, d, lo, v, gap, k) =
          deliver_running out Whatever first r.next c s.output r.inv r.gap tt in
        let r' : Running out Whatever first output = record { next = m; inv = v; gap = gap } in
        let s1 = stored later c output s in
        let s2 = noted stamp p bmap c.id s1 in
        let w = noted-Settles later stamp c output s p bmap r' in
        let w' = ack_chunk-Settles s c skipped from transid s2 w in
        let n = noted_lem stamp c.id s1 p bmap (stored-from later c output s ∙ e) f in
        (
          bcast_after ids buffers cfg (ack_chunk ids buffers cfg skipped from transid s2),
          rw (d, received_chunk) (ap (answer ids buffers cfg skipped from transid) n),
          bcast_after-Settles s c (ack_chunk ids buffers cfg skipped from transid s2) w',
        )
