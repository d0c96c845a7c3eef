-- ===== src/Streaming/Send/Once.antt =====
-- What `send_accepted_chunks` of streaming.c sends: nothing twice to a peer whose buffer map is known.
use streamers.Common.{
  ℕ, zero, suc, ◌+◌, ◌*◌, ◌<◌, ◌≤◌, ◌≡◌, refl, sym, ap, ◌∙◌, ◌⊎◌, inl, inr, Bool, true, false, not,
  Option, none, some, List, [], ◌∷◌, arith, ltb, ◌==◌, length, All, All-mono, Bool-cases,
}
use streamers.Chunk.{Chunk}
use streamers.Grapes.{ChunkIdSets, ChunkBuffers}
use streamers.Measures.Register.{offer_accept_out}
use streamers.Transaction.Heap.{Store, done, pure, continue}
use streamers.Transaction.Chain.{Cells, IsList}
use streamers.Transaction.Create.{mark, transaction_reg_accept-mark}
use streamers.Streaming.Needs.{Peer, needs, set_needs, too_old}
use streamers.Streaming.Attributes.{chunk_attributes_update_sending, update_chunk, sending-id}
use streamers.Streaming.Send.{
  Sending, Sent, finished, fault, note_sent, is_due, send_loop, send_accepted_chunks,
}

-- No two chunks of the list have the same id.
abbrev pub Distinct : List Chunk → Type 0
Distinct [] = Unit
Distinct (c ∷ cs) = All (λ (d : Chunk). (c.id == d.id) ≡ false) cs × Distinct cs

module _ (ids : ChunkIdSets) (buffers : ChunkBuffers) (cset_acc : ChunkIdSets.ChunkIdSet ids) where
  open ids use {ChunkIdSet, add_chunk, check, size, get_chunk, check-add_chunk}

  -- The peer has a buffer map; what was sent to it is in there, is of different ids, and was accepted.
  pub record IsOnce (s : Sending ids) : Type 0 where
    pub peer : Peer ids
    pub bmap : ChunkIdSet
    pub known : s.to ≡ some peer
    pub mapped : peer.bmap ≡ some bmap
    pub noted : All (λ (c : Chunk). check bmap c.id ≡ true) s.sent
    pub distinct : Distinct s.sent
    pub accepted :
        All (λ (c : Chunk). (j : ℕ) × (j < size cset_acc) × (get_chunk cset_acc j ≡ c.id)) s.sent

  Option-cases : (r : Option Chunk) → (r ≡ none) ⊎ ((c : Chunk) × (r ≡ some c))
  Option-cases none = inl refl
  Option-cases (some c) = inr (c, refl)

  -- The run ends, with at most `n` chunks sent.
  pub data Ends (n : ℕ) : Sent ids → Type 0 where
    ends : {s : Sending ids} → IsOnce s → length s.sent ≤ n → Ends n (finished s)

  set_needs_check :
      (t now : ℕ) (cb : List Chunk) (bmap : ChunkIdSet) (cb_size cid : ℕ)
      → set_needs ids buffers t now cb bmap cb_size cid ≡ true
      → check bmap cid ≡ false
  unfolding set_needs
  set_needs_check t now cb bmap cb_size cid h = ground arith

  pub needs_check :
      (t now now' : ℕ) (cb : List Chunk) (p : Peer ids) (bmap : ChunkIdSet) (cid : ℕ)
      → p.bmap ≡ some bmap
      → needs ids buffers t now now' cb p cid ≡ true
      → check bmap cid ≡ false
  unfolding needs
  needs_check t now now' cb p bmap cid e h = elim (Bool-cases (too_old ids buffers t now cb cid)) [
    | inl old ↦ absurd (ground (arith, h, old))
    | inr young ↦
        let h' : set_needs ids buffers t now' cb bmap p.cb_size cid ≡ true = simp (young, e) at h in
        set_needs_check t now' cb bmap p.cb_size cid h'
  ]

  note_lem :
      (c : Chunk) (i : ℕ) (s : Sending ids) (w : IsOnce s)
      → i < size cset_acc
      → get_chunk cset_acc i ≡ c.id
      → check (w.bmap) c.id ≡ false
      → Ends (suc (length s.sent)) (note_sent ids buffers c s)
  unfolding note_sent
  note_lem c i s w lt e fresh =
      let bmap' = add_chunk w.bmap c.id in
      let here : check bmap' c.id ≡ true = ground (arith, check-add_chunk w.bmap c.id c.id) in
      let apart : (d : Chunk) → check w.bmap d.id ≡ true → (c.id == d.id) ≡ false = λ d h.
        elim (Bool-cases (c.id == d.id)) [
          | inl same ↦ absurd (ground (arith, same, h, fresh))
          | inr other ↦ other
        ] in
      let stays : (d : Chunk) → check w.bmap d.id ≡ true → check bmap' d.id ≡ true =
        λ d h. ground (arith, check-add_chunk w.bmap c.id d.id) in
      rw (w.known, note_sent, w.mapped)
        (ends
          (record {
            peer = record w.peer { bmap = some bmap' };
            bmap = bmap';
            known = refl;
            mapped = refl;
            noted = (here, All-mono s.sent stays w.noted);
            distinct = (All-mono s.sent apart w.noted, w.distinct);
            accepted = ((i, lt, e), w.accepted);
          })
          (omega arith))

  -- Sending a chunk or not changes the chunk buffer only, before it is noted.
  same-IsOnce : (s : Sending ids) (cb : List Chunk) → IsOnce s → IsOnce (record s { cb = cb })
  same-IsOnce s cb w = record {
    peer = w.peer;
    bmap = w.bmap;
    known = w.known;
    mapped = w.mapped;
    noted = w.noted;
    distinct = w.distinct;
    accepted = w.accepted;
  }

  module _ (t max_deliver : ℕ) (clock : ℕ → ℕ) (send_chunk : ℕ → Bool) where
    abbrev loop : ℕ → ℕ → ℕ → Sending ids → Sent ids
    loop = send_loop ids buffers t max_deliver clock send_chunk cset_acc

    abbrev is_due_now : ℕ → Sending ids → Bool
    is_due_now i s =
        is_due ids buffers t max_deliver clock send_chunk cset_acc i (get_chunk cset_acc i) s

    is_due_check :
        (i : ℕ) (s : Sending ids) (w : IsOnce s)
        → is_due_now i s ≡ true
        → check (w.bmap) (get_chunk cset_acc i) ≡ false
    unfolding is_due
    is_due_check i s w h =
        let h' : needs ids buffers t (clock (2 * i)) (clock (2 * i + 1)) s.cb w.peer
              (get_chunk cset_acc i)
            ≡ true =
          rw (w.known, is_due) at h in
        needs_check t (clock (2 * i)) (clock (2 * i + 1)) s.cb w.peer w.bmap (get_chunk cset_acc i)
          w.mapped h'

    after_note :
        (n : ℕ) (r : Sent ids) (k : Sending ids → Sent ids)
        → ((s : Sending ids) → IsOnce s → length s.sent ≤ n → Ends max_deliver (k s))
        → Ends n r
        → Ends max_deliver (elim r [ fault ↦ fault | finished s ↦ k s ])
    after_note n (finished s) k f (ends w few) = f s w few
    after_note n fault k f h = elim h [ ]

    loop-Ends :
        (rounds i d : ℕ) (s : Sending ids)
        → i + rounds ≡ size cset_acc
        → IsOnce s
        → length s.sent ≤ d
        → d ≤ max_deliver
        → Ends max_deliver (loop rounds i d s)
    unfolding send_loop same-IsOnce
    loop-Ends zero i d s all w few left = ends w (omega arith)
    loop-Ends (suc rounds) i d s all w few left =
        let idle = loop-Ends rounds (suc i) d s (omega arith) w few left in
        elim (Bool-cases (ltb d max_deliver)) [
          | inr full ↦ rw (full, send_loop) (ends w (omega arith))
          | inl room ↦ elim (Option-cases (buffers.get_chunk s.cb (get_chunk cset_acc i))) [
            | inl gone ↦ rw (room, send_loop, gone) idle
            | inr (c, held) ↦ elim (Bool-cases (is_due_now i s)) [
              | inr has_it ↦ rw (room, send_loop, held, has_it) idle
              | inl due ↦
                  let c' = chunk_attributes_update_sending c in
                  let cb = update_chunk chunk_attributes_update_sending c.id s.cb in
                  let s' : Sending ids = record s { cb = cb } in
                  let w' = same-IsOnce s cb w in
                  let e : get_chunk cset_acc i ≡ c'.id =
                    sym (buffers.get_chunk-id s.cb (get_chunk cset_acc i) held)
                    ∙ sym (sending-id c) in
                  let fresh = rw e at (is_due_check i s w due) in
                  let noted = note_lem c' i s' w' (omega arith) e fresh in
                  elim (Bool-cases (send_chunk i)) [
                    | inr lost ↦
                        rw (room, send_loop, held, due, lost)
                          (loop-Ends rounds (suc i) d s' (omega arith) w' few left)
                    | inl went ↦
                        rw (room, send_loop, held, due, went)
                          (after_note (suc (length s.sent)) (note_sent ids buffers c' s')
                            (loop rounds (suc i) (suc d))
                            (λ s'' w'' few''.
                              loop-Ends rounds (suc i) (suc d) s'' (omega arith) w'' (omega arith)
                                (ground arith))
                            noted)
                  ]
            ]
          ]
        ]

    -- To a peer whose buffer map is known, nothing having been sent, with a well-formed list of transactions and a round
    -- for each of them and one more: the run ends without a fault. The first transaction of the id, if there is one, is
    -- marked as accepted, and the others stay; at most `max_deliver` chunks are sent, all of them accepted ones, none
    -- twice, and all are in the peer's buffer map then.
    pub send_accepted_chunks-Ends :
        (now fuel trans_id : ℕ) (store : Store) (xs : Cells) (cb : List Chunk) (p : Peer ids)
        (bmap : ChunkIdSet)
        → IsList store xs
        → length xs < fuel
        → p.bmap ≡ some bmap
        → (sent : Sent ids) × (store' : Store) × (send_accepted_chunks ids buffers t max_deliver
              clock send_chunk cset_acc now fuel trans_id
              (record { cb = cb; to = some p; sent = []; reports = [] })
              store
            ≡ done sent store')
          × Ends max_deliver sent
          × IsList store' (mark trans_id now xs)
          × (store'.trans_id ≡ store.trans_id)
    unfolding send_accepted_chunks
    send_accepted_chunks-Ends now fuel trans_id store xs cb p bmap is f e =
        let (store', run, is', kept) =
          transaction_reg_accept-mark now fuel trans_id store xs is f in
        let s0 : Sending ids = record {
          cb = cb;
          to = some p;
          sent = [];
          reports = offer_accept_out (not (size cset_acc == 0)) ∷ [];
        } in
        let once : IsOnce s0 = record {
          peer = p;
          bmap = bmap;
          known = refl;
          mapped = e;
          noted = tt;
          distinct = tt;
          accepted = tt;
        } in
        let sent = loop (size cset_acc) 0 0 s0 in
        (
          sent,
          store',
          ap (λ r. continue r (λ b. pure sent)) run,
          loop-Ends (size cset_acc) 0 0 s0 (omega arith) once (omega arith) (omega arith),
          is',
          kept,
        )
