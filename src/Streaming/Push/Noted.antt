-- ===== src/Streaming/Push/Noted.antt =====
-- What one push of `send_chunk` of streaming.c leaves noted in the buffer map of the receiver.
use mathlib.Core.Path.{subst}
use streamers.Common.{
  ℕ, suc, ◌≢◌, ◌≤◌, ◌≡◌, refl, sym, ap, ◌∙◌, inl, inr, Bool, true, false, some, List, [], ◌∷◌,
  arith, ◌==◌, ==_iff, ◌&&◌, length, get_elem?, set, take, any, All, All-mono, Bool-cases,
  get_elem?-set_self, get_elem?-set_ne, get_elem?-some_lt, some_inj, if◌then◌else◌,
}
use streamers.Chunk.{Chunk}
use streamers.Grapes.{ChunkIdSets, ChunkBuffers}
use streamers.Streaming.Needs.{Peer, needs}
use streamers.Streaming.Attributes.{chunk_attributes_update_sending, update_chunk, sending-id}
use streamers.Streaming.Send.Once.{needs_check}
use streamers.Streaming.Receive.{StreamConfig, Message, bmap_message}
use streamers.Streaming.Push.{Pushing, Pushed, finished, latest_first, note_pushed, push_one}
use streamers.Streaming.Push.Latest.{
  All-set, All-get, any-latest_first, any-take, latest_first-update_chunk,
}

abbrev pub same_push : ℕ × Chunk → ℕ × Chunk → Bool
same_push (i, c) (j, d) = (i == j) && (c.id == d.id)

-- No chunk went to one neighbour twice.
abbrev pub Distinct : List (ℕ × Chunk) → Type 0
Distinct [] = Unit
Distinct (x ∷ xs) = All (λ y. same_push x y ≡ false) xs × Distinct xs

module _ (ids : ChunkIdSets) where
  open ids use {ChunkIdSet, check}

  -- The peer has a buffer map.
  abbrev pub IsMapped : Peer ids → Type 0
  IsMapped p = (b : ChunkIdSet) × (p.bmap ≡ some b)

  -- The chunk is in the buffer map of the neighbour at the place.
  abbrev pub Noted : List (Peer ids) → ℕ × Chunk → Type 0
  Noted ps (i, c) =
      (p : Peer ids) × (b : ChunkIdSet) × (get_elem? ps i ≡ some p)
      × (p.bmap ≡ some b)
      × (check b c.id ≡ true)

  -- The ids that the scheduler is given are the first of `latest`; all neighbours have buffer maps; every chunk
  -- that was sent is the latest one and stands in the buffer map of its receiver.
  pub record IsOnce (latest : List ℕ) (s : Pushing ids) : Type 0 where
    pub same : latest_first s.cb ≡ latest
    pub mapped : All IsMapped s.neighbours
    pub recent : All (λ (x : ℕ × Chunk). any (λ c. c == x.1.id) (take 1 latest) ≡ true) s.sent
    pub noted : All (Noted s.neighbours) s.sent
    pub distinct : Distinct s.sent

  -- A call ends so, with `n` chunks more at most.
  pub data Pushes (latest : List ℕ) (n : ℕ) : Pushed ids → Type 0 where
    pushes : {s : Pushing ids} → IsOnce latest s → length s.sent ≤ n → Pushes latest n (finished s)

module _ (ids : ChunkIdSets) (buffers : ChunkBuffers) (cfg : StreamConfig) where
  open ids use {ChunkIdSet, add_chunk, check, check-add_chunk}

  set_Noted :
      (ps : List (Peer ids)) (i : ℕ) (p : Peer ids) (b : ChunkIdSet) (id : ℕ) (y : ℕ × Chunk)
      → get_elem? ps i ≡ some p
      → p.bmap ≡ some b
      → Noted ids ps y
      → Noted ids (set ps i (record p { bmap = some (add_chunk b id) })) y
  set_Noted ps i p b id (j, d) g m (q, b', g', m', k) =
      let v : Peer ids = record p { bmap = some (add_chunk b id) } in
      elim (Bool-cases (i == j)) [
        | inl at ↦
            let e : i ≡ j = (==_iff i j).0 at in
            let same : some p ≡ some q = sym g ∙ ap (get_elem? ps) e ∙ g' in
            let maps : some b ≡ some b' =
              sym m ∙ ap (λ (r : Peer ids). r.bmap) (some_inj same) ∙ m' in
            let stays : check (add_chunk b id) d.id ≡ true =
              ground (arith, check-add_chunk b id d.id, some_inj maps, k) in
            let here = get_elem?-set_self ps i v (get_elem?-some_lt ps i g) in
            (v, add_chunk b id, sym (ap (get_elem? (set ps i v)) e) ∙ here, refl, stays)
        | inr other ↦
            let n : i ≢ j = λ e. let at = (==_iff i j).1 e in absurd cc in
            (q, b', get_elem?-set_ne ps i j v n ∙ g', m', k)
      ]

  -- What was noted before is another push.
  apart :
      (ps : List (Peer ids)) (i : ℕ) (p : Peer ids) (b : ChunkIdSet) (c : Chunk) (y : ℕ × Chunk)
      → get_elem? ps i ≡ some p
      → p.bmap ≡ some b
      → check b c.id ≡ false
      → Noted ids ps y
      → same_push (i, c) y ≡ false
  apart ps i p b c (j, d) g m fresh (q, b', g', m', k) = elim (Bool-cases (i == j)) [
    | inr other ↦ rw (other) refl
    | inl at ↦
        let e : i ≡ j = (==_iff i j).0 at in
        let same : some p ≡ some q = sym g ∙ ap (get_elem? ps) e ∙ g' in
        let maps : some b ≡ some b' = sym m ∙ ap (λ (r : Peer ids). r.bmap) (some_inj same) ∙ m' in
        let known : check b d.id ≡ true = ap (λ r. check r d.id) (some_inj maps) ∙ k in
        elim (Bool-cases (c.id == d.id)) [
          | inr differ ↦ rw (at, differ) refl
          | inl alike ↦ absurd (ground (arith, alike, known, fresh))
        ]
  ]

  note_pushed-Pushes :
      (latest : List ℕ) (n i : ℕ) (p : Peer ids) (b : ChunkIdSet) (c : Chunk) (s : Pushing ids)
      → IsOnce ids latest s
      → length s.sent ≤ n
      → get_elem? s.neighbours i ≡ some p
      → p.bmap ≡ some b
      → check b c.id ≡ false
      → any (λ d. d == c.id) (take 1 latest) ≡ true
      → Pushes ids latest (suc n) (note_pushed ids buffers cfg i p c s)
  unfolding note_pushed
  note_pushed-Pushes latest n i p b c s w l g m fresh recent =
      let v : Peer ids = record p { bmap = some (add_chunk b c.id) } in
      let here = get_elem?-set_self s.neighbours i v (get_elem?-some_lt s.neighbours i g) in
      let now : check (add_chunk b c.id) c.id ≡ true =
        ground (arith, check-add_chunk b c.id c.id) in
      rw (m, note_pushed)
        (pushes
          (record {
            same = w.same;
            mapped = All-set (IsMapped ids) s.neighbours i v (add_chunk b c.id, refl) w.mapped;
            recent = (recent, w.recent);
            noted = (
              (v, add_chunk b c.id, here, refl, now),
              All-mono s.sent (λ y. set_Noted s.neighbours i p b c.id y g m) w.noted,
            );
            distinct =
                (All-mono s.sent (λ y. apart s.neighbours i p b c y g m fresh) w.noted, w.distinct);
          })
          (omega arith))

  -- What a push changes before it is noted.
  begun-IsOnce :
      (latest : List ℕ) (s : Pushing ids) (id : ℕ) (messages : List (Message ids))
      → IsOnce ids latest s
      → IsOnce ids latest (record s {
        cb = update_chunk chunk_attributes_update_sending id s.cb;
        messages = messages;
      })
  begun-IsOnce latest s id messages w = record {
    same = latest_first-update_chunk id s.cb ∙ w.same;
    mapped = w.mapped;
    recent = w.recent;
    noted = w.noted;
    distinct = w.distinct;
  }

  pub push_one-Pushes :
      (before ok : Bool) (latest : List ℕ) (n i cid now t : ℕ) (p : Peer ids) (s : Pushing ids)
      → IsOnce ids latest s
      → length s.sent ≤ n
      → get_elem? s.neighbours i ≡ some p
      → needs ids buffers t now now s.cb p cid ≡ true
      → any (λ c. c == cid) (take 1 latest) ≡ true
      → Pushes ids latest (suc n) (push_one ids buffers cfg before ok (i, cid) s)
  unfolding push_one
  push_one-Pushes before ok latest n i cid now t p s w l g need recent =
      let (b, m) = All-get (IsMapped ids) s.neighbours i p g w.mapped in
      let held = any-latest_first s.cb cid (rw (w.same) (any-take 1 cid latest recent)) in
      let (c, found) = buffers.get_chunk-held s.cb cid held in
      let id : c.id ≡ cid = buffers.get_chunk-id s.cb cid found in
      let c' = chunk_attributes_update_sending c in
      let id' : cid ≡ c'.id = sym (sending-id c ∙ id) in
      let fresh : check b c'.id ≡ false =
        subst (λ k. check b k ≡ false) id'
          (needs_check ids buffers ids.init t now now s.cb p b cid m need) in
      let recent' = subst (λ k. any (λ d. d == k) (take 1 latest) ≡ true) id' recent in
      let messages : List (Message ids) =
        if before then bmap_message ids buffers cfg p.id s.cb ∷ s.messages else s.messages in
      let w' = begun-IsOnce latest s c.id messages w in
      let s' : Pushing ids = record s {
        cb = update_chunk chunk_attributes_update_sending c.id s.cb;
        messages = messages;
      } in
      rw (g, push_one)
        (rw (found)
          (elim ok
            as (λ o.
              Pushes ids latest (suc n)
                (if o then note_pushed ids buffers cfg i p c' s' else finished s')) [
                  | true ↦ note_pushed-Pushes latest n i p b c' s' w' l g m fresh recent'
                  | false ↦ pushes w' (omega arith)
                ]))
